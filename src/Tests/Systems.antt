-- ===== src/Tests/Systems.antt =====
-- A pool of one thread that is given one value and told to exit.
use libcthreads.Common.{ℕ, ◌+◌, ◌≤◌, ◌≡◌, refl, arith, some, [], ◌∷◌, true}
use libcthreads.Machine.{Pointer, State}
use libcthreads.Machine.Post.{Post}
use libcthreads.Queue.{InternalQueue}
use libcthreads.Queue.Ring.{enqueue, dequeue, write, read, pushed}
use libcthreads.Queue.Valid.{contents, IsValid}
use libcthreads.Queue.Occurrences.{occurrences}
use libcthreads.Queue.Calls.{put, put_sorted}
use libcthreads.Pool.{Members, PoolWorld, status_exit}
use libcthreads.Pool.Calls.{take_value}
use libcthreads.Pool.Lifetime.{put_status}
use libcthreads.Pool.System.{
  System, popping, calling, exited, takes, misses, answers, exits, turns, pushes, tells, Reach,
  begun, later, Runs, here, further, start,
}
use libcthreads.Pool.System.Conserves.{IsConserved, Reach-IsConserved}
use libcthreads.Pool.System.Drains.{exited-Answered}
use libcthreads.Pool.System.Ends.{turns_left, Runs-turns_left}
use libcthreads.Pool.System.Finishes.{Finished, Reach-Finished}
use libcthreads.Pool.System.Refines.{Turns, Pushes, Inserting, take_value-Turns, pushing-Steps}
use libcthreads.Tests.{by_number, roomy_queue, roomy_queue-Ready, full_queue, full_queue-Ready}
use libcthreads.Tests.Pools.{machine, two_threads, threads}

abbrev pub bare : InternalQueue
bare = record {
  pop_index = 0;
  push_index = 0;
  number_of_values = 0;
  allocated_number_of_values = 2;
  values_array = some (0 ∷ 0 ∷ []);
  condition_mutex = 100;
  empty_condition = 200;
  full_condition = 300;
}

pub bare-IsValid : IsValid bare
bare-IsValid = record {
  array = refl;
  allocated = refl;
  counted = omega arith;
  pop_in = omega arith;
  push_at = refl;
}

abbrev pub open_pool : Members
open_pool = record two_threads { number_of_threads = 1; status = 0 }

abbrev with_five : InternalQueue
with_five = record bare { push_index = 1; number_of_values = 1; values_array = some (5 ∷ 0 ∷ []) }

abbrev after_five : InternalQueue
after_five = record with_five { pop_index = 1; number_of_values = 0 }

five_in : enqueue 5 bare ≡ some with_five
unfolding enqueue write pushed
five_in = refl

five_out : dequeue with_five ≡ some (5, after_five)
unfolding dequeue read
five_out = refl

abbrev given_five : System
given_five = record (start open_pool bare 1) { ring = with_five; given = 5 ∷ [] }

abbrev told : System
told = record given_five { members = put_status status_exit open_pool }

abbrev working : System
working = record told { ring = after_five; threads = calling 5 ∷ [] }

abbrev worked : System
worked = record working { answered = 5 ∷ []; threads = popping ∷ [] }

abbrev over : System
over = record worked { threads = exited ∷ [] }

given_five-Reach : Reach open_pool bare 1 given_five
given_five-Reach = later begun (pushes (omega arith) refl five_in)

told-Reach : Reach open_pool bare 1 told
told-Reach = later given_five-Reach tells

over-Runs : Runs 4 told over
over-Runs =
    further
      (further
        (further (further here (turns [] [] refl (takes refl refl five_out)))
          (turns [] [] refl answers))
        (turns [] [] refl (misses refl refl)))
      (turns [] [] refl (exits refl))

Reach-IsConserved_example : IsConserved told
Reach-IsConserved_example = Reach-IsConserved open_pool bare 1 told bare-IsValid refl told-Reach

exited-Answered_example :
    (contents over.ring ≡ [])
    × (over.given ≡ given_five.given)
    × ((v : Pointer) → occurrences v over.answered ≡ occurrences v given_five.given)
exited-Answered_example =
    exited-Answered open_pool bare 1 4 given_five told over bare-IsValid refl (omega arith)
      given_five-Reach (omega arith) tells over-Runs refl

Runs-turns_left_example :
    (over.members.status ≡ status_exit) × (4 + turns_left over ≤ turns_left told)
Runs-turns_left_example = Runs-turns_left 4 told over refl over-Runs

Reach-Finished_example : Finished told 0
Reach-Finished_example = Reach-Finished open_pool bare 1 told bare-IsValid refl told-Reach refl

abbrev state_with : InternalQueue → State (PoolWorld ℕ) InternalQueue
state_with q = record {
  world = record { system = 1; members = open_pool };
  object = q;
  errors = [];
}

take_value-Turns_example :
    Post ⊥
      (Turns threads (start open_pool bare 1) (state_with full_queue))
      (take_value machine (state_with full_queue))
take_value-Turns_example =
    take_value-Turns threads (start open_pool bare 1) (state_with full_queue) full_queue-Ready refl
      refl

pushing-Steps_example :
    Post ⊥
      (Pushes threads (start open_pool bare 1) (state_with roomy_queue) 7)
      (put machine 7 (state_with roomy_queue))
    × Post ⊥
        (Inserting threads (start open_pool bare 1) (state_with roomy_queue) by_number true 7)
        (put_sorted machine by_number true 7 (state_with roomy_queue))
pushing-Steps_example =
    pushing-Steps threads (start open_pool bare 1) (state_with roomy_queue) by_number true 7
      (omega arith) roomy_queue-Ready refl refl
