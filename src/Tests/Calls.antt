-- ===== src/Tests/Calls.antt =====
-- The calls of a queue, on the machine of Tests.
use libcthreads.Common.{refl, arith, some, true}
use libcthreads.Machine.Post.{Post}
use libcthreads.Common.{ℕ, ◌≡◌, none}
use libcthreads.Machine.{Pointer, State, success}
use libcthreads.Machine.Exec.{done}
use libcthreads.Queue.{InternalQueue}
use libcthreads.Queue.Others.{Others}
use libcthreads.Queue.Environment.{Reaches}
use libcthreads.Queue.Results.{Appended, Taken}
use libcthreads.Queue.Total.{push_total, pop_total}
use libcthreads.Tests.{IsFree}
use libcthreads.Queue.Ring.{enqueue, dequeue, read, write, pushed}
use libcthreads.Queue.Others.{Act, act, acts}
use libcthreads.Queue.Environment.{Ends, stop, again}
use libcthreads.Queue.Calls.{
  is_full, is_empty, has_values, push, try_push, pop, try_pop, empty, push_sorted,
}
use libcthreads.Queue.Results.{Passed}
use libcthreads.Queue.Push.{Pushed, push-Pushed, TriedPush, try_push-TriedPush}
use libcthreads.Queue.Pop.{Popped, pop-Popped, TriedPop, try_pop-TriedPop, Emptied, empty-Emptied}
use libcthreads.Queue.Sorted.{Sorted, push_sorted-Sorted}
use libcthreads.Tests.{
  machine, threads_of, full_queue, empty_queue, state_of, by_number, full_queue-Ready,
  empty_queue-Ready,
}

-- Where another thread pops at each wait, a full queue gets room in one wait.
room_comes : Ends (machine Act.pops) (λ w. is_full) (λ q. q.full_condition) ⊥ 2 1 full_queue
unfolding acts act dequeue read
room_comes = again (stop refl)

-- Where another thread pushes 7 at each wait, an empty queue gets a value in one wait.
value_comes :
    Ends (machine (Act.pushes 7)) (λ w. is_empty) (λ q. q.empty_condition) ⊥ 2 1 empty_queue
unfolding acts act enqueue write pushed
value_comes = again (stop refl)

values_go : Ends (machine Act.pops) (λ w. has_values) (λ q. q.full_condition) ⊥ 3 1 full_queue
unfolding acts act dequeue read
values_go = again (again (stop refl))

push-Pushed_example :
    Post ⊥
      (Passed (threads_of Act.pops) (Pushed (threads_of Act.pops) 7) full_queue)
      (push (machine Act.pops) 2 1 7 (state_of full_queue))
push-Pushed_example =
    push-Pushed (threads_of Act.pops) ⊥ 2 1 7 (state_of full_queue) (omega arith) (omega arith)
      full_queue-Ready refl room_comes

try_push-TriedPush_example :
    Post ⊥
      (Passed (threads_of Act.pops) (TriedPush (threads_of Act.pops) 7) full_queue)
      (try_push (machine Act.pops) 1 7 (state_of full_queue))
try_push-TriedPush_example =
    try_push-TriedPush (threads_of Act.pops) 1 7 (state_of full_queue) (omega arith) (omega arith)
      full_queue-Ready refl

pop-Popped_example :
    Post ⊥
      (Passed (threads_of (Act.pushes 7)) (Popped (threads_of (Act.pushes 7))) empty_queue)
      (pop (machine (Act.pushes 7)) 2 1 8 (state_of empty_queue))
pop-Popped_example =
    pop-Popped (threads_of (Act.pushes 7)) ⊥ 2 1 8 (state_of empty_queue) (omega arith)
      (omega arith) empty_queue-Ready refl value_comes

try_pop-TriedPop_example :
    Post ⊥
      (Passed (threads_of Act.pops) (TriedPop (threads_of Act.pops)) full_queue)
      (try_pop (machine Act.pops) 1 8 (state_of full_queue))
try_pop-TriedPop_example =
    try_pop-TriedPop (threads_of Act.pops) 1 8 (state_of full_queue) (omega arith) (omega arith)
      full_queue-Ready refl

empty-Emptied_example :
    Post ⊥
      (Passed (threads_of Act.pops) (Emptied (threads_of Act.pops)) full_queue)
      (empty (machine Act.pops) 3 1 (state_of full_queue))
empty-Emptied_example =
    empty-Emptied (threads_of Act.pops) ⊥ 3 1 (state_of full_queue) (omega arith) full_queue-Ready
      refl values_go

push_sorted-Sorted_example :
    Post ⊥
      (Passed (threads_of Act.pops) (Sorted (threads_of Act.pops) by_number true 7) full_queue)
      (push_sorted (machine Act.pops) 2 1 7 (some by_number) 1 (state_of full_queue))
push_sorted-Sorted_example =
    push_sorted-Sorted (threads_of Act.pops) ⊥ 2 1 7 by_number 1 (state_of full_queue) (omega arith)
      (omega arith) (omega arith) full_queue-Ready refl room_comes

-- One wait brings the full queue room, and one the empty queue a value; two take all values.
room_reached : Reaches (machine Act.pops) (λ w. is_full) (λ q. q.full_condition) 2 1 full_queue
unfolding acts act dequeue read
room_reached = (1, omega arith, refl)

value_reached :
    Reaches (machine (Act.pushes 7)) (λ w. is_empty) (λ q. q.empty_condition) 2 1 empty_queue
unfolding acts act enqueue write pushed
value_reached = (1, omega arith, refl)

empty_reached : Reaches (machine Act.pops) (λ w. has_values) (λ q. q.full_condition) 3 1 full_queue
unfolding acts act dequeue read
empty_reached = (2, omega arith, refl)

push_total_example :
    (t : State ℕ InternalQueue) × (push (machine Act.pops) 2 1 7 (state_of full_queue)
      ≡ done ((success, none), t))
    × IsFree t.world
    × ((q' : InternalQueue) × Others full_queue q' × Appended 7 q' t.object)
push_total_example =
    push_total (threads_of Act.pops) 2 1 7 (state_of full_queue) (omega arith) (omega arith)
      full_queue-Ready refl room_reached

pop_total_example :
    (v : Pointer) × (t : State ℕ InternalQueue) × (pop
        (machine (Act.pushes 7))
        2
        1
        8
        (state_of empty_queue)
      ≡ done ((success, some v), t))
    × IsFree t.world
    × ((q' : InternalQueue) × Others empty_queue q' × Taken v q' t.object)
pop_total_example =
    pop_total (threads_of (Act.pushes 7)) 2 1 8 (state_of empty_queue) (omega arith) (omega arith)
      empty_queue-Ready refl value_reached
