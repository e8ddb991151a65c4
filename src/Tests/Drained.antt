-- ===== src/Tests/Drained.antt =====
-- The loop of a thread of a pool that is told to exit with one value left.
use libcthreads.Common.{
  ℕ, zero, suc, ◌≡◌, ◌≢◌, refl, sym, ap, subst, ◌∙◌, arith, none, some, [], ◌∷◌, ℤ, pos, negsuc,
}
use libcthreads.Machine.{Pointer, State, Exec, success, not_done}
use libcthreads.Machine.Exec.{done, fault, waiting}
use libcthreads.Machine.Post.{Post}
use libcthreads.Handle.{lock_result, on_handle}
use libcthreads.Mutex
use libcthreads.Condition
use libcthreads.Queue.{InternalQueue}
use libcthreads.Queue.Ring.{dequeue, read}
use libcthreads.Queue.Calls.{Reply, finish, announce, wait_while, locked, waited, checked, take}
use libcthreads.Pool.{PoolWorld, status_exit}
use libcthreads.Pool.Calls.{lacks_work, take_value, pop, work}
use libcthreads.Pool.Work.{called, Worked, work-Worked}
use libcthreads.Queue.Steps.{Ready}
use libcthreads.Queue.Others.{Others-refl}
use libcthreads.Queue.Environment.{Ends, stop}
use libcthreads.Tests.Pools.{machine, two_threads, put_system, threads, run}

abbrev one_value : InternalQueue
one_value = record {
  pop_index = 1;
  push_index = 0;
  number_of_values = 1;
  allocated_number_of_values = 2;
  values_array = some (9 ∷ 5 ∷ []);
  condition_mutex = 100;
  empty_condition = 200;
  full_condition = 300;
}

abbrev start : State (PoolWorld ℕ) InternalQueue
start = record {
  world = record { system = 0; members = record two_threads { status = 1 } };
  object = one_value;
  errors = [];
}

abbrev left : State (PoolWorld ℕ) InternalQueue
left = record start { object = record one_value { pop_index = 0; number_of_values = 0 } }

pop-start : pop machine 1 100 start ≡ done ((success, some 5), left)
unfolding pop take_value checked locked waited wait_while take announce finish dequeue read
    Mutex.grab Mutex.release Condition.broadcast lock_result on_handle
pop-start = refl

pop-left : pop machine 1 100 left ≡ done ((not_done, none), left)
unfolding pop take_value checked locked waited wait_while take announce finish dequeue read
    Mutex.grab Mutex.release Condition.broadcast lock_result on_handle
pop-left = refl

-- The loop has enough with two rounds from `start`, and with one from `left`.
abbrev Enough : ℕ → State (PoolWorld ℕ) InternalQueue → Type 0
Enough zero s = ⊥
Enough (suc zero) s = s ≡ left
Enough (suc (suc zero)) s = s ≡ start
Enough (suc (suc (suc n))) s = ⊥

-- The state in which a call ends.
abbrev state_in :
    {A : Type 0} → Exec (A × State (PoolWorld ℕ) InternalQueue) → State (PoolWorld ℕ) InternalQueue
state_in (done (a, t)) = t
state_in fault = start
state_in waiting = start

abbrev result_in : Exec (Reply × State (PoolWorld ℕ) InternalQueue) → ℤ
result_in (done (r, t)) = r.0
result_in fault = success
result_in waiting = success

abbrev number_of : ℤ → ℕ
number_of (pos n) = n
number_of (negsuc n) = 0

success_is_not_done : success ≢ not_done
success_is_not_done e = let h : 1 ≡ 0 = ap number_of e in omega (arith, h)

one_value-Ready : Ready one_value
one_value-Ready = record {
  valid = record {
    array = refl;
    allocated = refl;
    counted = omega arith;
    pop_in = omega arith;
    push_at = refl;
  };
  handles = record { mutex = omega arith; empty = omega arith; full = omega arith };
}

Enough-Ends :
    (n : ℕ) (s : State (PoolWorld ℕ) InternalQueue)
    → Enough (suc n) s
    → Ends machine lacks_work (λ q. q.empty_condition) ⊥ 1 (put_system 1 s.world) s.object
Enough-Ends zero s e =
    subst
      (λ (s : State (PoolWorld ℕ) InternalQueue).
        Ends machine lacks_work (λ q. q.empty_condition) ⊥ 1 (put_system 1 s.world) s.object)
      (sym e) (stop refl)
Enough-Ends (suc zero) s e =
    subst
      (λ (s : State (PoolWorld ℕ) InternalQueue).
        Ends machine lacks_work (λ q. q.empty_condition) ⊥ 1 (put_system 1 s.world) s.object)
      (sym e) (stop refl)
Enough-Ends (suc (suc n)) s e = absurd e

Enough-value :
    (n : ℕ) (v : Pointer) (c : ℤ) (s t u : State (PoolWorld ℕ) InternalQueue)
    → Enough (suc n) s
    → pop machine 1 100 s ≡ done ((success, some v), t)
    → called threads run (λ v. success) v t ≡ done (c, u)
    → Enough n u
Enough-value zero v c s t u e popped ran = success_is_not_done (
    sym (ap result_in popped) ∙ ap (λ s. result_in (pop machine 1 100 s)) e ∙ ap result_in pop-left)
Enough-value (suc zero) v c s t u e popped ran =
    sym (ap state_in ran)
    ∙ sym (ap state_in popped)
    ∙ ap (λ s. state_in (pop machine 1 100 s)) e
    ∙ ap state_in pop-start
Enough-value (suc (suc n)) v c s t u e popped ran = absurd e

Enough-nothing :
    (n : ℕ) (s t : State (PoolWorld ℕ) InternalQueue)
    → Enough (suc n) s
    → pop machine 1 100 s ≡ done ((not_done, none), t)
    → t.world.members.status ≢ status_exit
    → Enough n t
Enough-nothing zero s t e popped stays = absurd (
    stays (
      ap (λ (s : State (PoolWorld ℕ) InternalQueue). s.world.members.status)
        (sym (ap state_in popped)
          ∙ ap (λ s. state_in (pop machine 1 100 s)) e
          ∙ ap state_in pop-left)))
Enough-nothing (suc zero) s t e popped stays =
    sym (ap state_in popped) ∙ ap (λ s. state_in (pop machine 1 100 s)) e ∙ ap state_in pop-start
Enough-nothing (suc (suc n)) s t e popped stays = absurd e

work-Worked_example :
    Post ⊥
      (Worked threads run (λ v. success) 1 100 success start)
      (work machine run 2 1 100 success start)
work-Worked_example =
    work-Worked threads run (λ v. success) ⊥ Enough 2 1 100 success start
      (λ v s free. (refl, Others-refl s.object, free))
      (record {
        used_up = λ s e. e;
        pop_ends = Enough-Ends;
        after_value = Enough-value;
        after_nothing = Enough-nothing;
      })
      (omega arith) one_value-Ready refl refl
