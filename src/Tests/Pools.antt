-- ===== src/Tests/Pools.antt =====
-- Thread pools, on a machine on which nothing fails; the system is 1 while the caller has the mutex.
use libcthreads.Common.{ℕ, ◌≡◌, refl, arith, inl, some, [], ◌∷◌, ℤ}
use libcthreads.Machine.{Pointer, Platform, State, M, success, return}
use libcthreads.Machine.Post.{Post}
use libcthreads.Queue.{InternalQueue}
use libcthreads.Queue.Others.{Others-refl}
use libcthreads.Queue.Environment.{Threads, stop}
use libcthreads.Queue.Results.{Passed}
use libcthreads.Pool.{Members, PoolWorld}
use libcthreads.Pool.Calls.{pop}
use libcthreads.Pool.Pop.{PoolPopped, pool_pop-PoolPopped}
use libcthreads.Pool.Lifetime.{join}
use libcthreads.Pool.Drain.{Steady}
use libcthreads.Pool.Join.{Ended, join-Ended}
use libcthreads.Tests.{roomy_queue, roomy_queue-Ready, empty_queue, empty_queue-Ready}
use libcthreads.Tests.Machines.{plain}

abbrev pub put_system : ℕ → PoolWorld ℕ → PoolWorld ℕ
put_system n w = record w { system = n }

abbrev pub machine : Platform (PoolWorld ℕ) InternalQueue
machine = plain (put_system 1) (put_system 0)

abbrev pub IsFree : PoolWorld ℕ → Type 0
IsFree w = w.system ≡ 0

abbrev pub IsHeld : PoolWorld ℕ → Type 0
IsHeld w = w.system ≡ 1

pub threads : Threads machine IsFree IsHeld ⊥
threads = record {
  lock_held = λ m w q free. inl (refl, refl);
  lock_others = λ m w q. Others-refl q;
  wait_held = λ c m w q held. (held, inl refl);
  wait_others = λ c m w q. Others-refl q;
  broadcast_held = λ c w held. (held, inl refl);
  unlock_free = λ m w held. (refl, inl refl);
}

steady : Steady machine IsHeld
steady = record {
  lock_members = λ m w q. refl;
  wait_members = λ c m w q. refl;
  broadcast_members = λ c w. refl;
  unlock_members = λ m w. refl;
  exit_held = λ w held. held;
}

-- A pool of two threads.
abbrev pub two_threads : Members
two_threads = record {
  number_of_threads = 2;
  threads_array = some (7 ∷ 8 ∷ []);
  callback_function = 20;
  callback_function_arguments = 30;
  status = 0;
}

abbrev state_of : InternalQueue → State (PoolWorld ℕ) InternalQueue
state_of q = record {
  world = record { system = 0; members = two_threads };
  object = q;
  errors = [];
}

-- The callback function returns 1.
abbrev pub run : Pointer → Pointer → Pointer → M (PoolWorld ℕ) InternalQueue ℤ
run f value a = return success

pool_pop-PoolPopped_example :
    Post ⊥
      (Passed threads (PoolPopped threads) roomy_queue)
      (pop machine 1 100 (state_of roomy_queue))
pool_pop-PoolPopped_example =
    pool_pop-PoolPopped threads ⊥ 1 100 (state_of roomy_queue) (omega arith) roomy_queue-Ready refl
      (stop refl)

join-Ended_example :
    Post ⊥
      (Ended threads steady (7 ∷ 8 ∷ []) 500 600 100 (state_of empty_queue))
      (join machine 1 500 600 (some 100) (state_of empty_queue))
join-Ended_example =
    join-Ended threads steady (7 ∷ 8 ∷ []) 500 600 ⊥ 1 100 (state_of empty_queue) (omega arith)
      (omega arith) (λ id w q array handles. (array, handles)) (refl, refl) empty_queue-Ready refl
      (stop refl)
