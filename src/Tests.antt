-- ===== src/Tests.antt =====
-- A machine and a queue on which the theorems are applied: W counts who holds the mutex, 0 for
-- nobody and 1 for the caller, and each wait lets another thread do one act.
mod Handles
mod Values
mod Calls
mod Refusals
mod Machines
mod Workers
mod Repeating
mod Pools
mod Drained
mod Bytes
mod Systems
mod Waiting
mod Views
use libcthreads.Common.{
  ℕ, ◌+◌, ◌≡◌, refl, arith, inl, ℤ, pos, some, [], ◌∷◌, ltb, ◌==◌, if◌then◌else◌,
}
use libcthreads.Machine.{Pointer, Platform, State, Structure}
use libcthreads.Queue.{InternalQueue}
use libcthreads.Queue.Ring.{Compare, compare_less, compare_equal, compare_greater}
use libcthreads.Queue.Others.{Act, act, acts, Others-refl}
use libcthreads.Queue.Environment.{Threads}
use libcthreads.Queue.Steps.{Ready}

abbrev pub machine : Act → Platform ℕ InternalQueue
machine a = record {
  eagain = 11;
  ebusy = 16;
  edeadlk = 35;
  sizeof = λ structure. 64;
  memory_allocate = λ size w. (size + 4096, w);
  memory_set = λ address size w. (address, w);
  memory_free = λ address w. w;
  pthread_mutex_init = λ m w. (0, w);
  pthread_mutex_destroy = λ m w. (0, w);
  pthread_mutex_lock = λ m w q. (0, 1, q);
  pthread_mutex_trylock = λ m w. (16, w);
  pthread_mutex_unlock = λ m w. (0, 0);
  pthread_rwlock_init = λ l w. (0, w);
  pthread_rwlock_destroy = λ l w. (0, w);
  pthread_rwlock_rdlock = λ l w q. (0, 1, q);
  pthread_rwlock_wrlock = λ l w q. (35, w, q);
  pthread_rwlock_unlock = λ l w. (0, 0);
  pthread_create = λ attributes argument w. ((0, argument), w);
  pthread_join = λ thread w q. ((0, some (512, pos 1)), w, q);
  pthread_cond_init = λ c w. (0, w);
  pthread_cond_destroy = λ c w. (0, w);
  pthread_cond_broadcast = λ c w. (0, w);
  pthread_cond_signal = λ c w. (22, w);
  pthread_cond_wait = λ c m w q. (0, w, acts q (a ∷ []));
}

abbrev pub IsFree : ℕ → Type 0
IsFree w = w ≡ 0

abbrev pub IsHeld : ℕ → Type 0
IsHeld w = w ≡ 1

pub threads_of : (a : Act) → Threads (machine a) IsFree IsHeld ⊥
threads_of a = record {
  lock_held = λ m w q free. inl (refl, refl);
  lock_others = λ m w q. Others-refl q;
  wait_held = λ c m w q held. (held, inl refl);
  wait_others = λ c m w q. (a ∷ [], refl);
  broadcast_held = λ c w held. (held, inl refl);
  unlock_free = λ m w held. (refl, inl refl);
}

-- A queue with room for two values that holds 5 and 9, and wraps around.
abbrev pub full_queue : InternalQueue
full_queue = record {
  pop_index = 1;
  push_index = 1;
  number_of_values = 2;
  allocated_number_of_values = 2;
  values_array = some (9 ∷ 5 ∷ []);
  condition_mutex = 100;
  empty_condition = 200;
  full_condition = 300;
}

-- The same with room for three, two taken.
abbrev pub roomy_queue : InternalQueue
roomy_queue = record full_queue {
  push_index = 0;
  pop_index = 1;
  allocated_number_of_values = 3;
  values_array = some (0 ∷ 5 ∷ 9 ∷ []);
}

abbrev pub empty_queue : InternalQueue
empty_queue = record full_queue { number_of_values = 0 }

abbrev pub state_of : InternalQueue → State ℕ InternalQueue
state_of q = record { world = 0; object = q; errors = [] }

-- Values compared by their numbers.
abbrev pub by_number : Compare
by_number a b = if ltb a b then compare_less else if a == b then compare_equal else compare_greater

pub full_queue-Ready : Ready full_queue
full_queue-Ready = record {
  valid = record {
    array = refl;
    allocated = refl;
    counted = omega arith;
    pop_in = omega arith;
    push_at = refl;
  };
  handles = record { mutex = omega arith; empty = omega arith; full = omega arith };
}

pub roomy_queue-Ready : Ready roomy_queue
roomy_queue-Ready = record {
  valid = record {
    array = refl;
    allocated = refl;
    counted = omega arith;
    pop_in = omega arith;
    push_at = refl;
  };
  handles = record { mutex = omega arith; empty = omega arith; full = omega arith };
}

pub empty_queue-Ready : Ready empty_queue
empty_queue-Ready = record {
  valid = record {
    array = refl;
    allocated = refl;
    counted = omega arith;
    pop_in = omega arith;
    push_at = refl;
  };
  handles = record { mutex = omega arith; empty = omega arith; full = omega arith };
}
