-- ===== src/Tests/Machines.antt =====
-- A machine on which nothing fails: `lock` and `unlock` say what becomes of the world.
use libcthreads.Common.{◌+◌, some, pos}
use libcthreads.Machine.{Platform}

abbrev pub plain : {W Obj : Type 0} → (W → W) → (W → W) → Platform W Obj
plain lock unlock = record {
  eagain = 11;
  ebusy = 16;
  edeadlk = 35;
  sizeof = λ structure. 64;
  memory_allocate = λ size w. (size + 4096, w);
  memory_set = λ address size w. (address, w);
  memory_free = λ address w. w;
  pthread_mutex_init = λ m w. (0, w);
  pthread_mutex_destroy = λ m w. (0, w);
  pthread_mutex_lock = λ m w q. (0, lock w, q);
  pthread_mutex_trylock = λ m w. (16, w);
  pthread_mutex_unlock = λ m w. (0, unlock w);
  pthread_rwlock_init = λ l w. (0, w);
  pthread_rwlock_destroy = λ l w. (0, w);
  pthread_rwlock_rdlock = λ l w q. (0, lock w, q);
  pthread_rwlock_wrlock = λ l w q. (0, lock w, q);
  pthread_rwlock_unlock = λ l w. (0, unlock w);
  pthread_create = λ attributes argument w. ((0, argument), w);
  pthread_join = λ thread w q. ((0, some (512, pos 1)), w, q);
  pthread_cond_init = λ c w. (0, w);
  pthread_cond_destroy = λ c w. (0, w);
  pthread_cond_broadcast = λ c w. (0, w);
  pthread_cond_signal = λ c w. (0, w);
  pthread_cond_wait = λ c m w q. (0, w, q);
}
