-- ===== src/Handles.antt =====
-- The functions of the four kinds of handle together: mutexes, conditions, locks and read/write
-- locks.
use libcthreads.Common.{◌≢◌, some}
use libcthreads.Machine.{Pointer, null, Platform, State, Structure}
use libcthreads.Machine.Post.{Post}
use libcthreads.Machine.Answer.{Answered}
use libcthreads.Handle.Laws.{Freed, Initialized, make-Initialized}
use libcthreads.Mutex
use libcthreads.Mutex.Laws.{mutex_free-Freed, grab-Answered, release-Answered, Tried, try_grab_lem}
use libcthreads.Condition
use libcthreads.Condition.Laws.{
  condition_free-Freed, broadcast-Answered, signal-Answered, wait-Answered,
}
use libcthreads.Lock
use libcthreads.Lock.Laws.{lock_free-Freed, lock_grab-Answered, lock_release-Answered}
use libcthreads.ReadWriteLock
use libcthreads.ReadWriteLock.Laws.{
  rwlock_free-Freed, grab_for_read-Answered, grab_for_write-Answered, release_for_read-Answered,
  release_for_write-Answered,
}

module _ {W Obj : Type 0} (p : Platform W Obj) where
  abbrev pub Initializes : State W Obj → Type 0
  Initializes s =
      Post ⊥ (Initialized p Structure.internal_mutex p.pthread_mutex_init s)
        (Mutex.initialize p (some null) s)
      × Post ⊥ (Initialized p Structure.internal_condition p.pthread_cond_init s)
          (Condition.initialize p (some null) s)
      × Post ⊥ (Initialized p Structure.internal_lock p.pthread_mutex_init s)
          (Lock.initialize p (some null) s)
      × Post ⊥ (Initialized p Structure.internal_read_write_lock p.pthread_rwlock_init s)
          (ReadWriteLock.initialize p (some null) s)

  -- The initialize function of a mutex, a condition, a lock and a read/write lock, with NULL in the
  -- location, asks for memory, clears it and calls the POSIX function, each where the step before went
  -- well: it returns 1 and leaves the structure in the location exactly where the POSIX function
  -- answers 0; else it frees the structure that it has, returns -1 with one error and leaves NULL.
  pub initialize-Initialized : (s : State W Obj) → Initializes s
  unfolding Mutex.initialize Condition.initialize Lock.initialize ReadWriteLock.initialize
  initialize-Initialized s = (
    make-Initialized p Structure.internal_mutex p.pthread_mutex_init s,
    make-Initialized p Structure.internal_condition p.pthread_cond_init s,
    make-Initialized p Structure.internal_lock p.pthread_mutex_init s,
    make-Initialized p Structure.internal_read_write_lock p.pthread_rwlock_init s,
  )

  abbrev pub Frees : Pointer → State W Obj → Type 0
  Frees h s =
      Post ⊥ (Freed p p.pthread_mutex_destroy h s) (Mutex.free p (some h) s)
      × Post ⊥ (Freed p p.pthread_cond_destroy h s) (Condition.free p (some h) s)
      × Post ⊥ (Freed p p.pthread_mutex_destroy h s) (Lock.free p (some h) s)
      × Post ⊥ (Freed p p.pthread_rwlock_destroy h s) (ReadWriteLock.free p (some h) s)

  -- The free function of a mutex, a condition, a lock and a read/write lock, on a handle that is set,
  -- destroys what is in the structure, then frees its memory and sets the handle to NULL also where
  -- destroying it fails: that only makes the result -1, with one error.
  pub free-Freed : (h : Pointer) (s : State W Obj) → h ≢ null → Frees h s
  free-Freed h s set = (
    mutex_free-Freed p h s set,
    condition_free-Freed p h s set,
    lock_free-Freed p h s set,
    rwlock_free-Freed p h s set,
  )

  abbrev pub Locks : Pointer → State W Obj → Type 0
  Locks l s =
      let (code, w, q) = p.pthread_mutex_lock l s.world s.object in
      let (read_code, read_w, read_q) = p.pthread_rwlock_rdlock l s.world s.object in
      let (write_code, write_w, write_q) = p.pthread_rwlock_wrlock l s.world s.object in
      let (unlock_code, unlock_w) = p.pthread_mutex_unlock l s.world in
      let (release_code, release_w) = p.pthread_rwlock_unlock l s.world in
      Post ⊥ (Answered code w q s) (Lock.grab p l s)
      × Post ⊥ (Answered unlock_code unlock_w s.object s) (Lock.release p l s)
      × Post ⊥ (Answered read_code read_w read_q s) (ReadWriteLock.grab_for_read p l s)
      × Post ⊥ (Answered write_code write_w write_q s) (ReadWriteLock.grab_for_write p l s)
      × Post ⊥ (Answered release_code release_w s.object s) (ReadWriteLock.release_for_read p l s)
      × Post ⊥ (Answered release_code release_w s.object s) (ReadWriteLock.release_for_write p l s)

  -- Grabbing and releasing a lock, and a read/write lock for reading and for writing, on a handle that
  -- is set, returns 1 if the POSIX function answers 0, else -1 with one error; a grab leaves the world
  -- and the shared object as the POSIX function does, a release leaves the object as it was.
  lock_result_lem : (l : Pointer) (s : State W Obj) → l ≢ null → Locks l s
  lock_result_lem l s set = (
    lock_grab-Answered p l s set,
    lock_release-Answered p l s set,
    grab_for_read-Answered p l s set,
    grab_for_write-Answered p l s set,
    release_for_read-Answered p l s set,
    release_for_write-Answered p l s set,
  )

  abbrev pub Signals : Pointer → Pointer → State W Obj → Type 0
  Signals c m s =
      let (code, w, q) = p.pthread_mutex_lock m s.world s.object in
      let (try_code, try_w) = p.pthread_mutex_trylock m s.world in
      let (unlock_code, unlock_w) = p.pthread_mutex_unlock m s.world in
      let (all_code, all_w) = p.pthread_cond_broadcast c s.world in
      let (one_code, one_w) = p.pthread_cond_signal c s.world in
      let (wait_code, wait_w, wait_q) = p.pthread_cond_wait c m s.world s.object in
      Post ⊥ (Answered code w q s) (Mutex.grab p m s)
      × Post ⊥ (Tried p try_code try_w s) (Mutex.try_grab p m s)
      × Post ⊥ (Answered unlock_code unlock_w s.object s) (Mutex.release p m s)
      × Post ⊥ (Answered all_code all_w s.object s) (Condition.broadcast p c s)
      × Post ⊥ (Answered one_code one_w s.object s) (Condition.signal p c s)
      × Post ⊥ (Answered wait_code wait_w wait_q s) (Condition.wait p c m s)

  -- The functions that grab and release a mutex, a lock or a read/write lock, and that broadcast on,
  -- signal or wait for a condition, on handles that are set, each return 1 if the POSIX function
  -- answers 0, else -1 with one error, and leave the world and the shared object as it does; try_grab,
  -- with EBUSY not 0, returns 0 with no error where the answer is EBUSY.
  pub calls-Answered :
      (c m l : Pointer) (s : State W Obj)
      → c ≢ null
      → m ≢ null
      → l ≢ null
      → p.ebusy ≢ 0
      → Signals c m s × Locks l s
  calls-Answered c m l s c_set m_set l_set busy = (
    (
      grab-Answered p m s m_set,
      try_grab_lem p m s m_set busy,
      release-Answered p m s m_set,
      broadcast-Answered p c s c_set,
      signal-Answered p c s c_set,
      wait-Answered p c m s c_set m_set,
    ),
    lock_result_lem l s l_set,
  )
