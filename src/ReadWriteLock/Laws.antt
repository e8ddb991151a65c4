-- ===== src/ReadWriteLock/Laws.antt =====
-- How the functions on a read/write lock report what the POSIX functions answer.
use libcthreads.Common.{ℕ, ◌≡◌, ◌≢◌, inl, inr, refl, some, ◌==◌, Bool-cases}
use libcthreads.Machine.{Pointer, null, Platform, State}
use libcthreads.Machine.Post.{Post}
use libcthreads.Machine.Answer.{Made, Answered, Answered-success, Answered-failure}
use libcthreads.Handle.Laws.{
  Freed, make-Made, dispose-Freed, lock_result-Answered, reported, on_handle_lem,
}
use libcthreads.ReadWriteLock.{
  initialize, free, grab_for_read, write_result, grab_for_write, release_for_read,
  release_for_write,
}

module _ {W Obj : Type 0} (p : Platform W Obj) where
  pub rwlock_initialize-Made : (s : State W Obj) → Post ⊥ (Made s) (initialize p (some null) s)
  unfolding initialize
  rwlock_initialize-Made s = make-Made p _ p.pthread_rwlock_init s

  pub rwlock_free-Freed :
      (l : Pointer) (s : State W Obj)
      → l ≢ null
      → Post ⊥ (Freed p p.pthread_rwlock_destroy l s) (free p (some l) s)
  unfolding free
  rwlock_free-Freed l s set = dispose-Freed p p.pthread_rwlock_destroy l s set

  -- libcthreads_read_write_lock_grab_for_read returns 1 if pthread_rwlock_rdlock answers 0, else -1
  -- with one error, and leaves the world and the shared object as the lock does.
  pub grab_for_read-Answered :
      (l : Pointer) (s : State W Obj)
      → l ≢ null
      → let (code, w, q) = p.pthread_rwlock_rdlock l s.world s.object in
        Post ⊥ (Answered code w q s) (grab_for_read p l s)
  unfolding grab_for_read
  grab_for_read-Answered l s set =
      let answer = p.pthread_rwlock_rdlock l s.world s.object in
      on_handle_lem p _ l _ s set
        (lock_result-Answered p answer.0 s (record s { world = answer.1; object = answer.2 }) refl)

  write_result-Answered :
      (code : ℕ) (s t : State W Obj)
      → t.errors ≡ s.errors
      → Post ⊥ (Answered code t.world t.object s) (write_result p code t)
  unfolding write_result
  write_result-Answered code s t same = elim (Bool-cases (code == 0)) [
    | inl z ↦ rw z (Answered-success code s t z same)
    | inr nz ↦ rw nz (elim (Bool-cases (code == p.edeadlk)) [
      | inl y ↦ rw y (Answered-failure code s t _ nz same)
      | inr n ↦ rw n (Answered-failure code s t _ nz same)
    ])
  ]

  pub grab_for_write-Answered :
      (l : Pointer) (s : State W Obj)
      → l ≢ null
      → let (code, w, q) = p.pthread_rwlock_wrlock l s.world s.object in
        Post ⊥ (Answered code w q s) (grab_for_write p l s)
  unfolding grab_for_write
  grab_for_write-Answered l s set =
      let answer = p.pthread_rwlock_wrlock l s.world s.object in
      on_handle_lem p _ l _ s set
        (write_result-Answered answer.0 s (record s { world = answer.1; object = answer.2 }) refl)

  pub release_for_read-Answered :
      (l : Pointer) (s : State W Obj)
      → l ≢ null
      → let (code, w) = p.pthread_rwlock_unlock l s.world in
        Post ⊥ (Answered code w s.object s) (release_for_read p l s)
  unfolding release_for_read
  release_for_read-Answered l s set =
      let answer = p.pthread_rwlock_unlock l s.world in
      on_handle_lem p _ l _ s set (reported p answer.0 _ s (record s { world = answer.1 }) refl)

  pub release_for_write-Answered :
      (l : Pointer) (s : State W Obj)
      → l ≢ null
      → let (code, w) = p.pthread_rwlock_unlock l s.world in
        Post ⊥ (Answered code w s.object s) (release_for_write p l s)
  unfolding release_for_write
  release_for_write-Answered l s set =
      let answer = p.pthread_rwlock_unlock l s.world in
      on_handle_lem p _ l _ s set (reported p answer.0 _ s (record s { world = answer.1 }) refl)
