-- ===== src/Lock/Laws.antt =====
-- How the functions on a lock report what the POSIX functions answer.
use libcthreads.Common.{◌≢◌, refl, some}
use libcthreads.Machine.{Pointer, null, Platform, State}
use libcthreads.Machine.Post.{Post}
use libcthreads.Machine.Answer.{Made, Answered}
use libcthreads.Handle.Laws.{Freed, make-Made, dispose-Freed, lock_result-Answered, on_handle_lem}
use libcthreads.Lock.{initialize, free, grab, release}

module _ {W Obj : Type 0} (p : Platform W Obj) where
  pub lock_initialize-Made : (s : State W Obj) → Post ⊥ (Made s) (initialize p (some null) s)
  unfolding initialize
  lock_initialize-Made s = make-Made p _ p.pthread_mutex_init s

  pub lock_free-Freed :
      (l : Pointer) (s : State W Obj)
      → l ≢ null
      → Post ⊥ (Freed p p.pthread_mutex_destroy l s) (free p (some l) s)
  unfolding free
  lock_free-Freed l s set = dispose-Freed p p.pthread_mutex_destroy l s set

  pub lock_grab-Answered :
      (l : Pointer) (s : State W Obj)
      → l ≢ null
      → let (code, w, q) = p.pthread_mutex_lock l s.world s.object in
        Post ⊥ (Answered code w q s) (grab p l s)
  unfolding grab
  lock_grab-Answered l s set =
      let answer = p.pthread_mutex_lock l s.world s.object in
      on_handle_lem p _ l _ s set
        (lock_result-Answered p answer.0 s (record s { world = answer.1; object = answer.2 }) refl)

  pub lock_release-Answered :
      (l : Pointer) (s : State W Obj)
      → l ≢ null
      → let (code, w) = p.pthread_mutex_unlock l s.world in
        Post ⊥ (Answered code w s.object s) (release p l s)
  unfolding release
  lock_release-Answered l s set =
      let answer = p.pthread_mutex_unlock l s.world in
      on_handle_lem p _ l _ s set
        (lock_result-Answered p answer.0 s (record s { world = answer.1 }) refl)
