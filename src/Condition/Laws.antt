-- ===== src/Condition/Laws.antt =====
-- How the condition functions report what the POSIX functions answer.
use libcthreads.Common.{some, ◌≢◌, refl}
use libcthreads.Machine.{Pointer, null, Platform, State}
use libcthreads.Machine.Post.{Post}
use libcthreads.Machine.Answer.{Made, Answered}
use libcthreads.Handle.Laws.{Freed, make-Made, dispose-Freed, reported, on_handle_lem}
use libcthreads.Condition.{initialize, free, broadcast, signal, wait}

module _ {W Obj : Type 0} (p : Platform W Obj) where
  -- The test on an answer.
  -- libcthreads_condition_initialize, with `*condition` NULL: it returns 1 and leaves a structure in
  -- `*condition`, or it returns -1 and leaves NULL there; the shared object stays.
  pub condition_initialize-Made : (s : State W Obj) → Post ⊥ (Made s) (initialize p (some null) s)
  unfolding initialize
  condition_initialize-Made s = make-Made p _ p.pthread_cond_init s

  -- libcthreads_condition_free destroys the structure, then frees its memory and sets `*condition` to
  -- NULL also where destroying it fails: that only makes the result -1, with one error.
  pub condition_free-Freed :
      (c : Pointer) (s : State W Obj)
      → c ≢ null
      → Post ⊥ (Freed p p.pthread_cond_destroy c s) (free p (some c) s)
  unfolding free
  condition_free-Freed c s set = dispose-Freed p p.pthread_cond_destroy c s set

  -- libcthreads_condition_broadcast returns 1 if pthread_cond_broadcast returns 0, else -1 with one
  -- error, and leaves the shared object as it was.
  pub broadcast-Answered :
      (c : Pointer) (s : State W Obj)
      → c ≢ null
      → let (code, w) = p.pthread_cond_broadcast c s.world in
        Post ⊥ (Answered code w s.object s) (broadcast p c s)
  unfolding broadcast
  broadcast-Answered c s set =
      let answer = p.pthread_cond_broadcast c s.world in
      on_handle_lem p _ c _ s set (reported p answer.0 _ s (record s { world = answer.1 }) refl)

  -- libcthreads_condition_signal returns 1 if pthread_cond_signal returns 0, else -1 with one error,
  -- and leaves the shared object as it was.
  pub signal-Answered :
      (c : Pointer) (s : State W Obj)
      → c ≢ null
      → let (code, w) = p.pthread_cond_signal c s.world in
        Post ⊥ (Answered code w s.object s) (signal p c s)
  unfolding signal
  signal-Answered c s set =
      let answer = p.pthread_cond_signal c s.world in
      on_handle_lem p _ c _ s set (reported p answer.0 _ s (record s { world = answer.1 }) refl)

  -- libcthreads_condition_wait returns 1 if pthread_cond_wait returns 0, else -1 with one error, and
  -- leaves the world and the shared object as the wait does.
  pub wait-Answered :
      (c m : Pointer) (s : State W Obj)
      → c ≢ null
      → m ≢ null
      → let (code, w, q) = p.pthread_cond_wait c m s.world s.object in
        Post ⊥ (Answered code w q s) (wait p c m s)
  unfolding wait
  wait-Answered c m s c_set m_set =
      let answer = p.pthread_cond_wait c m s.world s.object in
      on_handle_lem p _ c _ s c_set (
        on_handle_lem p _ m _ s m_set
          (reported p answer.0 _ s (record s { world = answer.1; object = answer.2 }) refl))
