-- ===== src/Mutex/Laws.antt =====
-- How the mutex functions report what the POSIX functions answer.
use libcthreads.Common.{
  ℕ, ◌≡◌, ◌≢◌, ◌⊎◌, inl, inr, refl, some, sym, ◌∙◌, ◌==◌, arith, ℤ, Bool-cases,
}
use libcthreads.Machine.{Pointer, null, Platform, State, not_done}
use libcthreads.Machine.Post.{Post, Post-weaken}
use libcthreads.Machine.Answer.{Made, Answered, Answered-success}
use libcthreads.Handle.Laws.{Freed, make-Made, dispose-Freed, lock_result-Answered, on_handle_lem}
use libcthreads.Mutex.{initialize, free, grab, try_grab, release}

module _ {W Obj : Type 0} (p : Platform W Obj) where
  -- libcthreads_mutex_initialize, with `*mutex` NULL: it returns 1 and leaves a structure in
  -- `*mutex`, or it returns -1 and leaves NULL there; the shared object stays.
  pub mutex_initialize-Made : (s : State W Obj) → Post ⊥ (Made s) (initialize p (some null) s)
  unfolding initialize
  mutex_initialize-Made s = make-Made p _ p.pthread_mutex_init s

  -- libcthreads_mutex_free destroys the structure, then frees its memory and sets `*mutex` to NULL
  -- also where destroying it fails: that only makes the result -1, with one error.
  pub mutex_free-Freed :
      (m : Pointer) (s : State W Obj)
      → m ≢ null
      → Post ⊥ (Freed p p.pthread_mutex_destroy m s) (free p (some m) s)
  unfolding free
  mutex_free-Freed m s set = dispose-Freed p p.pthread_mutex_destroy m s set

  -- libcthreads_mutex_grab returns 1 if pthread_mutex_lock returns 0, else -1 with one error, and
  -- leaves the world and the shared object as the lock does.
  pub grab-Answered :
      (m : Pointer) (s : State W Obj)
      → m ≢ null
      → let (code, w, q) = p.pthread_mutex_lock m s.world s.object in
        Post ⊥ (Answered code w q s) (grab p m s)
  unfolding grab
  grab-Answered m s set =
      let answer = p.pthread_mutex_lock m s.world s.object in
      on_handle_lem p _ m _ s set
        (lock_result-Answered p answer.0 s (record s { world = answer.1; object = answer.2 }) refl)

  -- libcthreads_mutex_release returns 1 if pthread_mutex_unlock returns 0, else -1 with one error,
  -- and leaves the shared object as it was.
  pub release-Answered :
      (m : Pointer) (s : State W Obj)
      → m ≢ null
      → let (code, w) = p.pthread_mutex_unlock m s.world in
        Post ⊥ (Answered code w s.object s) (release p m s)
  unfolding release
  release-Answered m s set =
      let answer = p.pthread_mutex_unlock m s.world in
      on_handle_lem p _ m _ s set
        (lock_result-Answered p answer.0 s (record s { world = answer.1 }) refl)

  -- What a try to grab does with an answer of pthread_mutex_trylock.
  abbrev pub Tried : ℕ → W → State W Obj → ℤ → State W Obj → Type 0
  Tried code w s r t =
      ((code ≡ p.ebusy) × (r ≡ not_done) × (t ≡ record s { world = w }))
      ⊎ ((code ≢ p.ebusy) × Answered code w s.object s r t)

  -- libcthreads_mutex_try_grab returns 0 with no error if pthread_mutex_trylock answers that the
  -- mutex is busy; else it reports the answer as a grab does. EBUSY is not 0.
  pub try_grab_lem :
      (m : Pointer) (s : State W Obj)
      → m ≢ null
      → p.ebusy ≢ 0
      → let (code, w) = p.pthread_mutex_trylock m s.world in
        Post ⊥ (Tried code w s) (try_grab p m s)
  unfolding try_grab
  try_grab_lem m s set busy =
      let answer = p.pthread_mutex_trylock m s.world in
      let t : State W Obj = record s { world = answer.1 } in
      on_handle_lem p _ m _ s set (elim (Bool-cases (answer.0 == 0)) [
        | inl z ↦
            rw z (inr ((λ e. busy (sym e ∙ ground arith)), Answered-success answer.0 s t z refl))
        | inr nz ↦ rw nz (elim (Bool-cases (answer.0 == p.ebusy)) [
          | inl y ↦ rw y (inl (ground arith, refl, refl))
          | inr n ↦ rw n (
              Post-weaken ⊥ _ (Tried answer.0 answer.1 s) _
                (lock_result-Answered p answer.0 s t refl) λ r u h. inr (ground arith, h))
        ])
      ])
