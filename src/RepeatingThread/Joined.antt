-- ===== src/RepeatingThread/Joined.antt =====
-- libcthreads_repeating_thread_join: what it leaves.
use libcthreads.Common.{
  ℕ, ◌≡◌, ◌≢◌, ◌⊎◌, inl, inr, refl, sym, ap, subst, subst₂, ◌∙◌, false, Option, some, ℤ, ◌==◌,
  arith, Bool-cases,
}
use libcthreads.Machine.{Pointer, null, Platform, State, success, failure}
use libcthreads.Machine.Post.{Post, Post-bind, Post-weaken}
use libcthreads.Machine.Answer.{Answered}
use libcthreads.Mutex
use libcthreads.Mutex.Laws.{grab-Answered, mutex_free-Freed}
use libcthreads.Condition
use libcthreads.Condition.Laws.{signal-Answered, condition_free-Freed}
use libcthreads.Handle.Members.{
  result_of, removed, HandleFreed, free_handle, release_memory, free_handle_lem, after_handle,
}
use libcthreads.Joining.{join_result, joined, join_result_lem}
use libcthreads.Pool.{status_exit}
use libcthreads.Pool.Lifetime.{error_code_of}
use libcthreads.RepeatingThread.{InternalRepeatingThread}
use libcthreads.RepeatingThread.Lifetime.{
  put_condition_mutex, put_status_condition, dismantle, finish, join,
}
use libcthreads.RepeatingThread.Serves.{HasHandles}
use libcthreads.RepeatingThread.Laws.{Unlocked, unlock_lem}

abbrev pub exiting : InternalRepeatingThread → InternalRepeatingThread
exiting t = record t { status = status_exit }

module _ {W : Type 0} (p : Platform W InternalRepeatingThread) where
  -- A join that has taken the thread apart, from the structure `t` and the world `w`.
  abbrev pub Dismantled :
      Pointer
      → InternalRepeatingThread
      → W
      → ℤ × Option Pointer
      → State W InternalRepeatingThread
      → Type 0
  Dismantled a t w r u =
      let ((code, value), w', q) = p.pthread_join t.thread w t in
      let (condition_ok, w'') = removed p p.pthread_cond_destroy q.status_condition w' in
      let (mutex_ok, w''') = removed p p.pthread_mutex_destroy q.condition_mutex w'' in
      (r ≡ (result_of mutex_ok (result_of condition_ok (joined code value success)), some null))
      × (u.world ≡ p.memory_free a w''')

  dismantle_lem :
      (a : Pointer) (s : State W InternalRepeatingThread)
      → p.edeadlk ≢ 0
      → HasHandles (p.pthread_join s.object.thread s.world s.object).2
      → Post ⊥ (Dismantled a s.object s.world) (dismantle p a s)
  unfolding dismantle release_memory
  dismantle_lem a s deadlock (mutex, condition) =
      let Q = Dismantled a s.object s.world in
      let destroy = p.pthread_cond_destroy in
      let answer = p.pthread_join s.object.thread s.world s.object in
      let code = answer.0.0 in
      let value = answer.0.1 in
      let s1 : State W InternalRepeatingThread = record s { world = answer.1; object = answer.2 } in
      Post-bind ⊥ _ Q (join_result p (error_code_of success) code value success s1) _
        (join_result_lem p (error_code_of success) code value success s1 deadlock)
        λ r t (same, world, object).
          let c_same = ap (λ (o : InternalRepeatingThread). o.status_condition) object in
          Post-bind ⊥ (HandleFreed p destroy t.object.status_condition put_status_condition r t) Q
            (free_handle p (Condition.free p) (λ t. t.status_condition) put_status_condition r t) _
            (free_handle_lem p destroy (Condition.free p) (λ t. t.status_condition)
              put_status_condition r t
              (condition_free-Freed p t.object.status_condition t
                (subst (λ a. a ≢ null) (sym c_same) condition)))
            λ r2 t2 (same2, world2, result2).
              let m_same =
                ap (λ (o : InternalRepeatingThread). o.condition_mutex) same2
                ∙ ap (λ (o : InternalRepeatingThread). o.condition_mutex) object in
              Post-bind ⊥
                (HandleFreed p p.pthread_mutex_destroy t2.object.condition_mutex put_condition_mutex
                  r2 t2)
                Q (free_handle p (Mutex.free p) (λ t. t.condition_mutex) put_condition_mutex r2 t2)
                _
                (free_handle_lem p p.pthread_mutex_destroy (Mutex.free p) (λ t. t.condition_mutex)
                  put_condition_mutex r2 t2
                  (mutex_free-Freed p t2.object.condition_mutex t2
                    (subst (λ a. a ≢ null) (sym m_same) mutex)))
                λ r3 t3 (same3, world3, result3).
                  let (w2, a2) =
                    after_handle p destroy _ _ _ _ r r2 t2.world c_same world world2 result2 in
                  let (w3, a3) =
                    after_handle p p.pthread_mutex_destroy _ _ _ _ r2 r3 t3.world m_same w2 world3
                      result3 in
                  (
                    ap (λ (x : ℤ). (x, some null))
                        (a3 ∙ ap (result_of _) (a2 ∙ ap (result_of _) same)),
                    ap (p.memory_free a) w3,
                  )

  -- What follows the grab, from the structure `t` and the world `w`: a failing call has stopped it, or
  -- the thread is taken apart.
  abbrev Finished :
      Pointer
      → InternalRepeatingThread
      → W
      → ℤ × Option Pointer
      → State W InternalRepeatingThread
      → Type 0
  Finished a t w r u =
      let (signalled, w') = p.pthread_cond_signal t.status_condition w in
      let (released, w'') = p.pthread_mutex_unlock t.condition_mutex w' in
      (((signalled ≢ 0) ⊎ (released ≢ 0)) × (r ≡ (failure, some null)) × (u.world ≡ w''))
      ⊎ ((signalled ≡ 0) × (released ≡ 0) × Dismantled a (exiting t) w'' r u)

  finish_lem :
      (a : Pointer) (s : State W InternalRepeatingThread)
      → p.edeadlk ≢ 0
      → HasHandles s.object
      → ((t : InternalRepeatingThread) (w : W)
          → HasHandles t
          → HasHandles (p.pthread_join t.thread w t).2)
      → Post ⊥ (Finished a s.object s.world) (finish p a s)
  unfolding finish
  finish_lem a s deadlock (mutex, condition) stays =
      let m = s.object.condition_mutex in
      let c = s.object.status_condition in
      let Q = Finished a s.object s.world in
      let s1 : State W InternalRepeatingThread = record s { object = exiting s.object } in
      let (signalled, w) = p.pthread_cond_signal c s.world in
      Post-bind ⊥ (Answered signalled w s1.object s1) Q (Condition.signal p c s1) _
        (signal-Answered p c s1 condition)
        λ r t h. elim h.result [
          | inr (nz, e, same) ↦ rw e (
              Post-bind ⊥ (Unlocked p m t) Q (Mutex.release p m (record t { errors = _ })) _
                (unlock_lem p m (record t { errors = _ }) mutex)
                λ r' u (object, world, side).
                  let world' = world ∙ ap (λ x. (p.pthread_mutex_unlock m x).1) h.world in
                  elim (Bool-cases ((p.pthread_mutex_unlock m t.world).0 == 0)) [
                    | inl ok ↦
                        rw (side ∙ ap (λ b. result_of b success) ok) (inl (inl nz, refl, world'))
                    | inr bad ↦
                        rw (side ∙ ap (λ b. result_of b success) bad) (inl (inl nz, refl, world'))
                  ])
          | inl (z, e, same) ↦ rw e (
              Post-bind ⊥ (Unlocked p m t) Q (Mutex.release p m t) _ (unlock_lem p m t mutex)
                λ r' u (object, world, side).
                  let world' = world ∙ ap (λ x. (p.pthread_mutex_unlock m x).1) h.world in
                  let code = ap (λ x. (p.pthread_mutex_unlock m x).0) h.world in
                  elim (Bool-cases ((p.pthread_mutex_unlock m t.world).0 == 0)) [
                    | inl ok ↦ rw (side ∙ ap (λ b. result_of b success) ok) (
                        Post-weaken ⊥ (Dismantled a u.object u.world) Q (dismantle p a u)
                          (dismantle_lem a u deadlock (
                            stays u.object u.world
                              (subst HasHandles (sym (object ∙ h.object)) (mutex, condition))))
                          λ r'' v end. inr (
                            z,
                            sym code ∙ ground (arith, ok),
                            subst₂ (λ o x. Dismantled a o x r'' v) (object ∙ h.object) world' end,
                          ))
                    | inr bad ↦ rw (side ∙ ap (λ b. result_of b success) bad) (
                        inl (
                          inr (λ y.
                              absurd
                                (not_zero (p.pthread_mutex_unlock m t.world).0 bad (code ∙ y))),
                          refl,
                          world',
                        ))
                  ])
        ]
    where
      not_zero : (n : ℕ) → (n == 0) ≡ false → n ≢ 0
      not_zero n e = ground (arith, e)

  -- After a join: the mutex was not grabbed; or what follows the grab has been done.
  abbrev pub Ended :
      Pointer
      → State W InternalRepeatingThread
      → ℤ × Option Pointer
      → State W InternalRepeatingThread
      → Type 0
  Ended a s r u =
      let (code, w, t) = p.pthread_mutex_lock s.object.condition_mutex s.world s.object in
      ((code ≢ 0) × (r ≡ (failure, some null)) × (u.world ≡ w)) ⊎ ((code ≡ 0) × Finished a t w r u)

  -- libcthreads_repeating_thread_join on a thread, where pthread_join leaves a mutex and a
  -- condition where there are some: it ends without a fault and `*repeating_thread` is NULL. If the grab, the
  -- signal or the release fails, the result is -1 and nothing is joined or freed; the release is
  -- called also where the signal fails. If not, it has set the exit status, signalled and let go of
  -- the mutex, and then joins the thread, destroys and frees the condition, then the mutex, and frees
  -- the structure, each once; the result is 1 if the join and both steps went well and the thread
  -- returned nothing or 1, else -1.
  pub repeating_join-Ended :
      (a : Pointer) (s : State W InternalRepeatingThread)
      → a ≢ null
      → p.edeadlk ≢ 0
      → s.object.condition_mutex ≢ null
      → HasHandles (p.pthread_mutex_lock s.object.condition_mutex s.world s.object).2
      → ((t : InternalRepeatingThread) (w : W)
          → HasHandles t
          → HasHandles (p.pthread_join t.thread w t).2)
      → Post ⊥ (Ended a s) (join p (some a) s)
  unfolding join
  repeating_join-Ended a s set deadlock mutex handles stays =
      let f : (a == null) ≡ false = ground arith in
      let m = s.object.condition_mutex in
      let (code, w, q) = p.pthread_mutex_lock m s.world s.object in
      rw f (
        Post-bind ⊥ (Answered code w q s) (Ended a s) (Mutex.grab p m s) _
          (grab-Answered p m s mutex)
          λ r t h. elim h.result [
            | inr (nz, e, same) ↦ rw e (inl (nz, refl, h.world))
            | inl (z, e, same) ↦ rw e (
                Post-weaken ⊥ (Finished a t.object t.world) (Ended a s) (finish p a t)
                  (finish_lem a t deadlock (subst HasHandles (sym h.object) handles) stays)
                  λ r' u end. inr (z, subst₂ (λ o x. Finished a o x r' u) h.object h.world end))
          ])
