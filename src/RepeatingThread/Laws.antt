-- ===== src/RepeatingThread/Laws.antt =====
-- libcthreads_repeating_thread_push: what it leaves.
use libcthreads.Common.{
  ◌+◌, ◌<◌, ◌≡◌, ◌≢◌, ◌⊎◌, inl, inr, refl, sym, ap, subst, subst₂, ◌∙◌, true, false, ◌&&◌, some, ℤ,
  ◌==◌, ltb, arith, Bool-cases,
}
use libcthreads.Machine.{Pointer, null, Platform, State, success, failure, with_null_error, access}
use libcthreads.Machine.Post.{Post, Post-bind, Post-null, Post-step, Post-weaken, access_lem}
use libcthreads.Machine.Answer.{Answered}
use libcthreads.Mutex
use libcthreads.Mutex.Laws.{grab-Answered, release-Answered}
use libcthreads.Condition
use libcthreads.Condition.Laws.{signal-Answered}
use libcthreads.Handle.Members.{result_of}
use libcthreads.RepeatingThread.{InternalRepeatingThread, int_max, add_task, tell, push}
use libcthreads.RepeatingThread.Serves.{HasHandles}

-- One more task.
abbrev pub added : InternalRepeatingThread → InternalRepeatingThread
added t = record t { active_tasks = t.active_tasks + 1; total_tasks = t.total_tasks + 1 }

module _ {W : Type 0} (p : Platform W InternalRepeatingThread) where
  -- After a push: the mutex was not grabbed and nothing was added; or a task was added, the condition
  -- signalled and the mutex released, and the result says whether both went well.
  abbrev pub Added : State W InternalRepeatingThread → ℤ → State W InternalRepeatingThread → Type 0
  Added s r u =
      let (code, w, t) = p.pthread_mutex_lock s.object.condition_mutex s.world s.object in
      let (signalled, w') = p.pthread_cond_signal t.status_condition w in
      let (released, w'') = p.pthread_mutex_unlock t.condition_mutex w' in
      ((code ≢ 0) × (r ≡ failure) × (u.object ≡ t) × (u.world ≡ w))
      ⊎ ((code ≡ 0)
          × (r ≡ result_of ((signalled == 0) && (released == 0)) success)
          × (u.object ≡ added t)
          × (u.world ≡ w''))

  -- The end of a push, from the structure `t` and the world `w`.
  abbrev Told : InternalRepeatingThread → W → ℤ → State W InternalRepeatingThread → Type 0
  Told t w r u =
      let (signalled, w') = p.pthread_cond_signal t.status_condition w in
      let (released, w'') = p.pthread_mutex_unlock t.condition_mutex w' in
      (r ≡ result_of ((signalled == 0) && (released == 0)) success)
      × (u.object ≡ t)
      × (u.world ≡ w'')

  abbrev pub Unlocked :
      Pointer → State W InternalRepeatingThread → ℤ → State W InternalRepeatingThread → Type 0
  Unlocked m t r u =
      let (released, w) = p.pthread_mutex_unlock m t.world in
      (u.object ≡ t.object) × (u.world ≡ w) × (r ≡ result_of (released == 0) success)

  pub unlock_lem :
      (m : Pointer) (t : State W InternalRepeatingThread)
      → m ≢ null
      → Post ⊥ (Unlocked m t) (Mutex.release p m t)
  unlock_lem m t set =
      Post-weaken ⊥ _ (Unlocked m t) (Mutex.release p m t) (release-Answered p m t set) λ r u h. (
        h.object,
        h.world,
        elim h.result [
          | inl (z, e, same) ↦
              let yes : ((p.pthread_mutex_unlock m t.world).0 == 0) ≡ true = ground arith in
              rw (e, yes) refl
          | inr (nz, e, same) ↦
              let no : ((p.pthread_mutex_unlock m t.world).0 == 0) ≡ false = ground arith in
              rw (e, no) refl
        ],
      )

  tell_lem :
      (s : State W InternalRepeatingThread)
      → HasHandles s.object
      → Post ⊥ (Told s.object s.world) (tell p s)
  unfolding tell
  tell_lem s (mutex, condition) =
      let m = s.object.condition_mutex in
      let c = s.object.status_condition in
      let Q = Told s.object s.world in
      let (signalled, w) = p.pthread_cond_signal c s.world in
      Post-bind ⊥ (Answered signalled w s.object s) Q (Condition.signal p c s) _
        (signal-Answered p c s condition)
        λ r t h. elim h.result [
          | inr (nz, e, same) ↦
              let no : (signalled == 0) ≡ false = ground arith in
              rw e (
                Post-bind ⊥ (Unlocked m t) Q
                  (with_null_error (Mutex.release p m) (record t { errors = _ })) _
                  (Post-null ⊥ (Unlocked m t) (Unlocked m t) (Mutex.release p m)
                    (record t { errors = _ }) (unlock_lem m (record t { errors = _ }) mutex)
                    (λ r u x. x))
                  λ r' u (object, world, side). (
                    rw no refl,
                    object ∙ h.object,
                    world ∙ ap (λ x. (p.pthread_mutex_unlock m x).1) h.world,
                  ))
          | inl (z, e, same) ↦
              let yes : (signalled == 0) ≡ true = ground arith in
              rw e (
                Post-bind ⊥ (Unlocked m t) Q (Mutex.release p m t) _ (unlock_lem m t mutex)
                  λ r' u (object, world, side).
                    let object' = object ∙ h.object in
                    let world' = world ∙ ap (λ x. (p.pthread_mutex_unlock m x).1) h.world in
                    let code =
                      ap (λ x. result_of ((p.pthread_mutex_unlock m x).0 == 0) success) h.world in
                    elim (Bool-cases ((p.pthread_mutex_unlock m t.world).0 == 0)) [
                      | inl ok ↦
                          let good = ap (λ b. result_of b success) ok in
                          rw (side ∙ good) (rw yes (sym good ∙ code), object', world')
                      | inr bad ↦
                          let failed = ap (λ b. result_of b success) bad in
                          rw (side ∙ failed) (rw yes (sym failed ∙ code), object', world')
                    ])
        ]

  add_task_lem :
      (t : InternalRepeatingThread)
      → t.active_tasks < int_max
      → t.total_tasks < int_max
      → add_task t ≡ some (tt, added t)
  add_task_lem t active total =
      let room : (ltb t.active_tasks int_max && ltb t.total_tasks int_max) ≡ true =
        ground (arith, active, total) in
      rw room refl

  -- libcthreads_repeating_thread_push on a thread that exists: if the mutex is grabbed and neither
  -- counter is at its maximum, one task is added to the structure as other threads have left it, the
  -- condition is signalled and the mutex released, in this order; the result is 1 if both go well,
  -- else -1, and the task stays added then. If the mutex is not grabbed, the result is -1 and nothing
  -- is added.
  pub push-Added :
      (a : Pointer) (s : State W InternalRepeatingThread)
      → a ≢ null
      → s.object.condition_mutex ≢ null
      → (let (code, w, t) = p.pthread_mutex_lock s.object.condition_mutex s.world s.object in
          HasHandles t × (t.active_tasks < int_max) × (t.total_tasks < int_max))
      → Post ⊥ (Added s) (push p a s)
  unfolding push
  push-Added a s set mutex (handles, active, total) =
      let f : (a == null) ≡ false = ground arith in
      let m = s.object.condition_mutex in
      let (code, w, q) = p.pthread_mutex_lock m s.world s.object in
      rw f (
        Post-bind ⊥ (Answered code w q s) (Added s) (Mutex.grab p m s) _ (grab-Answered p m s mutex)
          λ r t h. elim h.result [
            | inr (nz, e, same) ↦ rw e (inl (nz, refl, h.object, h.world))
            | inl (z, e, same) ↦ rw e (
                let same_task =
                  subst (λ (o : InternalRepeatingThread). add_task o ≡ some (tt, added o))
                    (sym h.object) (add_task_lem q active total) in
                let t' : State W InternalRepeatingThread = record t { object = added t.object } in
                Post-step ⊥ (Added s) (access add_task t) tt t' _
                  (access_lem add_task t tt (added t.object) same_task)
                  (Post-weaken ⊥ (Told (added t.object) t.world) (Added s) (tell p t')
                    (tell_lem t' (subst HasHandles (sym h.object) handles))
                    λ r' u told.
                      let (result, object, world) =
                        subst₂ (λ o w. Told (added o) w r' u) h.object h.world told in
                      inr (z, result, object, world)))
          ])
