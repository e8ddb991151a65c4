-- ===== src/RepeatingThread/Fetches.antt =====
-- The part of a repeating thread's loop under the mutex: the wait, and the tasks that are taken.
use libcthreads.Common.{
  ℕ, zero, suc, ◌≡◌, ◌≢◌, inl, inr, refl, sym, ap, ap₂, subst₂, ◌∙◌, false, List, [], ℤ, arith,
  Bool-cases,
}
use libcthreads.Machine.{Pointer, null, Platform, State, M, with_null_error}
use libcthreads.Machine.Post.{Post, Post-bind, Post-null, Post-weaken, Post-total}
use libcthreads.Mutex
use libcthreads.Mutex.Laws.{grab-Answered, release-Answered}
use libcthreads.Condition
use libcthreads.Condition.Laws.{wait-Answered}
use libcthreads.Pool.{status_exit}
use libcthreads.RepeatingThread.{
  InternalRepeatingThread, lacks_tasks, take_tasks, await_tasks, fetch,
}
use libcthreads.RepeatingThread.Serves.{
  Call, Watched, watched, Serves, Serves-refl, Serves-trans, HasHandles, Serves-HasHandles, Beside,
}

module _ {W : Type 0} {p : Platform W InternalRepeatingThread}
    {run : Pointer → Pointer → M W InternalRepeatingThread ℤ} {calls : W → List Call}
    (beside : Beside p run calls) where
  -- After a call that lets others push.
  abbrev pub Lets : State W InternalRepeatingThread → State W InternalRepeatingThread → Type 0
  Lets s u = Serves 0 [] (watched calls s) (watched calls u)

  wait_lem :
      (T : Type 0) (s : State W InternalRepeatingThread)
      → HasHandles s.object
      → Post T
          (λ r u. Lets s u)
          (with_null_error (Condition.wait p s.object.status_condition s.object.condition_mutex) s)
  wait_lem T s (mutex, condition) =
      let c = s.object.status_condition in
      let m = s.object.condition_mutex in
      Post-total T (λ r u. Lets s u) _
        (Post-null ⊥ (λ r u. Lets s u) (λ r u. Lets s u) (Condition.wait p c m) s
          (Post-weaken ⊥ _ (λ r u. Lets s u) (Condition.wait p c m s)
            (wait-Answered p c m s condition mutex)
            λ r u h.
              subst₂ (λ o w. Serves 0 [] (watched calls s) (record { object = o; calls = calls w }))
                (sym h.object) (sym h.world) (beside.wait_serves c m s.world s.object))
          (λ r u h. h))

  await_tasks_lem :
      (rounds : ℕ) (s : State W InternalRepeatingThread)
      → HasHandles s.object
      → Post (Unit {0}) (λ x u. Lets s u × (lacks_tasks u.object ≡ false)) (await_tasks p rounds s)
  unfolding await_tasks
  await_tasks_lem zero s handles = tt
  await_tasks_lem (suc rounds) s handles = elim (Bool-cases (lacks_tasks s.object)) [
    | inr n ↦ rw n (Serves-refl (watched calls s), n)
    | inl y ↦ rw y (
        Post-bind (Unit {0}) (λ r u. Lets s u) (λ x u. Lets s u × (lacks_tasks u.object ≡ false))
          (with_null_error (Condition.wait p s.object.status_condition s.object.condition_mutex) s)
          _ (wait_lem (Unit {0}) s handles)
          λ r t serves.
            Post-weaken (Unit {0}) (λ x u. Lets t u × (lacks_tasks u.object ≡ false)) _
              (await_tasks p rounds t)
              (await_tasks_lem rounds t
                (Serves-HasHandles 0 [] (watched calls s) (watched calls t) serves handles))
              λ x u (serves', leaves). (
                Serves-trans 0 0 [] [] (watched calls s) (watched calls t) (watched calls u) serves
                    serves',
                leaves,
              ))
  ]

  -- After a fetch: so many tasks were taken; none, only if the threads is to exit.
  abbrev pub Fetched :
      State W InternalRepeatingThread → ℕ × ℕ → State W InternalRepeatingThread → Type 0
  Fetched s (number, status) u =
      Serves number [] (watched calls s) (watched calls u)
      × (u.object.status ≡ status)
      × ((number ≡ 0) → status ≡ status_exit)

  -- After a release.
  abbrev Untouched :
      {A : Type 0} → State W InternalRepeatingThread → A → State W InternalRepeatingThread → Type 0
  Untouched s r u = (u.object ≡ s.object) × (calls u.world ≡ calls s.world)

  pub fetch_lem :
      (rounds : ℕ) (s : State W InternalRepeatingThread)
      → HasHandles s.object
      → Post (Unit {0}) (Fetched s) (fetch p rounds s)
  unfolding fetch
  fetch_lem rounds s handles =
      let T = Unit {0} in
      let m = s.object.condition_mutex in
      Post-bind T (λ r u. Lets s u) (Fetched s) (with_null_error (Mutex.grab p m) s) _
        (Post-total T (λ r u. Lets s u) _ (grab_lets m s handles.0))
        λ r t serves.
          let handles' =
            Serves-HasHandles 0 [] (watched calls s) (watched calls t) serves handles in
          Post-bind T (λ x u. Lets t u × (lacks_tasks u.object ≡ false)) (Fetched s)
            (await_tasks p rounds t) _ (await_tasks_lem rounds t handles')
            λ x u (serves', leaves).
              let q = u.object in
              let taken : State W InternalRepeatingThread = record u {
                object = take_tasks q.active_tasks q;
              } in
              let both =
                Serves-trans 0 0 [] [] (watched calls s) (watched calls t) (watched calls u) serves
                  serves' in
              let (mutex, condition) =
                Serves-HasHandles 0 [] (watched calls s) (watched calls u) both handles in
              Post-bind T (Untouched taken) (Fetched s)
                (with_null_error (Mutex.release p q.condition_mutex) taken) _
                (Post-total T (Untouched taken) _ (release_stays q.condition_mutex taken mutex))
                λ r v (same, same_calls). (
                  subst₂ (λ n x. Serves n [] (watched calls s) x) (omega arith)
                      (ap₂ (λ o l. record { object = o; calls = l }) (sym same) (sym same_calls))
                      (Serves-trans 0 q.active_tasks [] [] (watched calls s) (watched calls u)
                        (watched calls taken) both (taken_all (watched calls u))),
                  ap (λ (o : InternalRepeatingThread). o.status) same,
                  λ none_taken. ground (arith, leaves, none_taken),
                )
    where
      grab_lets :
          (m : Pointer) (s : State W InternalRepeatingThread)
          → m ≢ null
          → Post ⊥ (λ r u. Lets s u) (with_null_error (Mutex.grab p m) s)
      grab_lets m s set =
          Post-null ⊥ (λ r u. Lets s u) (λ r u. Lets s u) (Mutex.grab p m) s
            (Post-weaken ⊥ _ (λ r u. Lets s u) (Mutex.grab p m s) (grab-Answered p m s set)
              λ r u h.
                subst₂
                  (λ o w. Serves 0 [] (watched calls s) (record { object = o; calls = calls w }))
                  (sym h.object) (sym h.world) (beside.lock_serves m s.world s.object))
            (λ r u h. h)

      release_stays :
          (m : Pointer) (s : State W InternalRepeatingThread)
          → m ≢ null
          → Post ⊥ (Untouched s) (with_null_error (Mutex.release p m) s)
      release_stays m s set =
          Post-null ⊥ (Untouched s) (Untouched s) (Mutex.release p m) s
            (Post-weaken ⊥ _ (Untouched s) (Mutex.release p m s) (release-Answered p m s set)
              λ r u h. (h.object, ap calls h.world ∙ beside.unlock_calls m s.world))
            (λ r u h. h)

      taken_all :
          (x : Watched)
          → Serves x.object.active_tasks [] x
              (record x { object = take_tasks x.object.active_tasks x.object })
      taken_all x = record {
        counted = omega arith;
        result = refl;
        called = refl;
        function = refl;
        arguments = refl;
        mutex = refl;
        condition = refl;
        exit = λ e. e;
      }
