-- ===== src/RepeatingThread/Exits.antt =====
-- The loop of a repeating thread that is told to exit, with no other thread at work.
use libcthreads.Common.{
  ℕ, zero, suc, ◌+◌, ◌≡◌, ◌≢◌, refl, sym, ap, ap₂, subst, ◌∙◌, false, ℤ, some, ◌==◌, not, ◌||◌, ltb,
  arith, Bool-cases, inl, inr,
}
use libcthreads.Machine.{Pointer, null, Platform, State, M, success}
use libcthreads.Machine.Post.{Post, Post-bind, Post-weaken}
use libcthreads.Pool.{status_exit}
use libcthreads.Pool.Calls.{worst}
use libcthreads.RepeatingThread.{
  InternalRepeatingThread, take_tasks, put_result, fetch, run_tasks, repeat,
  callback_function_helper,
}
use libcthreads.RepeatingThread.Alone.{Alone, Has, fetch_alone}

-- The result after so many calls of a function that returns `c`.
abbrev pub repeated : ℤ → ℕ → ℤ → ℤ
repeated c zero result = result
repeated c (suc n) result = repeated c n (worst c result)

module _ {W : Type 0} {p : Platform W InternalRepeatingThread}
    {run : Pointer → Pointer → M W InternalRepeatingThread ℤ} {calls : W → ℕ} {c : ℤ}
    (alone : Alone p run calls c) where
  run_tasks_alone :
      (number : ℕ) (s : State W InternalRepeatingThread)
      → Post ⊥
          (Has alone
            (put_result (repeated c number s.object.callback_function_result) s.object)
            (number + calls s.world))
          (run_tasks p run number s)
  unfolding run_tasks
  run_tasks_alone zero s = (refl, omega arith)
  run_tasks_alone (suc number) s =
      let f = s.object.callback_function in
      let a = s.object.callback_function_arguments in
      Post-bind ⊥ (λ r u. (r ≡ c) × (u.object ≡ s.object) × (calls u.world ≡ suc (calls s.world))) _
        (run f a s) _ (alone.run_alone s)
        λ r t (is, same, once).
          let stored : State W InternalRepeatingThread = record t {
            object = put_result (worst r t.object.callback_function_result) t.object;
          } in
          Post-weaken ⊥ _ _ (run_tasks p run number stored) (run_tasks_alone number stored)
            λ x u (same', more). (
              same'
                  ∙ ap₂
                      (λ r (o : InternalRepeatingThread).
                        put_result (repeated c number (worst r o.callback_function_result)) o)
                      is same,
              omega (arith, more, once),
            )

  -- The loop, with the exit status set and nothing left to do.
  repeat_idle :
      (fuel rounds : ℕ) (s : State W InternalRepeatingThread)
      → s.object.condition_mutex ≢ null
      → s.object.status ≡ status_exit
      → s.object.active_tasks ≡ 0
      → Post ⊥ (Has alone s.object (calls s.world)) (repeat p run (suc fuel) (suc rounds) s)
  unfolding repeat run_tasks
  repeat_idle fuel rounds s mutex exits idle =
      Post-bind ⊥ _ (Has alone s.object (calls s.world)) (fetch p (suc rounds) s) _
        (fetch_alone alone rounds s mutex (ground (arith, exits, idle)))
        λ r t (is, (same, same_calls)).
          rw (is, idle, exits)
            (
              same
                  ∙ ap₂ (λ n status. record s.object { active_tasks = n; status = status })
                      (omega arith) exits,
              same_calls,
            )

  -- After the loop of a thread that was told to exit: the tasks that were active are run.
  abbrev Finished : State W InternalRepeatingThread → State W InternalRepeatingThread → Type 0
  Finished s u =
      let number = s.object.active_tasks in
      Has alone
        (put_result (repeated c number s.object.callback_function_result)
          (take_tasks number s.object))
        (number + calls s.world) tt u

  repeat_alone :
      (fuel rounds : ℕ) (s : State W InternalRepeatingThread)
      → s.object.condition_mutex ≢ null
      → s.object.status ≡ status_exit
      → Post ⊥ (λ x u. Finished s u) (repeat p run (suc (suc fuel)) (suc rounds) s)
  unfolding repeat
  repeat_alone fuel rounds s mutex exits =
      let number = s.object.active_tasks in
      Post-bind ⊥ _ (λ x u. Finished s u) (fetch p (suc rounds) s) _
        (fetch_alone alone rounds s mutex (ground (arith, exits)))
        λ r t (is, (same, same_calls)). rw is (
          Post-bind ⊥ _ (λ x u. Finished s u) (run_tasks p run number t) _
            (run_tasks_alone number t)
            λ x u (same', ran).
              let finished : Finished s u = (
                same'
                    ∙ ap
                        (λ (o : InternalRepeatingThread).
                          put_result (repeated c number o.callback_function_result) o)
                        same,
                omega (arith, ran, same_calls),
              ) in
              elim (Bool-cases (ltb 0 number || not (s.object.status == status_exit))) [
                | inr n ↦ rw n finished
                | inl y ↦ rw y (
                    Post-weaken ⊥ _ (λ x u. Finished s u) (repeat p run (suc fuel) (suc rounds) u)
                      (repeat_idle fuel rounds u
                        (subst (λ (o : InternalRepeatingThread). o.condition_mutex ≢ null)
                          (sym finished.0) mutex)
                        (ap (λ (o : InternalRepeatingThread). o.status) finished.0 ∙ exits)
                        (ap (λ (o : InternalRepeatingThread). o.active_tasks) finished.0
                          ∙ omega arith))
                      λ x v (same'', same_calls'').
                        (same'' ∙ finished.0, same_calls'' ∙ finished.1))
              ])

  -- The start function of a repeating thread that has been told to exit, with no other thread at work
  -- and a callback function that always returns `c`: two rounds of its loop are enough, and one of
  -- the wait, and it ends without a fault; it has called the callback function
  -- once for each task that was active and not else, has left none,
  -- and returns 1 if there was none or `c` is 1, and else `c`.
  pub helper_ends :
      (fuel rounds : ℕ) (arguments : Pointer) (s : State W InternalRepeatingThread)
      → arguments ≢ null
      → s.object.callback_function ≢ null
      → s.object.condition_mutex ≢ null
      → s.object.status ≡ status_exit
      → Post ⊥
          (λ r u.
            (r ≡ some (arguments, repeated c s.object.active_tasks success))
            × (u.object.active_tasks ≡ 0)
            × (calls u.world ≡ s.object.active_tasks + calls s.world))
          (callback_function_helper p run (suc (suc fuel)) (suc rounds) arguments s)
  unfolding callback_function_helper
  helper_ends fuel rounds arguments s set callback mutex exits =
      let f : (arguments == null) ≡ false = ground arith in
      let g : (s.object.callback_function == null) ≡ false = ground arith in
      let started : State W InternalRepeatingThread = record s {
        object = put_result success s.object;
      } in
      rw (f, g)
        (Post-bind ⊥ (λ x u. Finished started u) _
          (repeat p run (suc (suc fuel)) (suc rounds) started) _
          (repeat_alone fuel rounds started mutex exits)
          λ x u (finished, ran). (
            ap (λ (o : InternalRepeatingThread). some (arguments, o.callback_function_result))
                finished,
            ap (λ (o : InternalRepeatingThread). o.active_tasks) finished ∙ omega arith,
            ran,
          ))
