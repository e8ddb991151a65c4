-- ===== src/RepeatingThread/Served.antt =====
-- The loop of a repeating thread, while other threads push.
use libcthreads.Common.{
  ℕ, zero, suc, ◌+◌, ◌≡◌, ◌≢◌, inl, inr, refl, sym, ap, ap₂, subst, ◌∙◌, false, List, [], ◌∷◌, ◌++◌,
  ℤ, ◌==◌, not, ◌||◌, some, ltb, arith, Bool-cases, length, length-append,
}
use libcthreads.Machine.{Pointer, null, Platform, State, M, success}
use libcthreads.Machine.Post.{Post, Post-bind, Post-weaken, Post-total}
use libcthreads.Pool.{status_exit}
use libcthreads.Pool.Calls.{worst}
use libcthreads.RepeatingThread.{
  InternalRepeatingThread, put_result, fetch, run_tasks, repeat, callback_function_helper,
}
use libcthreads.RepeatingThread.Serves.{
  fold, logged, Call, watched, Serves, Serves-refl, Serves-trans, HasHandles, Serves-HasHandles,
  Beside,
}
use libcthreads.RepeatingThread.Fetches.{Fetched, fetch_lem}

module _ {W : Type 0} {p : Platform W InternalRepeatingThread}
    {run : Pointer → Pointer → M W InternalRepeatingThread ℤ} {calls : W → List Call}
    (beside : Beside p run calls) where
  -- After the tasks are run: a result for each.
  abbrev Ran : ℕ → State W InternalRepeatingThread → State W InternalRepeatingThread → Type 0
  Ran number s u =
      (rs : List ℤ) × (length rs ≡ number) × Serves 0 rs (watched calls s) (watched calls u)

  run_tasks_lem :
      (number : ℕ) (s : State W InternalRepeatingThread)
      → Post ⊥ (λ x u. Ran number s u) (run_tasks p run number s)
  unfolding run_tasks
  run_tasks_lem zero s = ([], refl, Serves-refl (watched calls s))
  run_tasks_lem (suc number) s =
      let f = s.object.callback_function in
      let a = s.object.callback_function_arguments in
      let Returned : ℤ → State W InternalRepeatingThread → Type 0 = λ r u.
        Serves 0 [] (record { object = s.object; calls = (f, a, r) ∷ calls s.world })
          (watched calls u) in
      Post-bind ⊥ Returned (λ x u. Ran (suc number) s u) (run f a s) _ (beside.run_serves f a s)
        λ r t serves.
          let stored : State W InternalRepeatingThread = record t {
            object = put_result (worst r t.object.callback_function_result) t.object;
          } in
          Post-weaken ⊥ (λ x u. Ran number stored u) (λ x u. Ran (suc number) s u)
            (run_tasks p run number stored) (run_tasks_lem number stored)
            λ x u (rs, counted, serves'). (
              r ∷ rs,
              ap suc counted,
              record {
                counted = omega (arith, serves.counted, serves'.counted);
                result = serves'.result ∙ ap (λ x. fold (worst r x) rs) serves.result;
                called =
                    serves'.called
                    ∙ ap₂ (λ f a. logged f a rs (calls t.world)) serves.function serves.arguments
                    ∙ ap (logged f a rs) serves.called;
                function = serves'.function ∙ serves.function;
                arguments = serves'.arguments ∙ serves.arguments;
                mutex = serves'.mutex ∙ serves.mutex;
                condition = serves'.condition ∙ serves.condition;
                exit = λ e. serves'.exit (serves.exit e);
              },
            )

  -- After the loop: as many results as tasks were taken, and the thread is to exit.
  abbrev pub Served : State W InternalRepeatingThread → State W InternalRepeatingThread → Type 0
  Served s u =
      (rs : List ℤ) × Serves (length rs) rs (watched calls s) (watched calls u)
      × (u.object.status ≡ status_exit)

  repeat_lem :
      (fuel rounds : ℕ) (s : State W InternalRepeatingThread)
      → HasHandles s.object
      → Post (Unit {0}) (λ x u. Served s u) (repeat p run fuel rounds s)
  unfolding repeat
  repeat_lem zero rounds s handles = tt
  repeat_lem (suc fuel) rounds s handles =
      Post-bind (Unit {0}) (Fetched beside s) (λ x u. Served s u) (fetch p rounds s) _
        (fetch_lem beside rounds s handles)
        λ (number, status) t (serves, is, idle).
          Post-bind (Unit {0}) (λ x u. Ran number t u) (λ x u. Served s u)
            (run_tasks p run number t) _
            (Post-total (Unit {0}) (λ x u. Ran number t u) _ (run_tasks_lem number t))
            λ x u (rs, counted, serves').
              let both : Serves (length rs) rs (watched calls s) (watched calls u) =
                subst (λ n. Serves n rs (watched calls s) (watched calls u))
                  (omega (arith, counted))
                  (Serves-trans number 0 [] rs (watched calls s) (watched calls t) (watched calls u)
                    serves serves') in
              elim (Bool-cases (ltb 0 number || not (status == status_exit))) [
                | inr n ↦ rw n (rs, both, serves'.exit (is ∙ ground (arith, n)))
                | inl y ↦ rw y (
                    Post-weaken (Unit {0}) (λ x v. Served u v) (λ x v. Served s v)
                      (repeat p run fuel rounds u)
                      (repeat_lem fuel rounds u (
                        Serves-HasHandles (length rs) rs (watched calls s) (watched calls u) both
                          handles))
                      λ x v (rs', serves'', exits). (
                        rs ++ rs',
                        subst (λ n. Serves n (rs ++ rs') (watched calls s) (watched calls v))
                            (sym (length-append rs rs'))
                            (Serves-trans (length rs) (length rs') rs rs' (watched calls s)
                              (watched calls u) (watched calls v) both serves''),
                        exits,
                      ))
              ]

  -- The start function of a repeating thread that has a callback function, a mutex and a condition:
  -- it stays in bounds, and where it returns, it was told to exit, it has called the callback
  -- function with its argument once for each task that was taken and not else, the tasks that were
  -- pushed before and meanwhile are those that were run and those that are still counted as active,
  -- and it returns the first result of these calls that is not 1, or else 1.
  pub helper-Served :
      (fuel rounds : ℕ) (arguments : Pointer) (s : State W InternalRepeatingThread)
      → arguments ≢ null
      → s.object.callback_function ≢ null
      → HasHandles s.object
      → Post
          (Unit {0})
          (λ r u.
            (rs : List ℤ) × (r ≡ some (arguments, fold success rs))
            × (calls u.world
                ≡ logged s.object.callback_function s.object.callback_function_arguments rs
                    (calls s.world))
            × (length rs + u.object.active_tasks + s.object.total_tasks
                ≡ s.object.active_tasks + u.object.total_tasks)
            × (u.object.status ≡ status_exit))
          (callback_function_helper p run fuel rounds arguments s)
  unfolding callback_function_helper
  helper-Served fuel rounds arguments s set callback handles =
      let f : (arguments == null) ≡ false = ground arith in
      let g : (s.object.callback_function == null) ≡ false = ground arith in
      let started : State W InternalRepeatingThread = record s {
        object = put_result success s.object;
      } in
      rw (f, g)
        (Post-bind (Unit {0}) (λ x u. Served started u) _ (repeat p run fuel rounds started) _
          (repeat_lem fuel rounds started handles)
          λ x u (rs, serves, exits).
            (rs, ap (λ c. some (arguments, c)) serves.result, serves.called, serves.counted, exits))
