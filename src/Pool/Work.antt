-- ===== src/Pool/Work.antt =====
-- The loop of a thread of a pool, in libcthreads_thread_pool_callback_function_helper.
use libcthreads.Common.{
  ℕ, zero, suc, ◌≡◌, ◌≢◌, ◌⊎◌, inl, inr, refl, sym, ap, subst, ◌∙◌, none, some, List, [], ◌∷◌, ℤ,
  ◌==◌, arith, Bool-cases,
}
use libcthreads.Machine.{Pointer, null, Platform, State, M, success, failure, not_done}
use libcthreads.Machine.Exec.{done}
use libcthreads.Machine.Post.{Post, Post-run, Post-weaken, Post-total}
use libcthreads.Queue.{InternalQueue}
use libcthreads.Queue.Others.{Others}
use libcthreads.Queue.Environment.{Threads, Ends}
use libcthreads.Queue.Steps.{Ready, Others-Ready, Keeps-HasHandles}
use libcthreads.Queue.Results.{Taken, Passed}
use libcthreads.Queue.Calls.{Reply}
use libcthreads.Pool.{PoolWorld, status_exit}
use libcthreads.Pool.Calls.{lacks_work, pop, worst, work}
use libcthreads.Pool.Pop.{PoolPopped, pool_pop-PoolPopped}

-- The result after the callback was called with these values, in order.
abbrev pub results : (Pointer → ℤ) → ℤ → List Pointer → ℤ
results answer result [] = result
results answer result (v ∷ vs) = results answer (worst (answer v) result) vs

Taken-Ready : {v : Pointer} {q q' : InternalQueue} → Ready q → Taken v q q' → Ready q'
Taken-Ready ready taken = record {
  valid = taken.valid;
  handles = Keeps-HasHandles ready.handles taken.keeps;
}

module _ {W : Type 0} {p : Platform (PoolWorld W) InternalQueue} {Free Held : PoolWorld W → Type 0}
    {F : Type 0} (threads : Threads p Free Held F)
    (run : Pointer → Pointer → Pointer → M (PoolWorld W) InternalQueue ℤ)
    (answer : Pointer → ℤ) where
  -- The call of the pool's callback function with a value.
  abbrev pub called : Pointer → M (PoolWorld W) InternalQueue ℤ
  called v s = run s.world.members.callback_function v s.world.members.callback_function_arguments s

  -- The callback function of the pool ends with the answer to its value and without the mutex; other
  -- threads run meanwhile.
  abbrev pub Answers : Type 0
  Answers =
      (v : Pointer) (s : State (PoolWorld W) InternalQueue)
      → Free s.world
      → Post ⊥ (λ r t. (r ≡ answer v) × Others s.object t.object × Free t.world) (called v s)

  -- The rounds of the loop, with the values that its pops take, while other threads have their
  -- critical sections: each value that a pop hands out is given to the callback function in one call.
  pub data Rounds (rounds : ℕ) (thread_pool : Pointer)
      : State (PoolWorld W) InternalQueue
        → List Pointer
        → State (PoolWorld W) InternalQueue
        → Type 0 where
    exits :
        {s t : State (PoolWorld W) InternalQueue}
        → pop p rounds thread_pool s ≡ done ((not_done, none), t)
        → t.world.members.status ≡ status_exit
        → Others s.object t.object
        → Rounds rounds thread_pool s [] t
    fails :
        {s t : State (PoolWorld W) InternalQueue}
        → pop p rounds thread_pool s ≡ done ((failure, none), t)
        → Others s.object t.object
        → Rounds rounds thread_pool s [] t
    drops :
        {s t : State (PoolWorld W) InternalQueue} {q : InternalQueue} {v : Pointer}
        → pop p rounds thread_pool s ≡ done ((failure, some v), t)
        → Others s.object q
        → Taken v q t.object
        → Rounds rounds thread_pool s (v ∷ []) t
    resumes :
        {s t u : State (PoolWorld W) InternalQueue} {vs : List Pointer}
        → pop p rounds thread_pool s ≡ done ((not_done, none), t)
        → t.world.members.status ≢ status_exit
        → Others s.object t.object
        → Rounds rounds thread_pool t vs u
        → Rounds rounds thread_pool s vs u
    calls :
        {s t u u' : State (PoolWorld W) InternalQueue} {q : InternalQueue} {v : Pointer}
        {vs : List Pointer}
        → pop p rounds thread_pool s ≡ done ((success, some v), t)
        → Others s.object q
        → Taken v q t.object
        → called v t ≡ done (answer v, u)
        → Others t.object u.object
        → Rounds rounds thread_pool u vs u'
        → Rounds rounds thread_pool s (v ∷ vs) u'

  -- `E n s`: from `s` the loop has enough with `n` rounds, or `T` holds.
  pub record Paces (T : Type 0) (rounds : ℕ) (thread_pool : Pointer)
      (E : ℕ → State (PoolWorld W) InternalQueue → Type 0) : Type 0 where
    pub used_up : (s : State (PoolWorld W) InternalQueue) → E 0 s → T
    pub pop_ends :
        (n : ℕ) (s : State (PoolWorld W) InternalQueue)
        → E (suc n) s
        → Ends p lacks_work
            (λ q. q.empty_condition)
            T
            rounds
            (p.pthread_mutex_lock s.object.condition_mutex s.world s.object).1
            (p.pthread_mutex_lock s.object.condition_mutex s.world s.object).2
    pub after_value :
        (n : ℕ) (v : Pointer) (c : ℤ) (s t u : State (PoolWorld W) InternalQueue)
        → E (suc n) s
        → pop p rounds thread_pool s ≡ done ((success, some v), t)
        → called v t ≡ done (c, u)
        → E n u
    pub after_nothing :
        (n : ℕ) (s t : State (PoolWorld W) InternalQueue)
        → E (suc n) s
        → pop p rounds thread_pool s ≡ done ((not_done, none), t)
        → t.world.members.status ≢ status_exit
        → E n t

  -- After the loop from `s`, with `result` so far: the values taken; the threads are to exit and the
  -- result is that of the values, or a call failed.
  abbrev pub Worked :
      ℕ
      → Pointer
      → ℤ
      → State (PoolWorld W) InternalQueue
      → ℤ
      → State (PoolWorld W) InternalQueue
      → Type 0
  Worked rounds thread_pool result s r t =
      Free t.world
      × Ready t.object
      × (vs : List Pointer) × Rounds rounds thread_pool s vs t
      × (((t.world.members.status ≡ status_exit) × (r ≡ results answer result vs))
          ⊎ (F × (r ≡ failure)))

  -- The loop of a thread of a pool that exists, by a thread that does not hold the mutex and with a
  -- callback function that ends, and whatever the threads library answers within `Threads`: it stays
  -- in bounds, calls the pool's callback function, with its argument, exactly once with each value
  -- that one of its pops hands out, in the order of the pops, and ends when a pop finds no value and
  -- the status is set to exit, with the first of the callback's results that is not 1, or 1 if there
  -- is none; or it ends with -1 where a pop fails, and a value that this pop took is not passed on.
  -- The mutex is free at the end. Where the rounds suffice (`T` is `⊥`) it ends.
  pub work-Worked :
      (T : Type 0) (E : ℕ → State (PoolWorld W) InternalQueue → Type 0) (fuel rounds : ℕ)
      (thread_pool : Pointer) (result : ℤ) (s : State (PoolWorld W) InternalQueue)
      → Answers
      → Paces T rounds thread_pool E
      → thread_pool ≢ null
      → Ready s.object
      → Free s.world
      → E fuel s
      → Post T (Worked rounds thread_pool result s) (work p run fuel rounds thread_pool result s)
  unfolding work
  work-Worked T E zero rounds thread_pool result s answers paces set ready free enough =
      paces.used_up s enough
  work-Worked T E (suc fuel) rounds thread_pool result s answers paces set ready free enough =
      let Q = Worked rounds thread_pool result s in
      Post-run T (Passed threads (PoolPopped threads) s.object) Q (pop p rounds thread_pool s) _
        (pool_pop-PoolPopped threads T rounds thread_pool s set ready free
          (paces.pop_ends fuel s enough))
        λ r t runs (q', others, free', side).
          let ready' = Others-Ready s.object q' ready others in
          let to : (r' : Reply) → r ≡ r' → pop p rounds thread_pool s ≡ done (r', t) =
            λ r' e. runs ∙ ap (λ (x : Reply). done (x, t)) e in
          elim side [
            | inl (f, failed, same) ↦ rw failed (
              free',
              subst Ready (sym same) ready',
              [],
              fails (to _ failed) (subst (Others s.object) (sym same) others),
              inr (f, refl),
            )
            | inr (inl (w, held, exiting, no_value, same, inr (f, failed))) ↦ rw failed (
              free',
              subst Ready (sym same) ready',
              [],
              fails (to _ failed) (subst (Others s.object) (sym same) others),
              inr (f, refl),
            )
            | inr (inl (w, held, exiting, no_value, same, inl nothing)) ↦
                rw nothing (elim (Bool-cases (t.world.members.status == status_exit)) [
                  | inl ends ↦ rw ends (
                    free',
                    subst Ready (sym same) ready',
                    [],
                    exits (to _ nothing) (ground (arith, ends))
                        (subst (Others s.object) (sym same) others),
                    inl (ground (arith, ends), refl),
                  )
                  | inr stays ↦ rw stays (
                      Post-weaken T (Worked rounds thread_pool result t) Q _
                        (work-Worked T E fuel rounds thread_pool result t answers paces set
                          (subst Ready (sym same) ready') free'
                          (paces.after_nothing fuel s t enough (to _ nothing)
                            (ground (arith, stays))))
                        λ x u (free'', ready'', vs, taken, end). (
                          free'',
                          ready'',
                          vs,
                          resumes (to _ nothing) (ground (arith, stays))
                              (subst (Others s.object) (sym same) others) taken,
                          end,
                        ))
                ])
            | inr (inr (v, taken, inr (f, failed))) ↦ rw failed (
              free',
              Taken-Ready ready' taken,
              v ∷ [],
              drops (to _ failed) others taken,
              inr (f, refl),
            )
            | inr (inr (v, taken, inl popped)) ↦ rw popped (
                let Answered = λ (c : ℤ) (u : State (PoolWorld W) InternalQueue).
                  (c ≡ answer v) × Others t.object u.object × Free u.world in
                Post-run T Answered Q (called v t) _ (Post-total T Answered _ (answers v t free'))
                  λ c u ran (is, others', free'').
                    Post-weaken T (Worked rounds thread_pool (worst c result) u) Q _
                      (work-Worked T E fuel rounds thread_pool (worst c result) u answers paces set
                        (Others-Ready t.object u.object (Taken-Ready ready' taken) others') free''
                        (paces.after_value fuel v c s t u enough (to _ popped) ran))
                      λ x y (last, ready_last, vs, taken', end). (
                        last,
                        ready_last,
                        v ∷ vs,
                        calls (to _ popped) others taken (ran ∙ ap (λ c. done (c, u)) is) others'
                            taken',
                        elim end [
                          | inl (ended, e) ↦
                              inl (ended, e ∙ ap (λ z. results answer (worst z result) vs) is)
                          | inr failed ↦ inr failed
                        ],
                      ))
          ]
