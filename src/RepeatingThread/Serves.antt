-- ===== src/RepeatingThread/Serves.antt =====
-- What a repeating thread and the threads that push do to its structure, and what is assumed of the
-- latter.
use libcthreads.Common.{
  ℕ, ◌+◌, ◌≡◌, ◌≢◌, refl, sym, ap, ap₂, subst, ◌∙◌, List, [], ◌∷◌, ◌++◌, ℤ, arith,
}
use libcthreads.Machine.{Pointer, null, Platform, State, M}
use libcthreads.Machine.Post.{Post}
use libcthreads.Pool.{status_exit}
use libcthreads.Pool.Calls.{worst}
use libcthreads.RepeatingThread.{InternalRepeatingThread}

-- The result after these results of the callback function, in order.
abbrev pub fold : ℤ → List ℤ → ℤ
fold result [] = result
fold result (r ∷ rs) = fold (worst r result) rs

fold-append : (result : ℤ) (rs rs' : List ℤ) → fold (fold result rs) rs' ≡ fold result (rs ++ rs')
fold-append result [] rs' = refl
fold-append result (r ∷ rs) rs' = fold-append (worst r result) rs rs'

-- A call of the callback function: its address, its argument and its result.
abbrev pub Call : Type 0
Call = Pointer × Pointer × ℤ

-- The calls so far, the latest first, after calls with these results, in order.
abbrev pub logged : Pointer → Pointer → List ℤ → List Call → List Call
logged f a [] calls = calls
logged f a (r ∷ rs) calls = logged f a rs ((f, a, r) ∷ calls)

logged-append :
    (f a : Pointer) (rs rs' : List ℤ) (calls : List Call)
    → logged f a rs' (logged f a rs calls) ≡ logged f a (rs ++ rs') calls
logged-append f a [] rs' calls = refl
logged-append f a (r ∷ rs) rs' calls = logged-append f a rs rs' ((f, a, r) ∷ calls)

-- The structure, and the calls of the callback function so far.
pub record Watched : Type 0 where
  pub object : InternalRepeatingThread
  pub calls : List Call

-- The structure of a state, and the calls that its world tells.
abbrev pub watched : {W : Type 0} → (W → List Call) → State W InternalRepeatingThread → Watched
watched calls s = record { object = s.object; calls = calls s.world }

-- From `t` to `t'` this thread has taken `number` tasks and has called the callback function as often
-- as there are results in `rs`; meanwhile other threads have pushed tasks and perhaps set the exit
-- status.
pub record Serves (number : ℕ) (rs : List ℤ) (t t' : Watched) : Type 0 where
  pub counted :
      number + t'.object.active_tasks + t.object.total_tasks
      ≡ t.object.active_tasks + t'.object.total_tasks
  pub result : t'.object.callback_function_result ≡ fold t.object.callback_function_result rs
  pub called :
      t'.calls ≡ logged t.object.callback_function t.object.callback_function_arguments rs t.calls
  pub function : t'.object.callback_function ≡ t.object.callback_function
  pub arguments : t'.object.callback_function_arguments ≡ t.object.callback_function_arguments
  pub mutex : t'.object.condition_mutex ≡ t.object.condition_mutex
  pub condition : t'.object.status_condition ≡ t.object.status_condition
  pub exit : t.object.status ≡ status_exit → t'.object.status ≡ status_exit

pub Serves-refl : (t : Watched) → Serves 0 [] t t
Serves-refl t = record {
  counted = omega arith;
  result = refl;
  called = refl;
  function = refl;
  arguments = refl;
  mutex = refl;
  condition = refl;
  exit = λ e. e;
}

pub Serves-trans :
    (m n : ℕ) (rs rs' : List ℤ) (t u v : Watched)
    → Serves m rs t u
    → Serves n rs' u v
    → Serves (m + n) (rs ++ rs') t v
Serves-trans m n rs rs' t u v first next = record {
  counted = omega (arith, first.counted, next.counted);
  result =
      next.result
      ∙ ap (λ r. fold r rs') first.result
      ∙ fold-append t.object.callback_function_result rs rs';
  called =
      next.called
      ∙ ap₂ (λ f a. logged f a rs' u.calls) first.function first.arguments
      ∙ ap (logged t.object.callback_function t.object.callback_function_arguments rs') first.called
      ∙ logged-append t.object.callback_function t.object.callback_function_arguments rs rs'
          t.calls;
  function = next.function ∙ first.function;
  arguments = next.arguments ∙ first.arguments;
  mutex = next.mutex ∙ first.mutex;
  condition = next.condition ∙ first.condition;
  exit = λ e. next.exit (first.exit e);
}

-- The mutex and the condition are there.
abbrev pub HasHandles : InternalRepeatingThread → Type 0
HasHandles t = (t.condition_mutex ≢ null) × (t.status_condition ≢ null)

pub Serves-HasHandles :
    (n : ℕ) (rs : List ℤ) (t u : Watched)
    → Serves n rs t u
    → HasHandles t.object
    → HasHandles u.object
Serves-HasHandles n rs t u serves (mutex, condition) = (
  subst (λ a. a ≢ null) (sym serves.mutex) mutex,
  subst (λ a. a ≢ null) (sym serves.condition) condition,
)

-- Other threads push only while this one waits for the mutex, on the condition, or in the callback
-- function, which returns. `calls` tells the calls of the callback function so far: each is told
-- once, and the threads library makes none in this thread.
pub record Beside {W : Type 0} (p : Platform W InternalRepeatingThread)
    (run : Pointer → Pointer → M W InternalRepeatingThread ℤ) (calls : W → List Call) : Type 0 where
  pub lock_serves :
      (m : Pointer) (w : W) (t : InternalRepeatingThread)
      → let (code, w', t') = p.pthread_mutex_lock m w t in
        Serves 0 []
          (record { object = t; calls = calls w })
          (record { object = t'; calls = calls w' })
  pub wait_serves :
      (c m : Pointer) (w : W) (t : InternalRepeatingThread)
      → let (code, w', t') = p.pthread_cond_wait c m w t in
        Serves 0 []
          (record { object = t; calls = calls w })
          (record { object = t'; calls = calls w' })
  pub unlock_calls : (m : Pointer) (w : W) → calls (p.pthread_mutex_unlock m w).1 ≡ calls w
  pub run_serves :
      (f a : Pointer) (s : State W InternalRepeatingThread)
      → Post ⊥
          (λ r u.
            Serves 0 []
              (record { object = s.object; calls = (f, a, r) ∷ calls s.world })
              (record { object = u.object; calls = calls u.world }))
          (run f a s)
