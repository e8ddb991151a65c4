-- ===== src/RepeatingThread/Alone.antt =====
-- The part of a repeating thread's loop under the mutex, with no other thread at work.
use libcthreads.Common.{ℕ, suc, ◌≡◌, ◌≢◌, refl, sym, ap, subst, ◌∙◌, false, ℤ}
use libcthreads.Machine.{Pointer, null, Platform, State, M, with_null_error}
use libcthreads.Machine.Exec.{done}
use libcthreads.Machine.Post.{Post, Post-step, Post-bind, Post-null, Post-weaken}
use libcthreads.Mutex
use libcthreads.Mutex.Laws.{grab-Answered, release-Answered}
use libcthreads.RepeatingThread.{
  InternalRepeatingThread, lacks_tasks, take_tasks, await_tasks, fetch,
}

-- No other thread changes the structure, and the callback function, called with its argument,
-- returns `c`. `calls` tells how often it was called so far; the threads library does not call it.
pub record Alone {W : Type 0} (p : Platform W InternalRepeatingThread)
    (run : Pointer → Pointer → M W InternalRepeatingThread ℤ) (calls : W → ℕ) (c : ℤ) : Type 0 where
  pub lock_alone :
      (m : Pointer) (w : W) (t : InternalRepeatingThread)
      → let (code, w', t') = p.pthread_mutex_lock m w t in (t' ≡ t) × (calls w' ≡ calls w)
  pub unlock_calls : (m : Pointer) (w : W) → calls (p.pthread_mutex_unlock m w).1 ≡ calls w
  pub run_alone :
      (s : State W InternalRepeatingThread)
      → Post ⊥
          (λ r u. (r ≡ c) × (u.object ≡ s.object) × (calls u.world ≡ suc (calls s.world)))
          (run s.object.callback_function s.object.callback_function_arguments s)

module _ {W : Type 0} {p : Platform W InternalRepeatingThread}
    {run : Pointer → Pointer → M W InternalRepeatingThread ℤ} {calls : W → ℕ} {c : ℤ}
    (alone : Alone p run calls c) where
  -- The structure is `q` and the callback function was called `n` times.
  abbrev pub Has :
      {A : Type 0} → InternalRepeatingThread → ℕ → A → State W InternalRepeatingThread → Type 0
  Has q n r u = (u.object ≡ q) × (calls u.world ≡ n)

  grab_alone :
      (m : Pointer) (s : State W InternalRepeatingThread)
      → m ≢ null
      → Post ⊥ (Has s.object (calls s.world)) (with_null_error (Mutex.grab p m) s)
  grab_alone m s set =
      let Q = Has {A = ℤ} s.object (calls s.world) in
      Post-null ⊥ Q Q (Mutex.grab p m) s
        (Post-weaken ⊥ _ Q (Mutex.grab p m s) (grab-Answered p m s set) λ r u h.
          let (same, same_calls) = alone.lock_alone m s.world s.object in
          (h.object ∙ same, ap calls h.world ∙ same_calls))
        (λ r u h. h)

  release_alone :
      (m : Pointer) (s : State W InternalRepeatingThread)
      → m ≢ null
      → Post ⊥ (Has s.object (calls s.world)) (with_null_error (Mutex.release p m) s)
  release_alone m s set =
      let Q = Has {A = ℤ} s.object (calls s.world) in
      Post-null ⊥ Q Q (Mutex.release p m) s
        (Post-weaken ⊥ _ Q (Mutex.release p m s) (release-Answered p m s set)
          λ r u h. (h.object, ap calls h.world ∙ alone.unlock_calls m s.world))
        (λ r u h. h)

  await_alone :
      (rounds : ℕ) (s : State W InternalRepeatingThread)
      → lacks_tasks s.object ≡ false
      → await_tasks p (suc rounds) s ≡ done (tt, s)
  unfolding await_tasks
  await_alone rounds s busy = rw busy refl

  -- With something to do, the thread does not wait.
  pub fetch_alone :
      (rounds : ℕ) (s : State W InternalRepeatingThread)
      → s.object.condition_mutex ≢ null
      → lacks_tasks s.object ≡ false
      → Post ⊥
          (λ r u.
            (r ≡ (s.object.active_tasks, s.object.status))
            × Has (take_tasks s.object.active_tasks s.object) (calls s.world) r u)
          (fetch p (suc rounds) s)
  unfolding fetch
  fetch_alone rounds s mutex busy =
      let Q : ℕ × ℕ → State W InternalRepeatingThread → Type 0 = λ r u.
        (r ≡ (s.object.active_tasks, s.object.status))
        × Has (take_tasks s.object.active_tasks s.object) (calls s.world) r u in
      Post-bind ⊥ (Has s.object (calls s.world)) Q
        (with_null_error (Mutex.grab p s.object.condition_mutex) s) _
        (grab_alone s.object.condition_mutex s mutex)
        λ r t (same, same_calls).
          let taken : State W InternalRepeatingThread = record t {
            object = take_tasks t.object.active_tasks t.object;
          } in
          Post-step ⊥ Q (await_tasks p (suc rounds) t) tt t _
            (await_alone rounds t (ap lacks_tasks same ∙ busy))
            (Post-bind ⊥ (Has taken.object (calls t.world)) Q
              (with_null_error (Mutex.release p t.object.condition_mutex) taken) _
              (release_alone t.object.condition_mutex taken (
                subst (λ (o : InternalRepeatingThread). o.condition_mutex ≢ null) (sym same) mutex))
              λ r' u (same', same_calls'). (
                ap (λ (o : InternalRepeatingThread). (o.active_tasks, o.status)) same,
                (
                  same' ∙ ap (λ (o : InternalRepeatingThread). take_tasks o.active_tasks o) same,
                  same_calls' ∙ same_calls,
                ),
              ))
