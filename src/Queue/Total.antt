-- ===== src/Queue/Total.antt =====
-- The calls that wait, where the threads library does not fail and other threads make progress.
use libcthreads.Common.{ℕ, ◌≡◌, ◌≢◌, inl, inr, ap, ◌∙◌, none, some, []}
use libcthreads.Machine.{Pointer, null, Platform, State, success}
use libcthreads.Machine.Exec.{done}
use libcthreads.Machine.Post.{Post-done}
use libcthreads.Queue.{InternalQueue}
use libcthreads.Queue.Valid.{contents}
use libcthreads.Queue.Others.{Others}
use libcthreads.Queue.Environment.{Threads, Reaches, Reaches-Ends}
use libcthreads.Queue.Steps.{Ready}
use libcthreads.Queue.Results.{Appended, Taken, Passed}
use libcthreads.Queue.Calls.{Reply, is_full, is_empty, has_values, push, pop, empty}
use libcthreads.Queue.Push.{Pushed, push-Pushed}
use libcthreads.Queue.Pop.{Popped, pop-Popped, Emptied, empty-Emptied}

module _ {W : Type 0} {p : Platform W InternalQueue} {Free Held : W → Type 0}
    (threads : Threads p Free Held ⊥) where
  -- The call grabs the mutex at this world and queue.
  abbrev pub world_locked : State W InternalQueue → W
  world_locked s = (p.pthread_mutex_lock s.object.condition_mutex s.world s.object).1

  abbrev pub queue_locked : State W InternalQueue → InternalQueue
  queue_locked s = (p.pthread_mutex_lock s.object.condition_mutex s.world s.object).2

  -- On a queue that exists, by a caller that does not hold the mutex, libcthreads_queue_push
  -- returns 1 if no call of the threads library fails and other threads make room in fewer than
  -- `rounds` waits: the value is then the last of the queue as they left it.
  pub push_total :
      (rounds : ℕ) (queue v : Pointer) (s : State W InternalQueue)
      → queue ≢ null
      → v ≢ null
      → Ready s.object
      → Free s.world
      → Reaches p (λ w. is_full) (λ q. q.full_condition) rounds (world_locked s) (queue_locked s)
      → (t : State W InternalQueue) × (push p rounds queue v s ≡ done ((success, none), t))
        × Free t.world
        × ((q' : InternalQueue) × Others s.object q' × Appended v q' t.object)
  push_total rounds queue v s queue_set v_set ready free reaches =
      let (a, t, runs, (q', others, free', result)) =
        Post-done (Passed threads (Pushed threads v) s.object) _ (
          push-Pushed threads ⊥ rounds queue v s queue_set v_set ready free
            (Reaches-Ends p (λ w. is_full) (λ q. q.full_condition) rounds _ _ reaches)) in
      elim result [
        | inl f ↦ absurd f.0
        | inr (appended, inl reply) ↦
            (t, runs ∙ ap (λ (r : Reply). done (r, t)) reply, free', (q', others, appended))
        | inr (appended, inr f) ↦ absurd f.0
      ]

  -- On a queue that exists, by a caller that does not hold the mutex, libcthreads_queue_pop
  -- returns 1, with the mutex free, if no call of the threads library fails and other threads push in
  -- fewer than `rounds` waits: it stores the oldest value of the queue as they left it.
  pub pop_total :
      (rounds : ℕ) (queue value : Pointer) (s : State W InternalQueue)
      → queue ≢ null
      → value ≢ null
      → Ready s.object
      → Free s.world
      → Reaches p (λ w. is_empty) (λ q. q.empty_condition) rounds (world_locked s) (queue_locked s)
      → (v : Pointer) × (t : State W InternalQueue) × (pop p rounds queue value s
          ≡ done ((success, some v), t))
        × Free t.world
        × ((q' : InternalQueue) × Others s.object q' × Taken v q' t.object)
  pop_total rounds queue value s queue_set value_set ready free reaches =
      let (a, t, runs, (q', others, free', result)) =
        Post-done (Passed threads (Popped threads) s.object) _ (
          pop-Popped threads ⊥ rounds queue value s queue_set value_set ready free
            (Reaches-Ends p (λ w. is_empty) (λ q. q.empty_condition) rounds _ _ reaches)) in
      elim result [
        | inl f ↦ absurd f.0
        | inr (v, taken, inl reply) ↦
            (v, t, runs ∙ ap (λ (r : Reply). done (r, t)) reply, free', (q', others, taken))
        | inr (v, taken, inr f) ↦ absurd f.0
      ]

  -- On a queue that exists, by a caller that does not hold the mutex, libcthreads_queue_empty
  -- returns 1 if no call of the threads library fails and other threads take all values in
  -- fewer than `rounds` waits.
  pub empty_total :
      (rounds : ℕ) (queue : Pointer) (s : State W InternalQueue)
      → queue ≢ null
      → Ready s.object
      → Free s.world
      → Reaches p (λ w. has_values) (λ q. q.full_condition) rounds (world_locked s) (queue_locked s)
      → (t : State W InternalQueue) × (empty p rounds queue s ≡ done ((success, none), t))
        × Free t.world
        × Others s.object t.object
        × (contents t.object ≡ [])
  empty_total rounds queue s queue_set ready free reaches =
      let (a, t, runs, (q', others, free', result)) =
        Post-done (Passed threads (Emptied threads) s.object) _ (
          empty-Emptied threads ⊥ rounds queue s queue_set ready free
            (Reaches-Ends p (λ w. has_values) (λ q. q.full_condition) rounds _ _ reaches)) in
      elim result [
        | inl f ↦ absurd f.0
        | inr (none_left, same, inl reply) ↦ (
          t,
          runs ∙ ap (λ (r : Reply). done (r, t)) reply,
          free',
          rw same others,
          rw same none_left,
        )
        | inr (none_left, same, inr f) ↦ absurd f.0
      ]
