-- ===== src/Queue/Push.antt =====
-- libcthreads_queue_push and libcthreads_queue_try_push.
use libcthreads.Common.{ℕ, ◌≡◌, ◌≢◌, ◌⊎◌, inl, inr, false, none, ◌==◌, arith, Bool-cases}
use libcthreads.Machine.{Pointer, null, Platform, State, success, not_done}
use libcthreads.Machine.Post.{Post, Post-weaken, Post-total}
use libcthreads.Queue.{InternalQueue}
use libcthreads.Queue.Others.{Others-refl}
use libcthreads.Queue.Environment.{Threads, Ends}
use libcthreads.Queue.Steps.{Ready, Leaves, finish_lem}
use libcthreads.Queue.Results.{
  Appended, Replies, PutPost, put_lem, Passed, plain_call_lem, waiting_call_lem,
}
use libcthreads.Queue.Calls.{Reply, is_full, put, finish, push, try_push}

module _ {W : Type 0} {p : Platform W InternalQueue} {Free Held : W → Type 0} {F : Type 0}
    (threads : Threads p Free Held F) where
  -- After a push of `v` onto `q'`.
  abbrev pub Pushed : Pointer → InternalQueue → Reply → State W InternalQueue → Type 0
  Pushed v q' r t = Appended v q' t.object × Replies threads (success, none) r

  -- libcthreads_queue_push, on a queue that exists, by a caller that does not hold the mutex,
  -- and whatever the threads library answers within `Threads`: it stays in bounds; other
  -- threads take the queue to some `q'` while it waits; then it either fails and leaves `q'`,
  -- or appends the value to a `q'` with room, which it does also where a later failure makes
  -- the reply -1. The mutex is free again on each path. Where the rounds suffice (`T` is `⊥`)
  -- it ends.
  pub push-Pushed :
      (T : Type 0) (rounds : ℕ) (queue v : Pointer) (s : State W InternalQueue)
      → queue ≢ null
      → v ≢ null
      → Ready s.object
      → Free s.world
      → Ends p
          (λ w. is_full)
          (λ q. q.full_condition)
          T
          rounds
          (p.pthread_mutex_lock s.object.condition_mutex s.world s.object).1
          (p.pthread_mutex_lock s.object.condition_mutex s.world s.object).2
      → Post T (Passed threads (Pushed v) s.object) (push p rounds queue v s)
  unfolding push
  push-Pushed T rounds queue v s queue_set v_set ready free ends =
      let f : (v == null) ≡ false = ground arith in
      rw (push, f)
        (waiting_call_lem threads T (Pushed v) rounds (λ w. is_full) (λ q. q.full_condition) queue
          (put p v) s (λ q h. h.full) queue_set ready free ends
          λ t ready' held room.
            Post-total T (λ r u. Free u.world × Pushed v t.object r u) (put p v t)
              (Post-weaken ⊥ (PutPost threads v t.object)
                (λ r u. Free u.world × Pushed v t.object r u) (put p v t)
                (put_lem threads v t ready' (ground (arith, room)) held)
                λ r u (appended, free', reply). (free', (appended, reply))))

  -- After a try to push `v` onto `q'`.
  abbrev pub TriedPush : Pointer → InternalQueue → Reply → State W InternalQueue → Type 0
  TriedPush v q' r t =
      ((q'.number_of_values ≡ q'.allocated_number_of_values)
        × (t.object ≡ q')
        × Replies threads (not_done, none) r)
      ⊎ Pushed v q' r t

  -- On a queue that exists, by a caller that does not hold the mutex,
  -- libcthreads_queue_try_push ends without a wait: on a full queue it replies 0 and changes
  -- nothing, else it appends the value.
  pub try_push-TriedPush :
      (queue v : Pointer) (s : State W InternalQueue)
      → queue ≢ null
      → v ≢ null
      → Ready s.object
      → Free s.world
      → Post ⊥ (Passed threads (TriedPush v) s.object) (try_push p queue v s)
  unfolding try_push
  try_push-TriedPush queue v s queue_set v_set ready free =
      let f : (v == null) ≡ false = ground arith in
      rw (try_push, f)
        (plain_call_lem threads ⊥ (TriedPush v) queue _ s queue_set ready free
          λ t same_world same ready' held. elim (Bool-cases (is_full t.object)) [
            | inl full ↦ rw full (
                Post-weaken ⊥ (Leaves threads (not_done, none) t.object)
                  (Passed threads (TriedPush v) t.object) (finish p (not_done, none) t)
                  (finish_lem threads (not_done, none) t ready'.handles held)
                  λ r u (same', free', reply).
                    (t.object, Others-refl t.object, free', inr (inl (ground arith, same', reply))))
            | inr room ↦ rw room (
                Post-weaken ⊥ (PutPost threads v t.object) (Passed threads (TriedPush v) t.object)
                  (put p v t) (put_lem threads v t ready' (ground (arith, room)) held)
                  λ r u (appended, free', reply).
                    (t.object, Others-refl t.object, free', inr (inr (appended, reply))))
          ])
