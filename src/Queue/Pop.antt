-- ===== src/Queue/Pop.antt =====
-- libcthreads_queue_pop, libcthreads_queue_try_pop and libcthreads_queue_empty.
use libcthreads.Common.{ℕ, ◌≡◌, ◌≢◌, ◌⊎◌, inl, inr, false, none, some, [], ◌==◌, arith, Bool-cases}
use libcthreads.Machine.{Pointer, null, Platform, State, success, not_done}
use libcthreads.Machine.Post.{Post, Post-weaken, Post-total}
use libcthreads.Queue.{InternalQueue}
use libcthreads.Queue.Valid.{contents, contents_of_zero}
use libcthreads.Queue.Others.{Others-refl}
use libcthreads.Queue.Environment.{Threads, Ends}
use libcthreads.Queue.Steps.{Ready, Leaves, finish_lem}
use libcthreads.Queue.Results.{
  Taken, Replies, TakePost, take_lem, Passed, plain_call_lem, waiting_call_lem,
}
use libcthreads.Queue.Calls.{Reply, is_empty, has_values, take, finish, pop, try_pop, empty}

module _ {W : Type 0} {p : Platform W InternalQueue} {Free Held : W → Type 0} {F : Type 0}
    (threads : Threads p Free Held F) where
  -- After a pop from `q'`: the oldest value is taken off and stored.
  abbrev pub Popped : InternalQueue → Reply → State W InternalQueue → Type 0
  Popped q' r t = (v : Pointer) × Taken v q' t.object × Replies threads (success, some v) r

  -- libcthreads_queue_pop, on a queue that exists, by a caller that does not hold the mutex,
  -- and whatever the threads library answers within `Threads`: it stays in bounds; other
  -- threads take the queue to some `q'` while it waits; then it either fails and leaves `q'`,
  -- or takes the oldest value off `q'` and stores it, which it does also where a later failure
  -- makes the reply -1. The mutex is free again on each path. Where the rounds suffice (`T` is
  -- `⊥`) it ends.
  pub pop-Popped :
      (T : Type 0) (rounds : ℕ) (queue value : Pointer) (s : State W InternalQueue)
      → queue ≢ null
      → value ≢ null
      → Ready s.object
      → Free s.world
      → Ends p
          (λ w. is_empty)
          (λ q. q.empty_condition)
          T
          rounds
          (p.pthread_mutex_lock s.object.condition_mutex s.world s.object).1
          (p.pthread_mutex_lock s.object.condition_mutex s.world s.object).2
      → Post T (Passed threads Popped s.object) (pop p rounds queue value s)
  unfolding pop
  pop-Popped T rounds queue value s queue_set value_set ready free ends =
      let f : (value == null) ≡ false = ground arith in
      rw (pop, f)
        (waiting_call_lem threads T Popped rounds (λ w. is_empty) (λ q. q.empty_condition) queue
          (take p) s (λ q h. h.empty) queue_set ready free ends
          λ t ready' held left.
            Post-total T (λ r u. Free u.world × Popped t.object r u) (take p t)
              (Post-weaken ⊥ (TakePost threads t.object) (λ r u. Free u.world × Popped t.object r u)
                (take p t) (take_lem threads t ready' (ground (arith, left)) held)
                λ r u (v, taken, free', reply). (free', (v, taken, reply))))

  -- After a try to pop from `q'`.
  abbrev pub TriedPop : InternalQueue → Reply → State W InternalQueue → Type 0
  TriedPop q' r t =
      ((contents q' ≡ []) × (t.object ≡ q') × Replies threads (not_done, none) r) ⊎ Popped q' r t

  -- On a queue that exists, by a caller that does not hold the mutex, libcthreads_queue_try_pop
  -- ends without a wait: on an empty queue it replies 0 and changes nothing, else it takes the
  -- oldest value off.
  pub try_pop-TriedPop :
      (queue value : Pointer) (s : State W InternalQueue)
      → queue ≢ null
      → value ≢ null
      → Ready s.object
      → Free s.world
      → Post ⊥ (Passed threads TriedPop s.object) (try_pop p queue value s)
  unfolding try_pop
  try_pop-TriedPop queue value s queue_set value_set ready free =
      let f : (value == null) ≡ false = ground arith in
      rw (try_pop, f)
        (plain_call_lem threads ⊥ TriedPop queue _ s queue_set ready free
          λ t same_world same ready' held. elim (Bool-cases (is_empty t.object)) [
            | inl none_left ↦ rw none_left (
                Post-weaken ⊥ (Leaves threads (not_done, none) t.object)
                  (Passed threads TriedPop t.object) (finish p (not_done, none) t)
                  (finish_lem threads (not_done, none) t ready'.handles held)
                  λ r u (same', free', reply). (
                    t.object,
                    Others-refl t.object,
                    free',
                    inr (inl (contents_of_zero t.object (ground arith), same', reply)),
                  ))
            | inr left ↦ rw left (
                Post-weaken ⊥ (TakePost threads t.object) (Passed threads TriedPop t.object)
                  (take p t) (take_lem threads t ready' (ground (arith, left)) held)
                  λ r u (v, taken, free', reply).
                    (t.object, Others-refl t.object, free', inr (inr (v, taken, reply))))
          ])

  -- After the wait for `q'` to be empty.
  abbrev pub Emptied : InternalQueue → Reply → State W InternalQueue → Type 0
  Emptied q' r t = (contents q' ≡ []) × (t.object ≡ q') × Replies threads (success, none) r

  -- On a queue that exists, by a caller that does not hold the mutex, libcthreads_queue_empty
  -- removes nothing itself: it waits until other threads have emptied the queue, and leaves it
  -- as they do.
  pub empty-Emptied :
      (T : Type 0) (rounds : ℕ) (queue : Pointer) (s : State W InternalQueue)
      → queue ≢ null
      → Ready s.object
      → Free s.world
      → Ends p
          (λ w. has_values)
          (λ q. q.full_condition)
          T
          rounds
          (p.pthread_mutex_lock s.object.condition_mutex s.world s.object).1
          (p.pthread_mutex_lock s.object.condition_mutex s.world s.object).2
      → Post T (Passed threads Emptied s.object) (empty p rounds queue s)
  unfolding empty
  empty-Emptied T rounds queue s queue_set ready free ends =
      waiting_call_lem threads T Emptied rounds (λ w. has_values) (λ q. q.full_condition) queue
        (finish p (success, none)) s (λ q h. h.full) queue_set ready free ends
        λ t ready' held none_left.
          Post-total T (λ r u. Free u.world × Emptied t.object r u) (finish p (success, none) t)
            (Post-weaken ⊥ (Leaves threads (success, none) t.object)
              (λ r u. Free u.world × Emptied t.object r u) (finish p (success, none) t)
              (finish_lem threads (success, none) t ready'.handles held)
              λ r u (same', free', reply).
                (free', (contents_of_zero t.object (ground (arith, none_left)), same', reply)))
