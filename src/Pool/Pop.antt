-- ===== src/Pool/Pop.antt =====
-- libcthreads_internal_thread_pool_pop.
use libcthreads.Common.{ℕ, ◌≡◌, ◌≢◌, ◌⊎◌, inl, inr, true, false, none, [], arith, Bool-cases}
use libcthreads.Machine.{Pointer, null, Platform, State, not_done}
use libcthreads.Machine.Post.{Post, Post-weaken, Post-total}
use libcthreads.Queue.{InternalQueue}
use libcthreads.Queue.Valid.{contents, contents_of_zero}
use libcthreads.Queue.Environment.{Threads, Ends}
use libcthreads.Queue.Steps.{Ready, Leaves, finish_lem}
use libcthreads.Queue.Results.{Replies, TakePost, take_lem, Passed, waiting_call_lem}
use libcthreads.Queue.Calls.{Reply, is_empty, take, finish}
use libcthreads.Queue.Pop.{Popped}
use libcthreads.Pool.{PoolWorld, status_exit}
use libcthreads.Pool.Calls.{lacks_work, take_value, pop}

-- A loop that is left with no value is left since the threads are to exit.
exit_of_empty :
    {W : Type 0} (w : PoolWorld W) (q : InternalQueue)
    → lacks_work w q ≡ false
    → is_empty q ≡ true
    → w.members.status ≡ status_exit
exit_of_empty w q leaves empty = ground arith

module _ {W : Type 0} {p : Platform (PoolWorld W) InternalQueue} {Free Held : PoolWorld W → Type 0}
    {F : Type 0} (threads : Threads p Free Held F) where
  -- After a pop from `q'`: there was no value and the threads were to exit, or a value is taken.
  abbrev pub PoolPopped : InternalQueue → Reply → State (PoolWorld W) InternalQueue → Type 0
  PoolPopped q' r t =
      ((w : PoolWorld W) × Held w
        × (w.members.status ≡ status_exit)
        × (contents q' ≡ [])
        × (t.object ≡ q')
        × Replies threads (not_done, none) r)
      ⊎ Popped threads q' r t

  take_value_lem :
      (t : State (PoolWorld W) InternalQueue)
      → Ready t.object
      → Held t.world
      → lacks_work t.world t.object ≡ false
      → Post ⊥ (λ r u. Free u.world × PoolPopped t.object r u) (take_value p t)
  unfolding take_value
  take_value_lem t ready held leaves = elim (Bool-cases (is_empty t.object)) [
    | inl empty ↦ rw empty (
        Post-weaken ⊥ (Leaves threads (not_done, none) t.object)
          (λ r u. Free u.world × PoolPopped t.object r u) (finish p (not_done, none) t)
          (finish_lem threads (not_done, none) t ready.handles held)
          λ r u (same, free, reply). (
            free,
            inl (
              t.world,
              held,
              exit_of_empty t.world t.object leaves empty,
              contents_of_zero t.object (ground (arith, empty)),
              same,
              reply,
            ),
          ))
    | inr value ↦ rw value (
        Post-weaken ⊥ (TakePost threads t.object) (λ r u. Free u.world × PoolPopped t.object r u)
          (take p t) (take_lem threads t ready (ground (arith, value)) held)
          λ r u (v, taken, free, reply). (free, inr (v, taken, reply)))
  ]

  -- libcthreads_internal_thread_pool_pop, on a pool that exists, by a caller that does not hold the
  -- mutex, and whatever the threads library answers within `Threads`: it stays in bounds; other
  -- threads take the values to some `q'` while it waits; then it fails and leaves `q'`; or it finds no
  -- value with the status set to exit, changes nothing and replies 0; or it takes the oldest value
  -- off `q'` and stores it, which it does also where a later failure makes the reply -1. The mutex is
  -- free again on each path. Where the rounds suffice (`T` is `⊥`) it ends.
  pub pool_pop-PoolPopped :
      (T : Type 0) (rounds : ℕ) (thread_pool : Pointer) (s : State (PoolWorld W) InternalQueue)
      → thread_pool ≢ null
      → Ready s.object
      → Free s.world
      → Ends p lacks_work
          (λ q. q.empty_condition)
          T
          rounds
          (p.pthread_mutex_lock s.object.condition_mutex s.world s.object).1
          (p.pthread_mutex_lock s.object.condition_mutex s.world s.object).2
      → Post T (Passed threads PoolPopped s.object) (pop p rounds thread_pool s)
  unfolding pop
  pool_pop-PoolPopped T rounds thread_pool s set ready free ends =
      waiting_call_lem threads T PoolPopped rounds lacks_work (λ q. q.empty_condition) thread_pool
        (take_value p) s (λ q h. h.empty) set ready free ends
        λ t ready' held leaves.
          Post-total T (λ r u. Free u.world × PoolPopped t.object r u) (take_value p t)
            (take_value_lem t ready' held leaves)
