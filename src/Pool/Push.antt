-- ===== src/Pool/Push.antt =====
-- libcthreads_thread_pool_push and libcthreads_thread_pool_push_sorted, which do what those of a queue
-- do.
use libcthreads.Common.{ℕ, ◌≢◌, some, ◌==◌, ◌<◌}
use libcthreads.Machine.{Pointer, null, Platform, State}
use libcthreads.Machine.Post.{Post}
use libcthreads.Queue.{InternalQueue}
use libcthreads.Queue.Ring.{Compare}
use libcthreads.Queue.Environment.{Threads, Ends}
use libcthreads.Queue.Steps.{Ready}
use libcthreads.Queue.Results.{Passed}
use libcthreads.Queue.Push.{Pushed, push-Pushed}
use libcthreads.Queue.Sorted.{Sorted, push_sorted-Sorted}
use libcthreads.Queue.Calls as QueueCalls
use libcthreads.Queue.Calls.{is_full}
use libcthreads.Pool.{PoolWorld}
use libcthreads.Pool.Calls.{push, push_sorted}

module _ {W : Type 0} {p : Platform (PoolWorld W) InternalQueue} {Free Held : PoolWorld W → Type 0}
    {F : Type 0} (threads : Threads p Free Held F) where
  -- libcthreads_thread_pool_push, on a pool that exists, by a caller that does not hold the mutex, and
  -- whatever the threads library answers within `Threads`: it stays in bounds; other threads take the
  -- values to some `q'` while it waits; then it fails and leaves `q'`, or appends the value to `q'`,
  -- which has room, also where a later failure makes the reply -1. The mutex is free again on each
  -- path. Where the rounds suffice (`T` is `⊥`) it ends.
  pub pool_push-Pushed :
      (T : Type 0) (rounds : ℕ) (thread_pool v : Pointer) (s : State (PoolWorld W) InternalQueue)
      → thread_pool ≢ null
      → v ≢ null
      → Ready s.object
      → Free s.world
      → Ends p
          (λ w. is_full)
          (λ q. q.full_condition)
          T
          rounds
          (p.pthread_mutex_lock s.object.condition_mutex s.world s.object).1
          (p.pthread_mutex_lock s.object.condition_mutex s.world s.object).2
      → Post T (Passed threads (Pushed threads v) s.object) (push p rounds thread_pool v s)
  unfolding push QueueCalls.push
  pool_push-Pushed T rounds thread_pool v s pool_set v_set ready free ends =
      push-Pushed threads T rounds thread_pool v s pool_set v_set ready free ends

  -- libcthreads_thread_pool_push_sorted, on a pool that exists, by a caller that does not hold the
  -- mutex, and whatever the threads library answers within `Threads`, for the sort flags 0 and 1: it
  -- stays in bounds; other threads take the values to some `q'` while it waits; then it fails and
  -- leaves `q'`, or does what `place` does to the list of values of `q'`: the value gets its place,
  -- or the reply is 0 where it is there already and values are to be unique, or -1 where the
  -- comparison fails. The mutex is free again on each path. Where the rounds suffice (`T` is `⊥`) it
  -- ends.
  pub pool_push_sorted-Sorted :
      (T : Type 0) (rounds : ℕ) (thread_pool v : Pointer) (compare : Compare) (flags : ℕ)
      (s : State (PoolWorld W) InternalQueue)
      → thread_pool ≢ null
      → v ≢ null
      → flags < 2
      → Ready s.object
      → Free s.world
      → Ends p
          (λ w. is_full)
          (λ q. q.full_condition)
          T
          rounds
          (p.pthread_mutex_lock s.object.condition_mutex s.world s.object).1
          (p.pthread_mutex_lock s.object.condition_mutex s.world s.object).2
      → Post T
          (Passed threads (Sorted threads compare (flags == 1) v) s.object)
          (push_sorted p rounds thread_pool v (some compare) flags s)
  unfolding push_sorted QueueCalls.push_sorted
  pool_push_sorted-Sorted T rounds thread_pool v compare flags s pool_set v_set small ready free
        ends =
      push_sorted-Sorted threads T rounds thread_pool v compare flags s pool_set v_set small ready
        free ends
