-- ===== src/Pool/Lifetime.antt =====
-- libcthreads_thread_pool_join. The machine's object holds the members of the structure at
-- `*thread_pool` that a queue has as well, and the world the others.
use libcthreads.Common.{
  ℕ, zero, suc, ◌+◌, ◌^◌, Option, none, some, ℤ, pos, negsuc, ◌==ℤ◌, ◌==◌, ◌-◌, if◌then◌else◌,
}
use libcthreads.Handle.Members.{release_memory}
use libcthreads.Machine.{
  Pointer, null, Platform, M, ◌>>=◌, ◌>>◌, return, success, failure, refuse, fail, blocking_call,
  get_object,
}
use libcthreads.Machine.ErrorCode.{
  arguments_invalid_value, runtime_value_missing, runtime_set_failed,
}
use libcthreads.Machine.Report.{error_set}
use libcthreads.Mutex
use libcthreads.Condition
use libcthreads.Joining.{join_result, stored_value, free_value}
use libcthreads.Queue.{InternalQueue}
use libcthreads.Queue.Calls.{has_values, wait_while}
use libcthreads.Queue.Lifetime.{free_handles}
use libcthreads.Pool.{Members, PoolWorld, status_exit, get_members, update_members, read_thread}

-- An `int` as the `uint32_t` that it is converted to.
abbrev pub error_code_of : ℤ → ℕ
error_code_of (pos n) = n
error_code_of (negsuc n) = 2 ^ 32 - suc n

abbrev pub put_status : ℕ → Members → Members
put_status status m = record m { status = status }

module _ {W : Type 0} (p : Platform (PoolWorld W) InternalQueue) where
  -- The loop over the threads, from `thread_index` on, with the number of rounds left.
  unfoldable pub join_threads : ℕ → ℕ → ℤ → M (PoolWorld W) InternalQueue ℤ
  join_threads zero thread_index result = return result
  join_threads (suc rounds) thread_index result = do
    thread ← read_thread thread_index
    answer ← blocking_call (p.pthread_join thread)
    joined_result ← join_result p (error_code_of result) answer.0 answer.1 result
    free_value p (stored_value answer.0 answer.1)
    join_threads rounds (thread_index + 1) joined_result

  -- The result so far, or -1 with a report where `answer` is not 1.
  abbrev pub go_on : ℤ → ℤ → M (PoolWorld W) InternalQueue ℤ
  go_on answer result =
      if answer ==ℤ success then return result else fail (error_set runtime_set_failed)

  -- What follows the grab: the threads are woken, and the values waited for, where a failing wait is
  -- reported by the loop.
  unfoldable pub drain : ℕ → M (PoolWorld W) InternalQueue ℤ
  drain rounds = do
    update_members (put_status status_exit)
    q ← get_object
    sent ← Condition.broadcast p q.empty_condition
    result ← go_on sent success
    woken ← wait_while p rounds (λ w. has_values) (λ q. q.full_condition)
    return (if woken ==ℤ success then result else failure)

  -- What follows the release of the mutex.
  unfoldable pub dismantle :
      Pointer → Pointer → Pointer → ℤ → M (PoolWorld W) InternalQueue (ℤ × Option Pointer)
  dismantle threads_array values_array thread_pool drained = do
    m ← get_members
    joined ← join_threads m.number_of_threads 0 drained
    result ← free_handles p joined
    release_memory p threads_array
    release_memory p values_array
    release_memory p thread_pool
    return (result, some null)

  -- The release, and what follows it.
  unfoldable pub leave :
      Pointer → Pointer → Pointer → ℤ → M (PoolWorld W) InternalQueue (ℤ × Option Pointer)
  leave threads_array values_array thread_pool drained = do
    q ← get_object
    released ← Mutex.release p q.condition_mutex
    (if released ==ℤ success
        then dismantle threads_array values_array thread_pool drained
        else refuse (some null) (error_set runtime_set_failed))

  -- `threads_array` and `values_array` are the addresses of the arrays.
  unfoldable pub join :
      ℕ → Pointer → Pointer → Option Pointer → M (PoolWorld W) InternalQueue (ℤ × Option Pointer)
  join rounds threads_array values_array none = refuse none (error_set arguments_invalid_value)
  join rounds threads_array values_array (some thread_pool) =
      if thread_pool == null then refuse (some null) (error_set runtime_value_missing) else do
        q ← get_object
        grabbed ← Mutex.grab p q.condition_mutex
        (if grabbed ==ℤ success
            then (do drained ← drain rounds; leave threads_array values_array thread_pool drained)
            else refuse (some null) (error_set runtime_set_failed))
