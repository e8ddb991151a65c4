-- ===== src/Pool/Calls.antt =====
-- The functions of libcthreads_thread_pool.c that work on the values of a pool, and the start
-- function of its threads. The first argument of a function that waits is the number of rounds that
-- its loop is given.
use libcthreads.Common.{
  ℕ, zero, suc, Bool, not, Option, none, some, ℤ, ◌&&◌, ◌==ℤ◌, ◌==◌, bit_and, if◌then◌else◌,
}
use libcthreads.Handle.Members.{address_in}
use libcthreads.Machine.{
  Pointer, null, Platform, M, ◌>>=◌, return, success, failure, not_done, refuse, call, get_object,
  Structure,
}
use libcthreads.Machine.ErrorCode.{arguments_invalid_value, arguments_unsupported_value}
use libcthreads.Machine.Report.{error_set}
use libcthreads.Machine.Exec.{waiting}
use libcthreads.Queue.{InternalQueue}
use libcthreads.Queue.Ring.{Compare}
use libcthreads.Queue.Calls.{
  Reply, is_empty, is_full, finish, locked, waited, checked, take, put, put_sorted,
  sort_flag_unique_values, other_sort_flags,
}
use libcthreads.Pool.{PoolWorld, status_exit, get_members}

-- The tests of the loop in pop: wait while there is no value, unless the threads are to exit.
abbrev pub lacks_work : {W : Type 0} → PoolWorld W → InternalQueue → Bool
lacks_work w q = is_empty q && not (w.members.status == status_exit)

-- The first result that is not 1 stays.
abbrev pub worst : ℤ → ℤ → ℤ
worst callback_function_result result =
    if not (callback_function_result ==ℤ success) && result ==ℤ success
    then callback_function_result
    else result

module _ {W : Type 0} (p : Platform (PoolWorld W) InternalQueue) where
  -- What pop does once the loop has ended.
  unfoldable pub take_value : M (PoolWorld W) InternalQueue Reply
  take_value = do q ← get_object; (if is_empty q then finish p (not_done, none) else take p)

  unfoldable pub pop : ℕ → Pointer → M (PoolWorld W) InternalQueue Reply
  pop rounds thread_pool =
      checked p thread_pool
        (locked p (waited p rounds lacks_work (λ q. q.empty_condition) take_value))

  unfoldable pub push : ℕ → Pointer → Pointer → M (PoolWorld W) InternalQueue Reply
  push rounds thread_pool value = checked p thread_pool (
      if value == null
      then refuse none (error_set arguments_invalid_value)
      else locked p (waited p rounds (λ w. is_full) (λ q. q.full_condition) (put p value)))

  -- What push_sorted does once there is room: the statements are those of a queue's push_sorted.
  abbrev pub put_in_order : Compare → Bool → Pointer → M (PoolWorld W) InternalQueue Reply
  put_in_order = put_sorted p

  -- `value_compare_function` is `none` for NULL.
  unfoldable pub push_sorted :
      ℕ → Pointer → Pointer → Option Compare → ℕ → M (PoolWorld W) InternalQueue Reply
  push_sorted rounds thread_pool value value_compare_function sort_flags = checked p thread_pool (
      if value == null
      then refuse none (error_set arguments_invalid_value)
      else elim value_compare_function [
        | none ↦ refuse none (error_set arguments_invalid_value)
        | some compare ↦
            if not (bit_and sort_flags other_sort_flags == 0)
            then refuse none (error_set arguments_unsupported_value)
            else locked p (
                waited p rounds (λ w. is_full) (λ q. q.full_condition)
                  (put_in_order compare (not (bit_and sort_flags sort_flag_unique_values == 0))
                    value))
      ])

  -- A function of the program, given its address: `run f value arguments` calls it.
  module _ (run : Pointer → Pointer → Pointer → M (PoolWorld W) InternalQueue ℤ) where
    -- The loop of a thread of the pool, with the rounds left for it and the rounds of each pop: the
    -- `int` that the thread returns.
    unfoldable pub work : ℕ → ℕ → Pointer → ℤ → M (PoolWorld W) InternalQueue ℤ
    work zero rounds thread_pool result s = waiting
    work (suc fuel) rounds thread_pool result s =
        (do
          popped ← pop rounds thread_pool
          (if popped.0 ==ℤ failure
              then return failure
              else if not (popped.0 ==ℤ not_done)
              then (do
                m ← get_members
                called ← run m.callback_function (address_in popped.1) m.callback_function_arguments
                work fuel rounds thread_pool (worst called result))
              else (do
                m ← get_members
                (if m.status == status_exit
                    then return result
                    else work fuel rounds thread_pool result))))
          s

    unfoldable pub callback_function_helper :
        ℕ → ℕ → Pointer → M (PoolWorld W) InternalQueue (Option (Pointer × ℤ))
    callback_function_helper fuel rounds arguments = if arguments == null then return none else do
      m ← get_members
      (if m.callback_function == null then return none else do
        result ← call (p.memory_allocate (p.sizeof Structure.int_value))
        (if result == null
            then return none
            else do value ← work fuel rounds arguments success; return (some (result, value))))
