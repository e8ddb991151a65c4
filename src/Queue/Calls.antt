-- ===== src/Queue/Calls.antt =====
-- The functions of libcthreads_queue.c that are called on a queue that exists.
-- `queue` is the address of the structure, which is the machine's object; `value` in a pop is the
-- address that the result goes to, and the model returns beside the result what is stored there.
-- The first argument of a function that waits is the number of rounds that its loop is given.
use libcthreads.Common.{
  ℕ, zero, suc, Bool, true, false, not, Option, none, some, ℤ, ◌==ℤ◌, ◌==◌, bit_and, if◌then◌else◌,
}
use mathlib.Core.Option
use libcthreads.Machine.{
  Pointer, null, Platform, M, ◌>>=◌, ◌>>◌, return, success, failure, not_done, report, fail, refuse,
  with_null_error, access, get_object,
}
use libcthreads.Machine.ErrorCode.{
  arguments_invalid_value, arguments_unsupported_value, runtime_value_missing, runtime_set_failed,
}
use libcthreads.Machine.Report.{error_set}
use libcthreads.Machine.Exec.{done, waiting}
use libcthreads.Mutex
use libcthreads.Condition
use libcthreads.Queue.{InternalQueue}
use libcthreads.Queue.Ring.{
  enqueue, dequeue, Compare, Insertion, rejected, duplicate, inserted, insert_sorted,
}

abbrev pub is_empty : InternalQueue → Bool
is_empty q = q.number_of_values == 0

abbrev pub is_full : InternalQueue → Bool
is_full q = q.number_of_values == q.allocated_number_of_values

abbrev pub has_values : InternalQueue → Bool
has_values q = not (q.number_of_values == 0)

abbrev pub lacks_array : InternalQueue → Bool
lacks_array q = elim q.values_array [ none ↦ true | some values ↦ false ]

-- LIBCTHREADS_SORT_FLAG_UNIQUE_VALUES, and its complement in a byte.
abbrev pub sort_flag_unique_values : ℕ
sort_flag_unique_values = 0x01

abbrev pub other_sort_flags : ℕ
other_sort_flags = 0xfe

-- The queue after an insertion.
abbrev pub after : InternalQueue → Insertion → InternalQueue
after q (inserted q') = q'
after q duplicate = q
after q (rejected e) = q

abbrev pub store : Option InternalQueue → Option (Unit {0} × InternalQueue)
store = Option.map (λ q. (tt, q))

-- The result of a call, and what it stored in `*value`: `none` if nothing, as in a push.
abbrev pub Reply : Type 0
Reply = ℤ × Option Pointer

module _ {W : Type 0} (p : Platform W InternalQueue) where
  -- The `on_error` label of a call that holds the mutex.
  unfoldable pub on_error : Option Pointer → M W InternalQueue Reply
  on_error stored = do
    q ← get_object
    with_null_error (Mutex.release p q.condition_mutex)
    return (failure, stored)

  -- The release before the last `return( result )`.
  unfoldable pub finish : Reply → M W InternalQueue Reply
  finish reply = do
    q ← get_object
    released ← Mutex.release p q.condition_mutex
    (if released ==ℤ success then return reply else refuse reply.1 (error_set runtime_set_failed))

  -- A broadcast, then the release.
  unfoldable pub announce : (InternalQueue → Pointer) → Option Pointer → M W InternalQueue Reply
  announce condition stored = do
    q ← get_object
    sent ← Condition.broadcast p (condition q)
    (if sent ==ℤ success
        then finish (success, stored)
        else do report (error_set runtime_set_failed); on_error stored)

  -- while( test ) { libcthreads_condition_wait }: 1 when the test fails, -1 when the wait does.
  unfoldable pub wait_while :
      ℕ → (W → InternalQueue → Bool) → (InternalQueue → Pointer) → M W InternalQueue ℤ
  wait_while zero test condition s = waiting
  wait_while (suc rounds) test condition s = elim (test s.world s.object) [
    | false ↦ done (success, s)
    | true ↦
        (do
          woken ← Condition.wait p (condition s.object) s.object.condition_mutex
          (if woken ==ℤ success
              then wait_while rounds test condition
              else fail (error_set runtime_set_failed)))
          s
  ]

  -- Grabs the mutex and goes on with `body`.
  unfoldable pub locked : M W InternalQueue Reply → M W InternalQueue Reply
  locked body = do
    q ← get_object
    grabbed ← Mutex.grab p q.condition_mutex
    (if grabbed ==ℤ success then body else refuse none (error_set runtime_set_failed))

  -- Waits, then goes on with `body`.
  unfoldable pub waited :
      ℕ
      → (W → InternalQueue → Bool)
      → (InternalQueue → Pointer)
      → M W InternalQueue Reply
      → M W InternalQueue Reply
  waited rounds test condition body = do
    woken ← wait_while rounds test condition
    (if woken ==ℤ success then body else on_error none)

  -- Checks the queue and its array, the first two guards of each function.
  unfoldable pub checked : Pointer → M W InternalQueue Reply → M W InternalQueue Reply
  checked queue body = if queue == null then refuse none (error_set arguments_invalid_value) else do
    q ← get_object
    (if lacks_array q then refuse none (error_set runtime_value_missing) else body)

  unfoldable pub empty : ℕ → Pointer → M W InternalQueue Reply
  empty rounds queue =
      checked queue
        (locked (waited rounds (λ w. has_values) (λ q. q.full_condition) (finish (success, none))))

  -- The value is taken and the waiting producers are woken.
  unfoldable pub take : M W InternalQueue Reply
  take = do value ← access dequeue; announce (λ q. q.full_condition) (some value)

  unfoldable pub try_pop : Pointer → Pointer → M W InternalQueue Reply
  try_pop queue value = checked queue (
      if value == null
      then refuse none (error_set arguments_invalid_value)
      else locked (do q ← get_object; (if is_empty q then finish (not_done, none) else take)))

  unfoldable pub pop : ℕ → Pointer → Pointer → M W InternalQueue Reply
  pop rounds queue value = checked queue (
      if value == null
      then refuse none (error_set arguments_invalid_value)
      else locked (waited rounds (λ w. is_empty) (λ q. q.empty_condition) take))

  -- The value is written and the waiting consumers are woken.
  unfoldable pub put : Pointer → M W InternalQueue Reply
  put value = do access (λ q. store (enqueue value q)); announce (λ q. q.empty_condition) none

  unfoldable pub try_push : Pointer → Pointer → M W InternalQueue Reply
  try_push queue value = checked queue (
      if value == null
      then refuse none (error_set arguments_invalid_value)
      else locked (do q ← get_object; (if is_full q then finish (not_done, none) else put value)))

  unfoldable pub push : ℕ → Pointer → Pointer → M W InternalQueue Reply
  push rounds queue value = checked queue (
      if value == null
      then refuse none (error_set arguments_invalid_value)
      else locked (waited rounds (λ w. is_full) (λ q. q.full_condition) (put value)))

  -- What push_sorted does once there is room.
  unfoldable pub put_sorted : Compare → Bool → Pointer → M W InternalQueue Reply
  put_sorted compare unique value = do
    insertion ←
        access (λ q. Option.map (λ i. (i, after q i)) (insert_sorted compare unique value q))
    elim insertion [
      | rejected e ↦ (do report (error_set e); on_error none)
      | duplicate ↦ finish (not_done, none)
      | inserted q ↦ announce (λ q'. q'.empty_condition) none
    ]

  -- `value_compare_function` is `none` for NULL.
  unfoldable pub push_sorted : ℕ → Pointer → Pointer → Option Compare → ℕ → M W InternalQueue Reply
  push_sorted rounds queue value value_compare_function sort_flags = checked queue (
      if value == null
      then refuse none (error_set arguments_invalid_value)
      else elim value_compare_function [
        | none ↦ refuse none (error_set arguments_invalid_value)
        | some compare ↦
            if not (bit_and sort_flags other_sort_flags == 0)
            then refuse none (error_set arguments_unsupported_value)
            else locked (
                waited rounds (λ w. is_full) (λ q. q.full_condition)
                  (put_sorted compare (not (bit_and sort_flags sort_flag_unique_values == 0))
                    value))
      ])
