-- ===== src/Queue/Lifetime.antt =====
-- libcthreads_queue_initialize and libcthreads_queue_free, on a 64-bit platform: an `int` has 32
-- bits, and `size_t` and a pointer have 64.
-- `libcthreads_queue_t **queue` is read as `libcthreads_mutex_t **mutex` is in Mutex. The machine's
-- object is the structure at `*queue`, or at `internal_queue` before it is stored there.
use libcthreads.Common.{
  ℕ, zero, suc, ◌+◌, ◌*◌, ◌%◌, ◌^◌, not, Option, none, some, List, [], ◌∷◌, ℤ, pos, negsuc, ◌==ℤ◌,
  ◌==◌, ltb, if◌then◌else◌,
}
use mathlib.Core.Option
use libcthreads.Machine.{
  Pointer, null, Report, Platform, M, ◌>>=◌, ◌>>◌, return, success, failure, report, refuse, call,
  access, get_object, Structure,
}
use libcthreads.Machine.ErrorCode.{
  arguments_invalid_value, arguments_value_less_than_zero, arguments_value_exceeds_maximum,
  memory_insufficient, memory_set_failed, runtime_value_already_set, runtime_value_exceeds_maximum,
  runtime_initialize_failed, runtime_finalize_failed,
}
use libcthreads.Machine.Report.{error_set}
use libcthreads.Mutex
use libcthreads.Condition
use libcthreads.Handle.Members.{release_memory, discard_handle, create_handle, free_handle}
use libcthreads.Queue.{InternalQueue}
use libcthreads.Queue.Ring.{read, write}
use libcthreads.Queue.Calls.{store}

abbrev pub ssize_max : ℕ
ssize_max = 0x7fffffffffffffff

-- SSIZE_MAX / sizeof( intptr_t * )
abbrev pub maximum_of_values : ℕ
maximum_of_values = 0x0fffffffffffffff

-- sizeof( intptr_t * ) * maximum_number_of_values, in `size_t`
abbrev pub size_of_values : ℕ → ℕ
size_of_values maximum_number_of_values = (8 * maximum_number_of_values) % 2 ^ 64

-- An array of `n` null pointers.
abbrev pub cleared_array : ℕ → List Pointer
cleared_array zero = []
cleared_array (suc n) = null ∷ cleared_array n

-- A structure of zero bytes.
abbrev pub cleared_queue : InternalQueue
cleared_queue = record {
  pop_index = 0;
  push_index = 0;
  number_of_values = 0;
  allocated_number_of_values = 0;
  values_array = none;
  condition_mutex = null;
  empty_condition = null;
  full_condition = null;
}

-- The array in its place, with its length.
abbrev pub with_array : ℕ → InternalQueue → InternalQueue
with_array n q = record q { values_array = some (cleared_array n); allocated_number_of_values = n }

abbrev pub put_condition_mutex : Pointer → InternalQueue → InternalQueue
put_condition_mutex a q = record q { condition_mutex = a }

abbrev pub put_empty_condition : Pointer → InternalQueue → InternalQueue
put_empty_condition a q = record q { empty_condition = a }

abbrev pub put_full_condition : Pointer → InternalQueue → InternalQueue
put_full_condition a q = record q { full_condition = a }

-- A free function of values: given the value in a slot, its result and what it leaves in the slot.
abbrev pub ValueFree : Type 0 → Type 0
ValueFree W = Pointer → M W InternalQueue (ℤ × Pointer)

module _ {W : Type 0} (p : Platform W InternalQueue) where
  open p use {memory_allocate, memory_set, memory_free, sizeof}

  -- The `on_error` label, after the error is set; `values_array` is the array's address or NULL.
  unfoldable pub abandon : Pointer → Pointer → Report → M W InternalQueue (ℤ × Option Pointer)
  unfolding release_memory discard_handle
  abandon internal_queue values_array e = do
    report e
    q ← get_object
    discard_handle p (Condition.free p) q.empty_condition
    discard_handle p (Mutex.free p) q.condition_mutex
    (if values_array == null then return tt else release_memory p values_array)
    release_memory p internal_queue
    return (failure, some null)

  unfoldable pub create_handles : Pointer → Pointer → M W InternalQueue (ℤ × Option Pointer)
  create_handles internal_queue values_array =
      let failed = abandon internal_queue values_array (error_set runtime_initialize_failed) in
      create_handle p (Mutex.initialize p) put_condition_mutex failed (
        create_handle p (Condition.initialize p) put_empty_condition failed (
          create_handle p (Condition.initialize p) put_full_condition failed
            (return (success, some internal_queue))))

  -- The array of values, once the structure is cleared.
  unfoldable pub create_values : Pointer → ℕ → M W InternalQueue (ℤ × Option Pointer)
  create_values internal_queue maximum_number_of_values = do
    let values_array_size = size_of_values maximum_number_of_values
    values_array ← call (memory_allocate values_array_size)
    (if values_array == null
        then abandon internal_queue null (error_set memory_insufficient)
        else do
          cleared ← call (memory_set values_array values_array_size)
          (if cleared == null
              then abandon internal_queue values_array (error_set memory_set_failed)
              else do
                access (λ q. some (tt, with_array maximum_number_of_values q))
                create_handles internal_queue values_array))

  unfoldable pub create : ℕ → M W InternalQueue (ℤ × Option Pointer)
  unfolding release_memory
  create maximum_number_of_values = do
    internal_queue ← call (memory_allocate (sizeof Structure.internal_queue))
    (if internal_queue == null then refuse (some null) (error_set memory_insufficient) else do
      cleared ← call (memory_set internal_queue (sizeof Structure.internal_queue))
      (if cleared == null
          then (do
            report (error_set memory_set_failed)
            release_memory p internal_queue
            return (failure, some null))
          else do
            access (λ q. some (tt, cleared_queue))
            create_values internal_queue maximum_number_of_values))

  unfoldable pub initialize : Option Pointer → ℤ → M W InternalQueue (ℤ × Option Pointer)
  initialize none maximum_number_of_values = refuse none (error_set arguments_invalid_value)
  initialize (some queue) maximum_number_of_values =
      if not (queue == null)
      then refuse (some queue) (error_set runtime_value_already_set)
      else elim maximum_number_of_values [
        | negsuc n ↦ refuse (some queue) (error_set arguments_value_less_than_zero)
        | pos n ↦
            if ltb maximum_of_values n
            then refuse (some queue) (error_set arguments_value_exceeds_maximum)
            else if ltb ssize_max (size_of_values n)
            then refuse (some queue) (error_set runtime_value_exceeds_maximum)
            else create n
      ]

  -- The loop over the array, from `value_index` on, with the number of rounds left.
  unfoldable pub free_values : ValueFree W → ℕ → ℕ → ℤ → M W InternalQueue ℤ
  free_values value_free_function zero value_index result = return result
  free_values value_free_function (suc rounds) value_index result = do
    value ← access (λ q. Option.map (λ v. (v, q)) (read q value_index))
    freed ← value_free_function value
    access (λ q. store (write q value_index freed.1))
    (if freed.0 ==ℤ success
        then free_values value_free_function rounds (value_index + 1) result
        else do
          report (error_set runtime_finalize_failed)
          free_values value_free_function rounds (value_index + 1) failure)

  -- The conditions and the mutex are freed.
  unfoldable pub free_handles : ℤ → M W InternalQueue ℤ
  free_handles result = do
    full_freed ← free_handle p (Condition.free p) (λ q. q.full_condition) put_full_condition result
    empty_freed ←
        free_handle p (Condition.free p) (λ q. q.empty_condition) put_empty_condition full_freed
    free_handle p (Mutex.free p) (λ q. q.condition_mutex) put_condition_mutex empty_freed

  -- `values_array` is the array's address, `value_free_function` is `none` for NULL.
  unfoldable pub free :
      Pointer → Option (ValueFree W) → Option Pointer → M W InternalQueue (ℤ × Option Pointer)
  unfolding release_memory
  free values_array value_free_function none = refuse none (error_set arguments_invalid_value)
  free values_array value_free_function (some queue) =
      if queue == null then return (success, some null) else do
        q ← get_object
        values_freed ← elim value_free_function [
          | none ↦ return success
          | some f ↦ free_values f q.allocated_number_of_values 0 success
        ]
        release_memory p values_array
        result ← free_handles values_freed
        release_memory p queue
        return (result, some null)
