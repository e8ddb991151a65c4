-- ===== src/RepeatingThread/Lifetime.antt =====
-- libcthreads_repeating_thread_create and libcthreads_repeating_thread_join.
use libcthreads.Common.{Option, none, some, ℤ, pos, ◌==ℤ◌, ◌==◌, if◌then◌else◌}
use libcthreads.Machine.{
  Pointer, null, Report, Platform, M, ◌>>=◌, ◌>>◌, return, success, failure, report, refuse, fail,
  call, blocking_call, access, get_object, Structure,
}
use libcthreads.Machine.ErrorCode.{
  arguments_invalid_value, runtime_value_missing, runtime_set_failed, runtime_initialize_failed,
  runtime_finalize_failed,
}
use libcthreads.Machine.Report.{error_set, system_error_set}
use libcthreads.Mutex
use libcthreads.Condition
use libcthreads.Handle.{allocate, unset}
use libcthreads.Handle.Members.{discard_handle, create_handle, free_handle, release_memory}
use libcthreads.Joining.{join_result}
use libcthreads.Pool.{status_exit}
use libcthreads.Pool.Lifetime.{error_code_of}
use libcthreads.RepeatingThread.{InternalRepeatingThread}

-- A structure of zero bytes.
abbrev pub cleared_thread : InternalRepeatingThread
cleared_thread = record {
  thread = 0;
  callback_function = null;
  callback_function_arguments = null;
  callback_function_result = pos 0;
  condition_mutex = null;
  status_condition = null;
  status = 0;
  active_tasks = 0;
  total_tasks = 0;
}

abbrev pub put_callback : Pointer → Pointer → InternalRepeatingThread → InternalRepeatingThread
put_callback function arguments t = record t {
  callback_function = function;
  callback_function_arguments = arguments;
}

abbrev pub put_condition_mutex : Pointer → InternalRepeatingThread → InternalRepeatingThread
put_condition_mutex a t = record t { condition_mutex = a }

abbrev pub put_status_condition : Pointer → InternalRepeatingThread → InternalRepeatingThread
put_status_condition a t = record t { status_condition = a }

module _ {W : Type 0} (p : Platform W InternalRepeatingThread) where
  -- The `on_error` label, after the error is set.
  unfoldable pub abandon : Pointer → Report → M W InternalRepeatingThread (ℤ × Option Pointer)
  abandon internal_repeating_thread e = do
    report e
    t ← get_object
    discard_handle p (Condition.free p) t.status_condition
    discard_handle p (Mutex.free p) t.condition_mutex
    release_memory p internal_repeating_thread
    return (failure, some null)

  -- What follows the creation of the mutex and the condition.
  unfoldable pub start :
      Pointer → Pointer → Pointer → Pointer → M W InternalRepeatingThread (ℤ × Option Pointer)
  start thread_attributes function arguments internal_repeating_thread = do
    access (λ t. some (tt, put_callback function arguments t))
    answer ← call (p.pthread_create thread_attributes internal_repeating_thread)
    access (λ t. some (tt, record t { thread = answer.1 }))
    (if answer.0 == 0
        then return (success, some internal_repeating_thread)
        else if answer.0 == p.eagain
        then abandon internal_repeating_thread (error_set runtime_finalize_failed)
        else abandon internal_repeating_thread (system_error_set answer.0 runtime_finalize_failed))

  -- What follows the allocation.
  unfoldable pub prepare :
      Pointer → Pointer → Pointer → Pointer → M W InternalRepeatingThread (ℤ × Option Pointer)
  prepare thread_attributes function arguments internal_repeating_thread =
      let failed = abandon internal_repeating_thread (error_set runtime_initialize_failed) in
      access (λ t. some (tt, cleared_thread))
      >> create_handle p (Mutex.initialize p) put_condition_mutex failed (
          create_handle p (Condition.initialize p) put_status_condition failed
            (start thread_attributes function arguments internal_repeating_thread))

  unfoldable pub create :
      Option Pointer
      → Pointer
      → Pointer
      → Pointer
      → M W InternalRepeatingThread (ℤ × Option Pointer)
  create repeating_thread thread_attributes callback_function callback_function_arguments =
      unset p repeating_thread (
        if callback_function == null
        then refuse (some null) (error_set arguments_invalid_value)
        else allocate p Structure.internal_repeating_thread
            (prepare thread_attributes callback_function callback_function_arguments))

  -- What follows the tests on the signal and the release.
  unfoldable pub dismantle : Pointer → M W InternalRepeatingThread (ℤ × Option Pointer)
  dismantle repeating_thread = do
    t ← get_object
    answer ← blocking_call (p.pthread_join t.thread)
    joined ← join_result p (error_code_of success) answer.0 answer.1 success
    condition_freed ←
        free_handle p (Condition.free p) (λ t. t.status_condition) put_status_condition joined
    result ←
        free_handle p (Mutex.free p) (λ t. t.condition_mutex) put_condition_mutex condition_freed
    release_memory p repeating_thread
    return (result, some null)

  -- What follows the grab.
  unfoldable pub finish : Pointer → M W InternalRepeatingThread (ℤ × Option Pointer)
  finish repeating_thread = do
    access (λ t. some (tt, record t { status = status_exit }))
    t ← get_object
    signalled ← Condition.signal p t.status_condition
    result ← if signalled ==ℤ success then return success else fail (error_set runtime_set_failed)
    released ← Mutex.release p t.condition_mutex
    (if released ==ℤ success
        then if result ==ℤ success then dismantle repeating_thread else return (failure, some null)
        else refuse (some null) (error_set runtime_set_failed))

  unfoldable pub join : Option Pointer → M W InternalRepeatingThread (ℤ × Option Pointer)
  join none = refuse none (error_set arguments_invalid_value)
  join (some repeating_thread) =
      if repeating_thread == null then refuse (some null) (error_set runtime_value_missing) else do
        t ← get_object
        grabbed ← Mutex.grab p t.condition_mutex
        (if grabbed ==ℤ success
            then finish repeating_thread
            else refuse (some null) (error_set runtime_set_failed))
