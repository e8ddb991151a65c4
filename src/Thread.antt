-- ===== src/Thread.antt =====
-- libcthreads/libcthreads_thread.c, as built with HAVE_PTHREAD_H and without WINAPI. The machine's
-- object is the structure at `*thread`. `run` runs a function of the program, given its address and
-- its argument: these functions are not the library's.
pub mod Laws
use libcthreads.Common.{ℕ, Option, none, some, ℤ, ◌==◌, if◌then◌else◌}
use libcthreads.Machine.{
  Pointer, null, Platform, M, ◌>>=◌, ◌>>◌, return, success, refuse, call, blocking_call, access,
  get_object, Structure,
}
use libcthreads.Machine.ErrorCode.{
  arguments_invalid_value, runtime_value_missing, runtime_finalize_failed,
}
use libcthreads.Machine.Report.{error_set, system_error_set}
use libcthreads.Handle.{discard, allocate, unset}
use libcthreads.Joining.{join_result, stored_value, free_value}

pub record InternalThread : Type 0 where
  pub thread : ℕ
  pub callback_function : Pointer
  pub callback_function_arguments : Pointer

-- A structure of zero bytes.
abbrev pub cleared_thread : InternalThread
cleared_thread = record { thread = 0; callback_function = null; callback_function_arguments = null }

abbrev pub put_callback : Pointer → Pointer → InternalThread → InternalThread
put_callback function arguments t = record t {
  callback_function = function;
  callback_function_arguments = arguments;
}

module _ {W : Type 0} (p : Platform W InternalThread)
    (run : Pointer → Pointer → M W InternalThread ℤ) where
  -- The start function: the value that the thread returns.
  unfoldable pub callback_function_helper : Pointer → M W InternalThread (Option (Pointer × ℤ))
  callback_function_helper arguments = if arguments == null then return none else do
    t ← get_object
    (if t.callback_function == null then return none else do
      result ← call (p.memory_allocate (p.sizeof Structure.int_value))
      (if result == null then return none else do
        callback_result ← run t.callback_function t.callback_function_arguments
        return (some (result, callback_result))))

module _ {W : Type 0} (p : Platform W InternalThread) where
  -- What follows the allocation in the create function.
  pub start : Pointer → Pointer → Pointer → Pointer → M W InternalThread (ℤ × Option Pointer)
  start thread_attributes function arguments internal_thread = do
    access (λ t. some (tt, put_callback function arguments cleared_thread))
    answer ← call (p.pthread_create thread_attributes internal_thread)
    access (λ t. some (tt, record t { thread = answer.1 }))
    (if answer.0 == 0
        then return (success, some internal_thread)
        else if answer.0 == p.eagain
        then discard p internal_thread (error_set runtime_finalize_failed)
        else discard p internal_thread (system_error_set answer.0 runtime_finalize_failed))

  pub create :
      Option Pointer → Pointer → Pointer → Pointer → M W InternalThread (ℤ × Option Pointer)
  unfolding start
  create thread thread_attributes callback_function callback_function_arguments = unset p thread (
      if callback_function == null
      then refuse (some null) (error_set arguments_invalid_value)
      else allocate p Structure.internal_thread
          (start thread_attributes callback_function callback_function_arguments))

  pub join : Option Pointer → M W InternalThread (ℤ × Option Pointer)
  join none = refuse none (error_set arguments_invalid_value)
  join (some thread) =
      if thread == null then refuse (some null) (error_set runtime_value_missing) else do
        t ← get_object
        answer ← blocking_call (p.pthread_join t.thread)
        result ← join_result p answer.0 answer.0 answer.1 success
        free_value p (stored_value answer.0 answer.1)
        call (λ w. (tt, p.memory_free thread w))
        return (result, some null)
