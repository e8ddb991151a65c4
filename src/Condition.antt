-- ===== src/Condition.antt =====
-- libcthreads/libcthreads_condition.c, as built with HAVE_PTHREAD_H and without WINAPI.
pub mod Laws
use libcthreads.Common.{ℕ, not, Option, none, some, ℤ, ◌==◌, if◌then◌else◌}
use libcthreads.Machine.{
  Pointer, null, Report, Platform, M, ◌>>=◌, ◌>>◌, return, success, failure, report, fail, refuse,
  call, blocking_call, Structure,
}
use libcthreads.Handle.{make, dispose, on_handle}
use libcthreads.Machine.ErrorCode.{
  arguments_invalid_value, memory_insufficient, memory_set_failed, runtime_value_already_set,
  runtime_finalize_failed, runtime_set_failed, runtime_get_failed,
}
use libcthreads.Machine.Report.{error_set, system_error_set}

module _ {W Obj : Type 0} (p : Platform W Obj) where
  unfoldable pub initialize : Option Pointer → M W Obj (ℤ × Option Pointer)
  initialize = make p Structure.internal_condition p.pthread_cond_init

  pub free : Option Pointer → M W Obj (ℤ × Option Pointer)
  free = dispose p p.pthread_cond_destroy

  unfoldable pub broadcast : Pointer → M W Obj ℤ
  broadcast condition = on_handle p condition (do
    pthread_result ← call (p.pthread_cond_broadcast condition)
    (if pthread_result == 0
        then return success
        else fail (system_error_set pthread_result runtime_set_failed)))

  pub signal : Pointer → M W Obj ℤ
  signal condition = on_handle p condition (do
    pthread_result ← call (p.pthread_cond_signal condition)
    (if pthread_result == 0
        then return success
        else fail (system_error_set pthread_result runtime_set_failed)))

  pub wait : Pointer → Pointer → M W Obj ℤ
  wait condition mutex = on_handle p condition (
      on_handle p mutex (do
        pthread_result ← blocking_call (p.pthread_cond_wait condition mutex)
        (if pthread_result == 0
            then return success
            else fail (system_error_set pthread_result runtime_get_failed))))
