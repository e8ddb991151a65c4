-- ===== src/ReadWriteLock.antt =====
-- libcthreads/libcthreads_read_write_lock.c, as built with HAVE_PTHREAD_H and without WINAPI.
pub mod Laws
use libcthreads.Common.{ℕ, Option, ℤ, ◌==◌, if◌then◌else◌}
use libcthreads.Machine.{
  Pointer, Platform, M, ◌>>=◌, return, success, fail, call, blocking_call, Structure,
}
use libcthreads.Machine.ErrorCode.{runtime_finalize_failed, runtime_set_failed}
use libcthreads.Machine.Report.{error_set, system_error_set}
use libcthreads.Handle.{make, dispose, lock_result, on_handle}

module _ {W Obj : Type 0} (p : Platform W Obj) where
  unfoldable pub initialize : Option Pointer → M W Obj (ℤ × Option Pointer)
  initialize = make p Structure.internal_read_write_lock p.pthread_rwlock_init

  pub free : Option Pointer → M W Obj (ℤ × Option Pointer)
  free = dispose p p.pthread_rwlock_destroy

  pub grab_for_read : Pointer → M W Obj ℤ
  grab_for_read read_write_lock = on_handle p read_write_lock (do
    pthread_result ← blocking_call (p.pthread_rwlock_rdlock read_write_lock)
    lock_result p pthread_result)

  -- The switch on the result of pthread_rwlock_wrlock.
  pub write_result : ℕ → M W Obj ℤ
  write_result pthread_result =
      if pthread_result == 0
      then return success
      else if pthread_result == p.edeadlk
      then fail (error_set runtime_finalize_failed)
      else fail (system_error_set pthread_result runtime_finalize_failed)

  pub grab_for_write : Pointer → M W Obj ℤ
  unfolding write_result
  grab_for_write read_write_lock = on_handle p read_write_lock (do
    pthread_result ← blocking_call (p.pthread_rwlock_wrlock read_write_lock)
    write_result pthread_result)

  pub release_for_read : Pointer → M W Obj ℤ
  release_for_read read_write_lock = on_handle p read_write_lock (do
    pthread_result ← call (p.pthread_rwlock_unlock read_write_lock)
    (if pthread_result == 0
        then return success
        else fail (system_error_set pthread_result runtime_set_failed)))

  pub release_for_write : Pointer → M W Obj ℤ
  release_for_write read_write_lock = on_handle p read_write_lock (do
    pthread_result ← call (p.pthread_rwlock_unlock read_write_lock)
    (if pthread_result == 0
        then return success
        else fail (system_error_set pthread_result runtime_set_failed)))
