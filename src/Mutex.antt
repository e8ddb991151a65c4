-- ===== src/Mutex.antt =====
-- libcthreads/libcthreads_mutex.c, as built with HAVE_PTHREAD_H and without WINAPI.
pub mod Laws
use libcthreads.Common.{Option, ℤ, ◌==◌, if◌then◌else◌}
use libcthreads.Machine.{
  Pointer, Platform, M, ◌>>=◌, return, success, not_done, call, blocking_call, Structure,
}
use libcthreads.Handle.{make, dispose, lock_result, on_handle}

module _ {W Obj : Type 0} (p : Platform W Obj) where
  unfoldable pub initialize : Option Pointer → M W Obj (ℤ × Option Pointer)
  initialize = make p Structure.internal_mutex p.pthread_mutex_init

  pub free : Option Pointer → M W Obj (ℤ × Option Pointer)
  free = dispose p p.pthread_mutex_destroy

  unfoldable pub grab : Pointer → M W Obj ℤ
  grab mutex =
      on_handle p mutex (do
        pthread_result ← blocking_call (p.pthread_mutex_lock mutex)
        lock_result p pthread_result)

  pub try_grab : Pointer → M W Obj ℤ
  try_grab mutex = on_handle p mutex (do
    pthread_result ← call (p.pthread_mutex_trylock mutex)
    (if pthread_result == 0
        then return success
        else if pthread_result == p.ebusy
        then return not_done
        else lock_result p pthread_result))

  unfoldable pub release : Pointer → M W Obj ℤ
  release mutex =
      on_handle p mutex
        (do pthread_result ← call (p.pthread_mutex_unlock mutex); lock_result p pthread_result)
