-- ===== src/Lock.antt =====
-- libcthreads/libcthreads_lock.c, as built with HAVE_PTHREAD_H and without WINAPI. The structure of
-- a lock holds a mutex of the threads library.
pub mod Laws
use libcthreads.Common.{Option, ℤ}
use libcthreads.Machine.{Pointer, Platform, M, ◌>>=◌, call, blocking_call, Structure}
use libcthreads.Handle.{make, dispose, lock_result, on_handle}

module _ {W Obj : Type 0} (p : Platform W Obj) where
  unfoldable pub initialize : Option Pointer → M W Obj (ℤ × Option Pointer)
  initialize = make p Structure.internal_lock p.pthread_mutex_init

  pub free : Option Pointer → M W Obj (ℤ × Option Pointer)
  free = dispose p p.pthread_mutex_destroy

  pub grab : Pointer → M W Obj ℤ
  grab lock =
      on_handle p lock (do
        pthread_result ← blocking_call (p.pthread_mutex_lock lock)
        lock_result p pthread_result)

  pub release : Pointer → M W Obj ℤ
  release lock =
      on_handle p lock
        (do pthread_result ← call (p.pthread_mutex_unlock lock); lock_result p pthread_result)
