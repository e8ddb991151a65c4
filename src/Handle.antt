-- ===== src/Handle.antt =====
-- The statements that the functions on a handle share: mutexes, conditions, locks and read/write
-- locks are each a structure with one object of the threads library in it, and their functions are
-- written alike (libcthreads/libcthreads_mutex.c, libcthreads_condition.c, libcthreads_lock.c and
-- libcthreads_read_write_lock.c, as built with HAVE_PTHREAD_H and without WINAPI).
-- A handle is the address of its structure. Where the source takes `T **handle`, the model takes
-- `none` for NULL and else `some` of the value of `*handle`, and returns beside the result what
-- `*handle` holds afterwards.
pub mod Laws
pub mod Members
use libcthreads.Common.{ℕ, not, Option, none, some, ℤ, ◌==◌, if◌then◌else◌}
use libcthreads.Machine.{
  Pointer, null, Report, Platform, M, ◌>>=◌, ◌>>◌, return, success, failure, report, fail, refuse,
  call, Structure,
}
use libcthreads.Machine.ErrorCode.{
  arguments_invalid_value, memory_insufficient, memory_set_failed, runtime_value_already_set,
  runtime_finalize_failed,
}
use libcthreads.Machine.Report.{error_set, system_error_set}

module _ {W Obj : Type 0} (p : Platform W Obj) where
  open p use {eagain, ebusy, edeadlk, memory_allocate, memory_set, memory_free, sizeof}

  -- The `on_error` label: frees the structure.
  unfoldable pub discard : Pointer → Report → M W Obj (ℤ × Option Pointer)
  discard internal e = do
    report e
    call (λ w. (tt, memory_free internal w))
    return (failure, some null)

  -- The switch on the result of the threads library's `init`.
  pub set_up : (Pointer → W → ℕ × W) → Pointer → M W Obj (ℤ × Option Pointer)
  unfolding discard
  set_up init internal = do
    pthread_result ← call (init internal)
    (if pthread_result == 0
        then return (success, some internal)
        else if pthread_result == eagain
        then discard internal (error_set runtime_finalize_failed)
        else discard internal (system_error_set pthread_result runtime_finalize_failed))

  -- A cleared structure, given to `next`; `*handle` is NULL.
  unfoldable pub allocate :
      Structure → (Pointer → M W Obj (ℤ × Option Pointer)) → M W Obj (ℤ × Option Pointer)
  unfolding discard
  allocate structure next = do
    internal ← call (memory_allocate (sizeof structure))
    (if internal == null then refuse (some null) (error_set memory_insufficient) else do
      cleared ← call (memory_set internal (sizeof structure))
      (if cleared == null then discard internal (error_set memory_set_failed) else next internal))

  -- The guards on `handle` and `*handle`, then `body`.
  unfoldable pub unset :
      Option Pointer → M W Obj (ℤ × Option Pointer) → M W Obj (ℤ × Option Pointer)
  unset none body = refuse none (error_set arguments_invalid_value)
  unset (some handle) body =
      if not (handle == null)
      then refuse (some handle) (error_set runtime_value_already_set)
      else body

  unfoldable pub make :
      Structure → (Pointer → W → ℕ × W) → Option Pointer → M W Obj (ℤ × Option Pointer)
  unfolding allocate unset set_up discard
  make structure init handle = unset handle (allocate structure (set_up init))

  -- The switch on the result of the threads library's `destroy`.
  pub destroyed : ℕ → M W Obj ℤ
  destroyed pthread_result =
      if pthread_result == 0
      then return success
      else if pthread_result == eagain
      then fail (error_set runtime_finalize_failed)
      else if pthread_result == ebusy
      then fail (error_set runtime_finalize_failed)
      else fail (system_error_set pthread_result runtime_finalize_failed)

  unfoldable pub dispose : (Pointer → W → ℕ × W) → Option Pointer → M W Obj (ℤ × Option Pointer)
  unfolding destroyed
  dispose destroy none = refuse none (error_set arguments_invalid_value)
  dispose destroy (some handle) = if handle == null then return (success, some null) else do
    pthread_result ← call (destroy handle)
    result ← destroyed pthread_result
    call (λ w. (tt, memory_free handle w))
    return (result, some null)

  -- The switch on the result of a lock or an unlock.
  unfoldable pub lock_result : ℕ → M W Obj ℤ
  lock_result pthread_result =
      if pthread_result == 0
      then return success
      else if pthread_result == eagain
      then fail (error_set runtime_finalize_failed)
      else if pthread_result == edeadlk
      then fail (error_set runtime_finalize_failed)
      else fail (system_error_set pthread_result runtime_finalize_failed)

  -- The guard on a handle, then `body`.
  unfoldable pub on_handle : Pointer → M W Obj ℤ → M W Obj ℤ
  on_handle handle body = if handle == null then fail (error_set arguments_invalid_value) else body
