-- ===== src/RepeatingThread.antt =====
-- libcthreads/libcthreads_repeating_thread.c and libcthreads_repeating_thread.h, as built with
-- HAVE_PTHREAD_H and without WINAPI, but for the create and join functions. The machine's object is
-- the structure. `run` runs a function of the program, given its address and its argument.
pub mod Lifetime
pub mod Serves
pub mod Fetches
pub mod Served
pub mod Laws
pub mod Alone
pub mod Exits
pub mod Joined
pub mod Created
use libcthreads.Common.{
  ℕ, zero, suc, ◌+◌, ◌-◌, Bool, not, ◌&&◌, ◌||◌, Option, none, some, ℤ, ◌==ℤ◌, ◌==◌, ltb,
  if◌then◌else◌,
}
use libcthreads.Machine.{
  Pointer, null, Platform, M, ◌>>=◌, ◌>>◌, return, success, failure, report, fail, with_null_error,
  access, get_object,
}
use libcthreads.Machine.ErrorCode.{arguments_invalid_value, runtime_set_failed}
use libcthreads.Machine.Report.{error_set}
use libcthreads.Machine.Exec.{done, waiting}
use libcthreads.Mutex
use libcthreads.Condition
use libcthreads.Pool.{status_exit}
use libcthreads.Pool.Calls.{worst}

pub record InternalRepeatingThread : Type 0 where
  pub thread : ℕ
  pub callback_function : Pointer
  pub callback_function_arguments : Pointer
  pub callback_function_result : ℤ
  pub condition_mutex : Pointer
  pub status_condition : Pointer
  pub status : ℕ
  pub active_tasks : ℕ
  pub total_tasks : ℕ

-- INT_MAX
abbrev pub int_max : ℕ
int_max = 0x7fffffff

-- One more task; `none` where a counter overflows.
abbrev pub add_task : InternalRepeatingThread → Option (Unit {0} × InternalRepeatingThread)
add_task t =
    if ltb t.active_tasks int_max && ltb t.total_tasks int_max
    then some (tt, record t { active_tasks = t.active_tasks + 1; total_tasks = t.total_tasks + 1 })
    else none

abbrev pub take_tasks : ℕ → InternalRepeatingThread → InternalRepeatingThread
take_tasks number_of_tasks t = record t { active_tasks = t.active_tasks - number_of_tasks }

abbrev pub put_result : ℤ → InternalRepeatingThread → InternalRepeatingThread
put_result result t = record t { callback_function_result = result }

-- The test of the loop that waits.
abbrev pub lacks_tasks : InternalRepeatingThread → Bool
lacks_tasks t = (t.active_tasks == 0) && not (t.status == status_exit)

module _ {W : Type 0} (p : Platform W InternalRepeatingThread) where
  -- Waits for a task or the exit status, with the rounds that are left.
  unfoldable pub await_tasks : ℕ → M W InternalRepeatingThread (Unit {0})
  await_tasks zero s = waiting
  await_tasks (suc rounds) s =
      if lacks_tasks s.object
      then (with_null_error (Condition.wait p s.object.status_condition s.object.condition_mutex)
            >> await_tasks rounds)
          s
      else done (tt, s)

  -- The number of tasks that are taken, and the status, from the grab to the release.
  unfoldable pub fetch : ℕ → M W InternalRepeatingThread (ℕ × ℕ)
  fetch rounds = do
    t ← get_object
    with_null_error (Mutex.grab p t.condition_mutex)
    await_tasks rounds
    q ← get_object
    access (λ o. some (tt, take_tasks q.active_tasks o))
    with_null_error (Mutex.release p q.condition_mutex)
    return (q.active_tasks, q.status)

  module _ (run : Pointer → Pointer → M W InternalRepeatingThread ℤ) where
    -- The loop over the tasks that are taken, with the number that is left.
    unfoldable pub run_tasks : ℕ → M W InternalRepeatingThread (Unit {0})
    run_tasks zero = return tt
    run_tasks (suc number_of_tasks) = do
      t ← get_object
      called ← run t.callback_function t.callback_function_arguments
      access (λ o. some (tt, put_result (worst called o.callback_function_result) o))
      run_tasks number_of_tasks

    -- The outer loop, with the rounds that are left for it, and those of each wait.
    unfoldable pub repeat : ℕ → ℕ → M W InternalRepeatingThread (Unit {0})
    repeat zero rounds s = waiting
    repeat (suc fuel) rounds s =
        (do
          fetched ← fetch rounds
          run_tasks fetched.0
          (if ltb 0 fetched.0 || not (fetched.1 == status_exit)
              then repeat fuel rounds
              else return tt))
          s

    -- The start function: the value that the thread returns, which is a member of the structure and
    -- is given the structure's address here.
    unfoldable pub callback_function_helper :
        ℕ → ℕ → Pointer → M W InternalRepeatingThread (Option (Pointer × ℤ))
    callback_function_helper fuel rounds arguments = if arguments == null then return none else do
      t ← get_object
      (if t.callback_function == null then return none else do
        access (λ o. some (tt, put_result success o))
        repeat fuel rounds
        q ← get_object
        return (some (arguments, q.callback_function_result)))

  -- The signal and the release of push, with its `on_error` label.
  unfoldable pub tell : M W InternalRepeatingThread ℤ
  tell = do
    t ← get_object
    signalled ← Condition.signal p t.status_condition
    (if signalled ==ℤ success
        then (do
          released ← Mutex.release p t.condition_mutex
          (if released ==ℤ success then return success else fail (error_set runtime_set_failed)))
        else do
          report (error_set runtime_set_failed)
          with_null_error (Mutex.release p t.condition_mutex)
          return failure)

  unfoldable pub push : Pointer → M W InternalRepeatingThread ℤ
  push repeating_thread =
      if repeating_thread == null then fail (error_set arguments_invalid_value) else do
        t ← get_object
        grabbed ← Mutex.grab p t.condition_mutex
        (if grabbed ==ℤ success
            then (do access add_task; tell)
            else fail (error_set runtime_set_failed))
