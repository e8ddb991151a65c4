-- ===== src/Pool/Create.antt =====
-- libcthreads_thread_pool_create, on a 64-bit platform, on which a `pthread_t` has 64 bits too.
use libcthreads.Common.{
  ℕ, zero, suc, ◌+◌, Option, none, some, List, ℤ, pos, negsuc, ◌==◌, ltb, set?, if◌then◌else◌,
}
use libcthreads.Machine.{
  Pointer, null, Report, Platform, State, Exec, M, ◌>>=◌, ◌>>◌, return, success, failure, report,
  refuse, call, blocking_call, access, get_object, Structure,
}
use libcthreads.Machine.ErrorCode.{
  arguments_invalid_value, arguments_value_zero_or_less, arguments_value_exceeds_maximum,
  memory_insufficient, memory_set_failed, runtime_value_exceeds_maximum,
  runtime_value_out_of_bounds, runtime_initialize_failed, runtime_finalize_failed,
}
use libcthreads.Machine.Report.{error_set, system_error_set}
use libcthreads.Machine.Exec.{done, fault}
use libcthreads.Mutex
use libcthreads.Condition
use libcthreads.Handle.{allocate, unset}
use libcthreads.Handle.Members.{release_memory, discard_handle, create_handle}
use libcthreads.Joining.{stored_value, free_value}
use libcthreads.Queue.{InternalQueue}
use libcthreads.Queue.Lifetime.{
  ssize_max, maximum_of_values, size_of_values, cleared_array, cleared_queue, with_array,
  put_condition_mutex, put_empty_condition, put_full_condition,
}
use libcthreads.Pool.{Members, PoolWorld, update_members, read_thread}

-- A structure of zero bytes: its other members.
abbrev pub cleared_members : Members
cleared_members = record {
  number_of_threads = 0;
  threads_array = none;
  callback_function = null;
  callback_function_arguments = null;
  status = 0;
}

abbrev pub put_callback : Pointer → Pointer → Members → Members
put_callback function arguments m = record m {
  callback_function = function;
  callback_function_arguments = arguments;
}

-- The array of threads in its place, of zero bytes.
abbrev pub put_threads : ℕ → Members → Members
put_threads n m = record m { threads_array = some (cleared_array n); number_of_threads = n }

-- The array with an element changed.
abbrev pub with_element : Option (List ℕ) → ℕ → ℕ → Option (List ℕ)
with_element none index thread = none
with_element (some threads) index thread = set? threads index thread

module _ {W Obj : Type 0} where
  abbrev pub stored :
      State (PoolWorld W) Obj → Option (List ℕ) → Exec (Unit {0} × State (PoolWorld W) Obj)
  stored s none = fault
  stored s (some threads) = done (
    tt,
    record s {
      world = record s.world { members = record s.world.members { threads_array = some threads } };
    },
  )

  -- threads_array[ index ] = thread
  unfoldable pub write_thread : ℕ → ℕ → M (PoolWorld W) Obj (Unit {0})
  write_thread index thread s = stored s (with_element s.world.members.threads_array index thread)

module _ {W : Type 0} (p : Platform (PoolWorld W) InternalQueue) where
  -- The loop of `on_error` that joins the threads, from the one before `n` downwards.
  unfoldable pub abandon_threads : ℕ → M (PoolWorld W) InternalQueue (Unit {0})
  abandon_threads zero = return tt
  abandon_threads (suc thread_index) = do
    thread ← read_thread thread_index
    answer ← blocking_call (p.pthread_join thread)
    free_value p (stored_value answer.0 answer.1)
    abandon_threads thread_index

  -- The `on_error` label, from the conditions on.
  unfoldable pub abandon_rest :
      Pointer → Pointer → M (PoolWorld W) InternalQueue (ℤ × Option Pointer)
  abandon_rest internal_thread_pool values_array = do
    q ← get_object
    discard_handle p (Condition.free p) q.full_condition
    discard_handle p (Condition.free p) q.empty_condition
    discard_handle p (Mutex.free p) q.condition_mutex
    (if values_array == null then return tt else release_memory p values_array)
    release_memory p internal_thread_pool
    return (failure, some null)

  -- The `on_error` label, after the error is set; the arrays are given by their addresses or NULL.
  unfoldable pub abandon :
      Pointer → Pointer → Pointer → ℕ → Report → M (PoolWorld W) InternalQueue (ℤ × Option Pointer)
  abandon internal_thread_pool threads_array values_array thread_index e = do
    report e
    (if threads_array == null
        then return tt
        else do abandon_threads (thread_index + 1); release_memory p threads_array)
    abandon_rest internal_thread_pool values_array

  module _ (attributes internal_thread_pool values_array : Pointer) where
    -- The loop that creates the threads, with the number of rounds left.
    unfoldable pub create_threads :
        Pointer → ℕ → ℕ → M (PoolWorld W) InternalQueue (ℤ × Option Pointer)
    create_threads threads_array zero thread_index = return (success, some internal_thread_pool)
    create_threads threads_array (suc rounds) thread_index = do
      answer ← call (p.pthread_create attributes internal_thread_pool)
      write_thread thread_index answer.1
      (if answer.0 == 0
          then create_threads threads_array rounds (thread_index + 1)
          else if answer.0 == p.eagain
          then abandon internal_thread_pool threads_array values_array thread_index
              (error_set runtime_finalize_failed)
          else abandon internal_thread_pool threads_array values_array thread_index
              (system_error_set answer.0 runtime_finalize_failed))

    -- The array of threads, and the threads.
    unfoldable pub create_workers : ℕ → M (PoolWorld W) InternalQueue (ℤ × Option Pointer)
    create_workers number_of_threads =
        if ltb ssize_max (size_of_values number_of_threads)
        then abandon internal_thread_pool null values_array 0
            (error_set runtime_value_out_of_bounds)
        else do
          threads_array ← call (p.memory_allocate (size_of_values number_of_threads))
          (if threads_array == null
              then abandon internal_thread_pool null values_array 0 (error_set memory_insufficient)
              else do
                cleared ← call (p.memory_set threads_array (size_of_values number_of_threads))
                (if cleared == null
                    then abandon internal_thread_pool threads_array values_array 0
                        (error_set memory_set_failed)
                    else do
                      update_members (put_threads number_of_threads)
                      create_threads threads_array number_of_threads 0))

    -- The mutex, the conditions, and what follows them.
    unfoldable pub create_handles : ℕ → M (PoolWorld W) InternalQueue (ℤ × Option Pointer)
    create_handles number_of_threads =
        let failed =
          abandon internal_thread_pool null values_array 0 (error_set runtime_initialize_failed) in
        create_handle p (Mutex.initialize p) put_condition_mutex failed (
          create_handle p (Condition.initialize p) put_empty_condition failed (
            create_handle p (Condition.initialize p) put_full_condition failed
              (create_workers number_of_threads)))

  -- The array of values, and what follows it.
  unfoldable pub create_values :
      Pointer
      → ℕ
      → ℕ
      → Pointer
      → Pointer
      → Pointer
      → M (PoolWorld W) InternalQueue (ℤ × Option Pointer)
  create_values attributes number_of_threads maximum_number_of_values function arguments
        internal_thread_pool =
      if ltb ssize_max (size_of_values maximum_number_of_values)
      then abandon internal_thread_pool null null 0 (error_set runtime_value_exceeds_maximum)
      else do
        values_array ← call (p.memory_allocate (size_of_values maximum_number_of_values))
        (if values_array == null
            then abandon internal_thread_pool null null 0 (error_set memory_insufficient)
            else do
              cleared ← call (p.memory_set values_array (size_of_values maximum_number_of_values))
              (if cleared == null
                  then abandon internal_thread_pool null values_array 0
                      (error_set memory_set_failed)
                  else do
                    access (λ q. some (tt, with_array maximum_number_of_values q))
                    update_members (put_callback function arguments)
                    create_handles attributes internal_thread_pool values_array number_of_threads))

  -- The guards on a number of threads or of values.
  unfoldable pub counted :
      ℤ
      → (ℕ → M (PoolWorld W) InternalQueue (ℤ × Option Pointer))
      → M (PoolWorld W) InternalQueue (ℤ × Option Pointer)
  counted (negsuc n) next = refuse (some null) (error_set arguments_value_zero_or_less)
  counted (pos zero) next = refuse (some null) (error_set arguments_value_zero_or_less)
  counted (pos (suc n)) next =
      if ltb maximum_of_values (suc n)
      then refuse (some null) (error_set arguments_value_exceeds_maximum)
      else next (suc n)

  unfoldable pub create :
      Option Pointer
      → Pointer
      → ℤ
      → ℤ
      → Pointer
      → Pointer
      → M (PoolWorld W) InternalQueue (ℤ × Option Pointer)
  create thread_pool attributes number_of_threads maximum_number_of_values function arguments =
      unset p thread_pool (
        counted number_of_threads λ threads. counted maximum_number_of_values λ values.
          if function == null
          then refuse (some null) (error_set arguments_invalid_value)
          else allocate p Structure.internal_thread_pool λ internal_thread_pool.
            access (λ q. some (tt, cleared_queue))
            >> (update_members (λ m. cleared_members)
                >> create_values attributes threads values function arguments internal_thread_pool))
