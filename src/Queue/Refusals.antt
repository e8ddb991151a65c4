-- ===== src/Queue/Refusals.antt =====
-- The guards at the start of a queue's calls.
use libcthreads.Common.{
  ℕ, ◌≡◌, ◌≢◌, refl, false, true, Option, none, some, List, ◌∷◌, ◌==◌, bit_and, arith,
}
use libcthreads.Machine.{Pointer, null, ErrorCode, Platform, State, M, failure}
use libcthreads.Machine.ErrorCode.{
  arguments_invalid_value, arguments_unsupported_value, runtime_value_missing,
}
use libcthreads.Machine.Report.{error_set}
use libcthreads.Machine.Exec.{done}
use libcthreads.Queue.{InternalQueue}
use libcthreads.Queue.Ring.{Compare}
use libcthreads.Queue.Calls.{
  Reply, lacks_array, other_sort_flags, checked, empty, try_pop, pop, try_push, push, push_sorted,
}

module _ {W : Type 0} (p : Platform W InternalQueue) where
  -- The call returns -1 with one error and does nothing else: it takes no mutex.
  abbrev pub Refuses : ErrorCode → State W InternalQueue → M W InternalQueue Reply → Type 0
  Refuses e s m = m s ≡ done ((failure, none), record s { errors = error_set e ∷ s.errors })

  -- The six calls, on a queue that is `queue` with the arguments given.
  abbrev pub AllRefuse :
      ErrorCode → State W InternalQueue → ℕ → Pointer → Pointer → Option Compare → ℕ → Type 0
  AllRefuse e s rounds queue value compare flags =
      Refuses e s (empty p rounds queue)
      × Refuses e s (try_pop p queue value)
      × Refuses e s (pop p rounds queue value)
      × Refuses e s (try_push p queue value)
      × Refuses e s (push p rounds queue value)
      × Refuses e s (push_sorted p rounds queue value compare flags)

  -- The calls that take a value or the address of a result, on a queue that exists, with NULL for
  -- these, and push_sorted with NULL for the comparison.
  abbrev pub ValuesRefuse :
      State W InternalQueue → ℕ → Pointer → Pointer → Option Compare → ℕ → Type 0
  ValuesRefuse s rounds queue value compare flags =
      Refuses arguments_invalid_value s (try_pop p queue null)
      × Refuses arguments_invalid_value s (pop p rounds queue null)
      × Refuses arguments_invalid_value s (try_push p queue null)
      × Refuses arguments_invalid_value s (push p rounds queue null)
      × Refuses arguments_invalid_value s (push_sorted p rounds queue null compare flags)
      × Refuses arguments_invalid_value s (push_sorted p rounds queue value none flags)

  -- With NULL for the queue, each of the six calls refuses: it returns -1 with one error, an invalid
  -- argument, and changes nothing.
  missing_queue_lem :
      (rounds : ℕ) (value : Pointer) (compare : Option Compare) (flags : ℕ)
      (s : State W InternalQueue)
      → AllRefuse arguments_invalid_value s rounds null value compare flags
  unfolding checked empty try_pop pop try_push push push_sorted
  missing_queue_lem rounds value compare flags s = (refl, refl, refl, refl, refl, refl)

  -- On a queue without its array, each of the six calls refuses: it returns -1 with one error, a
  -- missing value, and changes nothing.
  missing_array_lem :
      (rounds : ℕ) (queue value : Pointer) (compare : Option Compare) (flags : ℕ)
      (s : State W InternalQueue)
      → queue ≢ null
      → s.object.values_array ≡ none
      → AllRefuse runtime_value_missing s rounds queue value compare flags
  unfolding checked empty try_pop pop try_push push push_sorted
  missing_array_lem rounds queue value compare flags s queue_set missing =
      let f : (queue == null) ≡ false = ground arith in
      let lacks : lacks_array s.object ≡ true = ground (arith, missing) in
      let refused : (body : M W InternalQueue Reply)
          → Refuses runtime_value_missing s (checked p queue body) =
        λ body. rw (checked, f, lacks) in
      (refused _, refused _, refused _, refused _, refused _, refused _)

  -- On a queue that exists, a call refuses NULL for the value or for the address of the result, and
  -- push_sorted refuses NULL for the comparison: it returns -1 with one error, an invalid argument,
  -- and changes nothing.
  missing_value_lem :
      (rounds : ℕ) (queue value : Pointer) (compare : Option Compare) (flags : ℕ)
      (values : List Pointer) (s : State W InternalQueue)
      → queue ≢ null
      → value ≢ null
      → s.object.values_array ≡ some values
      → ValuesRefuse s rounds queue value compare flags
  unfolding checked try_pop pop try_push push push_sorted
  missing_value_lem rounds queue value compare flags values s queue_set value_set there =
      let f : (queue == null) ≡ false = ground arith in
      let g : (value == null) ≡ false = ground arith in
      let has : lacks_array s.object ≡ false = ground (arith, there) in
      let refused : (body : M W InternalQueue Reply)
          → Refuses arguments_invalid_value s body
          → Refuses arguments_invalid_value s (checked p queue body) =
        λ body e. rw (checked, f, has) e in
      (
        refused _ refl,
        refused _ refl,
        refused _ refl,
        refused _ refl,
        refused _ refl,
        refused _ (rw g),
      )

  -- On a queue that exists, push_sorted refuses sort flags other than 0 and 1 in a byte: it returns
  -- -1 with one error, an unsupported value, and changes nothing.
  unsupported_flags_lem :
      (rounds : ℕ) (queue value : Pointer) (compare : Compare) (flags : ℕ) (values : List Pointer)
      (s : State W InternalQueue)
      → queue ≢ null
      → value ≢ null
      → s.object.values_array ≡ some values
      → bit_and flags other_sort_flags ≢ 0
      → Refuses arguments_unsupported_value s
          (push_sorted p rounds queue value (some compare) flags)
  unfolding checked push_sorted
  unsupported_flags_lem rounds queue value compare flags values s queue_set value_set there other =
      let f : (queue == null) ≡ false = ground arith in
      let g : (value == null) ≡ false = ground arith in
      let has : lacks_array s.object ≡ false = ground (arith, there) in
      let h : (bit_and flags other_sort_flags == 0) ≡ false = ground arith in
      rw (checked, f, has, g, h)

  -- The guards of the six calls, each of which returns -1 with one error and changes nothing. With
  -- NULL for the queue all six refuse, with an invalid argument; so do they on a queue without its
  -- array, `bare`, with a missing value. On a queue that exists, a call refuses NULL for the value or
  -- for the address of the result, and push_sorted NULL for the comparison, with an invalid argument;
  -- and push_sorted refuses sort flags with a bit set of 0xfe, with an unsupported value.
  pub refusals_lem :
      (rounds : ℕ) (queue value : Pointer) (compare : Compare) (flags : ℕ) (values : List Pointer)
      (s bare : State W InternalQueue)
      → queue ≢ null
      → value ≢ null
      → s.object.values_array ≡ some values
      → bare.object.values_array ≡ none
      → bit_and flags other_sort_flags ≢ 0
      → AllRefuse arguments_invalid_value s rounds null value (some compare) flags
        × AllRefuse runtime_value_missing bare rounds queue value (some compare) flags
        × ValuesRefuse s rounds queue value (some compare) flags
        × Refuses arguments_unsupported_value s
            (push_sorted p rounds queue value (some compare) flags)
  refusals_lem rounds queue value compare flags values s bare queue_set value_set there missing
        other =
      (
        missing_queue_lem rounds value (some compare) flags s,
        missing_array_lem rounds queue value (some compare) flags bare queue_set missing,
        missing_value_lem rounds queue value (some compare) flags values s queue_set value_set
            there,
        unsupported_flags_lem rounds queue value compare flags values s queue_set value_set there
            other,
      )
