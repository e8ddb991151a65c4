-- ===== src/Queue/Ring.antt =====
-- The statements of libcthreads_queue.c that read and change the queue while its mutex is held.
-- `none` stands for an access through NULL or outside the array.
use libcthreads.Common.{
  ℕ, zero, suc, ◌+◌, ◌-◌, Bool, true, false, Option, none, some, get_elem?, set?, ℤ, pos, negsuc,
  sub_ℕ, ◌==ℤ◌, ◌==◌, leb, is_negative, if◌then◌else◌,
}
use libcthreads.Machine.{Pointer, ErrorCode}
use libcthreads.Machine.ErrorCode.{runtime_get_failed, arguments_unsupported_value}
use libcthreads.Queue.{InternalQueue}

infixl 5 ◌>>=◌
abbrev pub ◌>>=◌ : {A B : Type 0} → Option A → (A → Option B) → Option B
none >>= f = none
some a >>= f = f a

-- `index++`, and back to 0 at the end of the array.
abbrev pub next_index : ℕ → ℕ → ℕ
next_index allocated index = if leb allocated (index + 1) then 0 else index + 1

-- values_array[ index ]
unfoldable pub read : InternalQueue → ℕ → Option Pointer
read q index = do values ← q.values_array; get_elem? values index

-- values_array[ index ] = value
unfoldable pub write : InternalQueue → ℕ → Pointer → Option InternalQueue
write q index value = do
  values ← q.values_array
  values' ← set? values index value
  some (record q { values_array = some values' })

-- The members that follow a write: push_index moves on and number_of_values grows.
unfoldable pub pushed : InternalQueue → InternalQueue
pushed q = record q {
  push_index = next_index q.allocated_number_of_values q.push_index;
  number_of_values = q.number_of_values + 1;
}

unfoldable pub enqueue : Pointer → InternalQueue → Option InternalQueue
enqueue value q = do q' ← write q q.push_index value; some (pushed q')

-- `number_of_values--` runs at `number_of_values != 0` only.
unfoldable pub dequeue : InternalQueue → Option (Pointer × InternalQueue)
dequeue q = do
  value ← read q q.pop_index
  some (
    value,
    record q {
      pop_index = next_index q.allocated_number_of_values q.pop_index;
      number_of_values = q.number_of_values - 1;
    },
  )

-- LIBCTHREADS_COMPARE_DEFINITIONS
abbrev pub compare_less : ℤ
compare_less = pos 0

abbrev pub compare_equal : ℤ
compare_equal = pos 1

abbrev pub compare_greater : ℤ
compare_greater = pos 2

abbrev pub Compare : Type 0
Compare = Pointer → Pointer → ℤ

-- How the loop over the values ends: at `pop_index`, with `compare_result` and `result`; or by
-- `goto on_error`, with the error that is set.
pub data Search : Type 0 where
  stopped : ℕ → ℤ → ℤ → Search
  failed : ErrorCode → Search

-- The tests on the result of a comparison; `next` is the rest of the loop.
abbrev pub judge : ℤ → Bool → ℕ → Option Search → Option Search
judge compare_result unique pop_index next =
    if compare_result ==ℤ negsuc 0
    then some (failed runtime_get_failed)
    else if compare_result ==ℤ compare_equal
    then (if unique then some (stopped pop_index compare_result (pos 0)) else next)
    else if compare_result ==ℤ compare_less
    then some (stopped pop_index compare_result (pos 1))
    else if compare_result ==ℤ compare_greater
    then next
    else some (failed arguments_unsupported_value)

-- The loop, with the number of rounds left for `value_index`.
unfoldable pub search : Compare → Bool → Pointer → InternalQueue → ℕ → ℕ → ℤ → Option Search
search compare unique value q zero pop_index compare_result =
    some (stopped pop_index compare_result (pos 1))
search compare unique value q (suc rounds) pop_index compare_result = elim (read q pop_index) [
  | none ↦ none
  | some other ↦
      let c = compare value other in
      let next =
        search compare unique value q rounds (next_index q.allocated_number_of_values pop_index)
          c in
      judge c unique pop_index next
]

-- values_array[ index ] for an `int` index, which may be negative.
abbrev pub read_at : InternalQueue → ℤ → Option Pointer
read_at q (pos index) = read q index
read_at q (negsuc n) = none

abbrev pub as_index : ℤ → ℕ
as_index (pos index) = index
as_index (negsuc n) = 0

-- One round of the loop that makes room: `previous_push_index` goes round at the start of the array.
abbrev pub wrap_previous : InternalQueue → ℤ → ℤ
wrap_previous q previous =
    if is_negative previous then sub_ℕ q.allocated_number_of_values 1 else previous

-- The loop that moves each value from `pop_index` on one place towards `push_index`; what is left
-- of `push_index` is where the new value goes. `none` stands also for fuel that runs out.
unfoldable pub make_room : ℕ → ℕ → InternalQueue → ℕ → ℤ → Option (ℕ × InternalQueue)
make_room zero pop_index q push_index previous = none
make_room (suc fuel) pop_index q push_index previous = elim (push_index == pop_index) [
  | true ↦ some (push_index, q)
  | false ↦
      let previous' = wrap_previous q previous in
      read_at q previous' >>= λ value. write q push_index value >>= λ q'.
      make_room fuel pop_index q' (as_index previous') (sub_ℕ (as_index previous') 1)
]

-- What push_sorted does between the wait and the broadcast.
pub data Insertion : Type 0 where
  rejected : ErrorCode → Insertion
  duplicate : Insertion
  inserted : InternalQueue → Insertion

-- The index for the new value: where the search stopped if it is less than the value there, else
-- the push index.
unfoldable pub room_for : InternalQueue → ℕ → ℤ → Option (ℕ × InternalQueue)
room_for q pop_index compare_result =
    if compare_result ==ℤ compare_less
    then make_room (suc q.allocated_number_of_values) pop_index q q.push_index
        (sub_ℕ q.push_index 1)
    else some (q.push_index, q)

unfoldable pub insert_at : Pointer → InternalQueue → ℕ → ℤ → Option InternalQueue
insert_at value q pop_index compare_result = room_for q pop_index compare_result >>= λ r.
    let (push_index, q') = r in write q' push_index value >>= λ q''. some (pushed q'')

-- What follows the loop of the search.
unfoldable pub settle : Pointer → InternalQueue → Search → Option Insertion
settle value q (failed e) = some (rejected e)
settle value q (stopped pop_index compare_result result) =
    if result ==ℤ pos 0
    then some duplicate
    else insert_at value q pop_index compare_result >>= λ q'. some (inserted q')

unfoldable pub insert_sorted : Compare → Bool → Pointer → InternalQueue → Option Insertion
insert_sorted compare unique value q =
    search compare unique value q q.number_of_values q.pop_index (pos 0) >>= settle value q
