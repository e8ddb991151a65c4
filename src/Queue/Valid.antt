-- ===== src/Queue/Valid.antt =====
-- The representation invariant of a queue, and the values that it holds.
use libcthreads.Common.{◌≤◌, ◌<◌, ◌≡◌, ap, none, some, List, [], length}
use libcthreads.Machine.{Pointer}
use libcthreads.Queue.{InternalQueue}
use libcthreads.Queue.Window.{slot, window, length-window}

-- The array, where there is one.
abbrev pub cells : InternalQueue → List Pointer
cells q = elim q.values_array [ none ↦ [] | some values ↦ values ]

-- The values in the queue, the next one to pop first.
abbrev pub contents : InternalQueue → List Pointer
contents q = window (cells q) q.allocated_number_of_values q.pop_index q.number_of_values

pub record IsValid (q : InternalQueue) : Type 0 where
  pub array : q.values_array ≡ some (cells q)
  pub allocated : length (cells q) ≡ q.allocated_number_of_values
  pub counted : q.number_of_values ≤ q.allocated_number_of_values
  pub pop_in : q.pop_index < q.allocated_number_of_values
  pub push_at : q.push_index ≡ slot q.allocated_number_of_values q.pop_index q.number_of_values

pub length-contents : (q : InternalQueue) → length (contents q) ≡ q.number_of_values
length-contents q =
    length-window (cells q) q.allocated_number_of_values q.pop_index q.number_of_values

-- What no operation on a queue that exists changes.
pub record Keeps (q q' : InternalQueue) : Type 0 where
  pub same_allocated : q'.allocated_number_of_values ≡ q.allocated_number_of_values
  pub same_mutex : q'.condition_mutex ≡ q.condition_mutex
  pub same_empty : q'.empty_condition ≡ q.empty_condition
  pub same_full : q'.full_condition ≡ q.full_condition

pub contents_of_zero : (q : InternalQueue) → q.number_of_values ≡ 0 → contents q ≡ []
contents_of_zero q e = ap (window (cells q) q.allocated_number_of_values q.pop_index) {y = 0} e
