-- ===== src/Queue.antt =====
-- libcthreads/libcthreads_queue.h and libcthreads_queue.c: the queue's state.
-- Its `int` members stand as natural numbers: `IsValid` bounds them by
-- `allocated_number_of_values`, which is an `int`.
pub mod Ring
pub mod Window
pub mod Valid
pub mod Fifo
pub mod Room
pub mod Order
pub mod Search
pub mod Place
pub mod Insert
pub mod Ranked
pub mod Calls
pub mod Others
pub mod Occurrences
pub mod History
pub mod Sleeping
pub mod Waiters
pub mod Abstract
pub mod View
pub mod Environment
pub mod Steps
pub mod Results
pub mod Push
pub mod Pop
pub mod Sorted
pub mod Refusals
pub mod Total
pub mod Lifetime
pub mod Created
pub mod Freed
pub mod Teardown
pub mod Disposal
use libcthreads.Common.{ℕ, Option, List}
use libcthreads.Machine.{Pointer}

pub record InternalQueue : Type 0 where
  pub pop_index : ℕ
  pub push_index : ℕ
  pub number_of_values : ℕ
  pub allocated_number_of_values : ℕ
  -- `none` is NULL
  pub values_array : Option (List Pointer)
  pub condition_mutex : Pointer
  pub empty_condition : Pointer
  pub full_condition : Pointer
