-- ===== src/Pool.antt =====
-- libcthreads/libcthreads_thread_pool.c and libcthreads_thread_pool.h, as built with HAVE_PTHREAD_H
-- and without WINAPI: the state of a thread pool. The members that a queue has as well, `pop_index`
-- to `full_condition`, are the machine's object; the other members stand in the world beside the
-- system, so that a call that blocks can change them too.
pub mod Calls
pub mod Pop
pub mod Push
pub mod Work
pub mod Lifetime
pub mod Create
pub mod Abandon
pub mod Created
pub mod Joins
pub mod Drain
pub mod Join
pub mod System
pub mod Sleepers
use libcthreads.Common.{ℕ, Option, none, some, List, get_elem?, ◌==◌, Bool}
use libcthreads.Machine.{Pointer, M, State, Exec}
use libcthreads.Machine.Exec.{done, fault}

-- LIBCTHREADS_STATUS_EXIT
abbrev pub status_exit : ℕ
status_exit = 1

pub record Members : Type 0 where
  pub number_of_threads : ℕ
  -- `none` is an array that is not there or not written
  pub threads_array : Option (List ℕ)
  pub callback_function : Pointer
  pub callback_function_arguments : Pointer
  pub status : ℕ

pub record PoolWorld (W : Type 0) : Type 0 where
  pub system : W
  pub members : Members

-- An element of an array that may not be there.
abbrev pub element_of : Option (List ℕ) → ℕ → Option ℕ
element_of none index = none
element_of (some elements) index = get_elem? elements index

module _ {W Obj : Type 0} where
  abbrev pub get_members : M (PoolWorld W) Obj Members
  get_members s = done (s.world.members, s)

  abbrev pub update_members : (Members → Members) → M (PoolWorld W) Obj (Unit {0})
  update_members f s =
      done (tt, record s { world = record s.world { members = f s.world.members } })

  abbrev pub found : State (PoolWorld W) Obj → Option ℕ → Exec (ℕ × State (PoolWorld W) Obj)
  found s none = fault
  found s (some thread) = done (thread, s)

  -- threads_array[ index ]
  unfoldable pub read_thread : ℕ → M (PoolWorld W) Obj ℕ
  read_thread index s = found s (element_of s.world.members.threads_array index)
