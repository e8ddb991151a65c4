-- ===== src/ThreadAttributes.antt =====
-- libcthreads/libcthreads_thread_attributes.c, as built with HAVE_PTHREAD_H and without WINAPI: the
-- structure is allocated and freed, and no attribute is set.
use libcthreads.Common.{◌≡◌, ◌≢◌, false, Option, none, some, ℤ, ◌==◌, arith, if◌then◌else◌}
use libcthreads.Machine.{
  Pointer, null, Platform, State, M, ◌>>◌, return, success, refuse, call, Structure,
}
use libcthreads.Machine.ErrorCode.{arguments_invalid_value}
use libcthreads.Machine.Report.{error_set}
use libcthreads.Machine.Exec.{done}
use libcthreads.Machine.Post.{Post}
use libcthreads.Machine.Answer.{Made, made, unmade}
use libcthreads.Handle.{allocate, unset}
use libcthreads.Handle.Laws.{allocate_lem}

module _ {W Obj : Type 0} (p : Platform W Obj) where
  pub initialize : Option Pointer → M W Obj (ℤ × Option Pointer)
  initialize thread_attributes =
      unset p thread_attributes (
        allocate p Structure.internal_thread_attributes λ internal. return (success, some internal))

  pub free : Option Pointer → M W Obj (ℤ × Option Pointer)
  free none = refuse none (error_set arguments_invalid_value)
  free (some thread_attributes) =
      if thread_attributes == null
      then return (success, some null)
      else do call (λ w. (tt, p.memory_free thread_attributes w)); return (success, some null)

  abbrev pub Lives : Pointer → State W Obj → Type 0
  Lives a s =
      Post ⊥ (Made s) (initialize (some null) s)
      × (free (some a) s
          ≡ done ((success, some null), record s { world = p.memory_free a s.world }))

  -- libcthreads_thread_attributes_initialize, with NULL in `*thread_attributes`, returns 1 and leaves
  -- a structure there, or returns -1 and leaves NULL; libcthreads_thread_attributes_free on a
  -- structure frees its memory once, leaves NULL and returns 1.
  pub lifetime_lem : (a : Pointer) (s : State W Obj) → a ≢ null → Lives a s
  unfolding initialize unset free
  lifetime_lem a s set =
      let f : (a == null) ≡ false = ground arith in
      (
        allocate_lem p (Made s) _ _ s (λ t same. unmade same) (λ b t b_set same. made b_set same),
        rw f,
      )
