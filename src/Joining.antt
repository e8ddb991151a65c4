-- ===== src/Joining.antt =====
-- What the three join functions do with the answer of pthread_join
-- (libcthreads/libcthreads_thread.c, libcthreads_repeating_thread.c, libcthreads_thread_pool.c).
-- A value that a thread returns is `none` for NULL, else its address and the `int` there.
use libcthreads.Common.{
  ℕ, ◌≡◌, ◌≢◌, inl, inr, refl, Bool, true, false, not, Option, none, some, ℤ, ◌==ℤ◌, ◌==◌,
  if◌then◌else◌, arith, Bool-cases,
}
use libcthreads.Machine.{Pointer, Platform, State, M, return, success, failure, fail, call}
use libcthreads.Machine.ErrorCode.{runtime_finalize_failed}
use libcthreads.Machine.Report.{error_set, system_error_set}
use libcthreads.Machine.Post.{Post}

-- `thread_return_value`, which starts as NULL and is stored if the join succeeds.
abbrev pub stored_value : ℕ → Option (Pointer × ℤ) → Option (Pointer × ℤ)
stored_value pthread_result value = if pthread_result == 0 then value else none

-- No value, or a value of 1.
abbrev pub went_well : Option (Pointer × ℤ) → Bool
went_well none = true
went_well (some (address, value)) = value ==ℤ success

-- The result after a join with this answer.
abbrev pub joined : ℕ → Option (Pointer × ℤ) → ℤ → ℤ
joined pthread_result value result =
    if pthread_result == 0 then (if went_well value then result else failure) else failure

module _ {W Obj : Type 0} (p : Platform W Obj) where
  -- The tests on the answer; `system_code` is the code that is reported for another failure, and
  -- `result` the result so far.
  unfoldable pub join_result : ℕ → ℕ → Option (Pointer × ℤ) → ℤ → M W Obj ℤ
  join_result system_code pthread_result value result =
      if pthread_result == p.edeadlk
      then fail (error_set runtime_finalize_failed)
      else if not (pthread_result == 0)
      then fail (system_error_set system_code runtime_finalize_failed)
      else if went_well (stored_value pthread_result value)
      then return result
      else fail (error_set runtime_finalize_failed)

  unfoldable pub free_value : Option (Pointer × ℤ) → M W Obj (Unit {0})
  free_value none = return tt
  free_value (some (address, value)) = call (λ w. (tt, p.memory_free address w))

  -- The world after a value is freed.
  abbrev pub value_freed : Option (Pointer × ℤ) → W → W
  value_freed none w = w
  value_freed (some (address, value)) w = p.memory_free address w

  -- The tests on the answer change neither the world nor the object, and leave the result as it is if
  -- the thread was joined and it returned nothing or 1, else -1.
  pub join_result_lem :
      (system_code code : ℕ) (value : Option (Pointer × ℤ)) (result : ℤ) (s : State W Obj)
      → p.edeadlk ≢ 0
      → Post ⊥
          (λ r t. (r ≡ joined code value result) × (t.world ≡ s.world) × (t.object ≡ s.object))
          (join_result system_code code value result s)
  unfolding join_result
  join_result_lem system_code code value result s deadlock = elim (Bool-cases (code == 0)) [
    | inl z ↦
        let other : (code == p.edeadlk) ≡ false = ground arith in
        rw (z, other)
          (elim (Bool-cases (went_well value)) [
            | inl y ↦ rw y (refl, refl, refl)
            | inr n ↦ rw n (refl, refl, refl)
          ])
    | inr nz ↦ rw nz (elim (Bool-cases (code == p.edeadlk)) [
      | inl y ↦ rw y (refl, refl, refl)
      | inr n ↦ rw n (refl, refl, refl)
    ])
  ]

  pub free_value_lem :
      (value : Option (Pointer × ℤ)) (s : State W Obj)
      → Post ⊥
          (λ r t. (t.world ≡ value_freed value s.world) × (t.object ≡ s.object))
          (free_value value s)
  unfolding free_value
  free_value_lem none s = (refl, refl)
  free_value_lem (some (address, value)) s = (refl, refl)
