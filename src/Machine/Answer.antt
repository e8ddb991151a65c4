-- ===== src/Machine/Answer.antt =====
-- How a wrapper of a threads function reports the function's answer.
use libcthreads.Common.{
  ℕ, ◌≡◌, ◌≢◌, ◌⊎◌, inl, inr, refl, ap, true, false, ℤ, Option, some, ◌∷◌, ◌==◌, arith,
}
use libcthreads.Machine.{Pointer, null, State, Report, success, failure}

-- From the state `s`, with the answer `code` that leaves the world `w` and the object `q`: the
-- wrapper returns 1 and reports nothing if `code` is 0, else it returns -1 and reports one error.
pub record Answered {W Obj : Type 0} (code : ℕ) (w : W) (q : Obj) (s : State W Obj) (r : ℤ)
    (t : State W Obj) : Type 0 where
  pub world : t.world ≡ w
  pub object : t.object ≡ q
  pub result :
      ((code ≡ 0) × (r ≡ success) × (t.errors ≡ s.errors))
      ⊎ ((code ≢ 0) × (r ≡ failure) × ((e : Report) × (t.errors ≡ e ∷ s.errors)))

pub Answered-success :
    {W Obj : Type 0} (code : ℕ) (s t : State W Obj)
    → (code == 0) ≡ true
    → t.errors ≡ s.errors
    → Answered code t.world t.object s success t
Answered-success code s t zero_code same = record {
  world = refl;
  object = refl;
  result = inl (ground arith, refl, same);
}

pub Answered-failure :
    {W Obj : Type 0} (code : ℕ) (s t : State W Obj) (e : Report)
    → (code == 0) ≡ false
    → t.errors ≡ s.errors
    → Answered code t.world t.object s failure (record t { errors = e ∷ t.errors })
Answered-failure code s t e other same = record {
  world = refl;
  object = refl;
  result = inr (ground arith, refl, (e, ap (◌∷◌ e) same));
}

-- From the state `s`, what a call creates in a location that holds NULL: a structure at `a`; or it
-- fails and leaves NULL. The shared object stays.
pub data Made {W Obj : Type 0} (s : State W Obj) : ℤ × Option Pointer → State W Obj → Type 0 where
  made :
      {a : Pointer} {t : State W Obj} → a ≢ null → t.object ≡ s.object → Made s (success, some a) t
  unmade : {t : State W Obj} → t.object ≡ s.object → Made s (failure, some null) t
