-- ===== src/Queue/View.antt =====
-- Queues without their representation: rings that hold the same values in the same order are one.
use mathlib.Core.Quot
use mathlib.Core.Quot.{Quot, Quot-set}
use libcthreads.Common.{ℕ, ◌≡◌, ◌∙◌, ap, sym, List}
use libcthreads.Machine.{Pointer}
use libcthreads.Queue.{InternalQueue}
use libcthreads.Queue.Valid.{contents, IsValid}
use libcthreads.Queue.Others.{Act, act, act-Sound}
use libcthreads.Queue.Abstract.{act_on, contents-act}

-- The valid queues with room for `cap` values.
abbrev pub Rings : ℕ → Type 0
Rings cap = (q : InternalQueue) × IsValid q × (q.allocated_number_of_values ≡ cap)

module _ (cap : ℕ) where
  abbrev pub SameValues : Rings cap → Rings cap → Type 0
  SameValues r r' = contents r.0 ≡ contents r'.0

  abbrev pub View : Type 0
  View = Quot SameValues

  abbrev pub act_ring : Act → Rings cap → Rings cap
  act_ring a (q, ok, size) =
      (act q a, (act-Sound a ok).valid, (act-Sound a ok).keeps.same_allocated ∙ size)

  pub contents-act_ring :
      (a : Act) (r : Rings cap) → contents (act_ring a r).0 ≡ act_on cap a (contents r.0)
  contents-act_ring a (q, ok, size) = contents-act q a ok ∙ ap (λ n. act_on n a (contents q)) size

  -- A critical section, on queues without their representation.
  unfoldable pub act_view : Act → View → View
  act_view a =
      Quot.lift Quot-set (λ r. Quot.mk (act_ring a r))
        (λ r r' h.
          Quot.sound (contents-act_ring a r ∙ ap (act_on cap a) h ∙ sym (contents-act_ring a r')))

  pub List-set : IsSet (List Pointer)
  List-set = hlevel

  -- The values, the next one to pop first.
  unfoldable pub values_of : View → List Pointer
  values_of = Quot.lift List-set (λ r. contents r.0) (λ r r' h. h)

  -- On queues without their representation, a critical section of a push, a pop or a sorted insertion
  -- does to the list of values what `act_on` does: it appends the value where there is room, takes
  -- the first one off where there is one, or places the value by the comparison where there is room,
  -- and does nothing where the comparison fails or unique values hold an equal one.
  pub values_of-act_view :
      (a : Act) (b : View) → values_of (act_view a b) ≡ act_on cap a (values_of b)
  unfolding values_of act_view
  values_of-act_view a = Quot.ind (λ b. List-set _ _) (λ r. contents-act_ring a r)
