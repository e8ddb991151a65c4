-- ===== src/Pool/System/Held.antt =====
-- What the threads of a pool hold, added up over the list of them.
use libcthreads.Common.{ℕ, zero, suc, ◌+◌, ◌*◌, ◌≡◌, refl, List, [], ◌∷◌, ◌++◌, arith}
use libcthreads.Machine.{Pointer}
use libcthreads.Queue.Occurrences.{occurrences, occurrences-append}
use libcthreads.Pool.System.{Place, popping, calling, exited, failed, all_popping}

-- The value that a thread has at this place.
abbrev pub hand : Place → List Pointer
hand (calling v) = v ∷ []
hand _ = []

abbrev pub hands : List Place → List Pointer
hands [] = []
hands (p ∷ ps) = hand p ++ hands ps

-- A number for each place, added up.
module _ (weigh : Place → ℕ) where
  abbrev pub total : List Place → ℕ
  total [] = 0
  total (p ∷ ps) = weigh p + total ps

  total-append : (ps qs : List Place) → total (ps ++ qs) ≡ total ps + total qs
  total-append [] qs = omega arith
  total-append (p ∷ ps) qs = omega (arith, total-append ps qs)

  pub total-split :
      (ps : List Place) (p : Place) (qs : List Place)
      → total (ps ++ p ∷ qs) ≡ total ps + weigh p + total qs
  total-split ps p qs = omega (arith, total-append ps (p ∷ qs))

abbrev pub failures : Place → ℕ
failures failed = 1
failures _ = 0

occurrences-hands :
    (u : Pointer) (ps : List Place)
    → occurrences u (hands ps) ≡ total (λ p. occurrences u (hand p)) ps
occurrences-hands u [] = refl
occurrences-hands u (p ∷ ps) =
    omega (arith, occurrences-append u (hand p) (hands ps), occurrences-hands u ps)

pub occurrences-split :
    (u : Pointer) (ps : List Place) (p : Place) (qs : List Place)
    → occurrences u (hands (ps ++ p ∷ qs))
      ≡ occurrences u (hands ps) + occurrences u (hand p) + occurrences u (hands qs)
occurrences-split u ps p qs = omega (
  arith,
  occurrences-hands u (ps ++ p ∷ qs),
  total-split (λ x. occurrences u (hand x)) ps p qs,
  occurrences-hands u ps,
  occurrences-hands u qs,
)

pub hands_of_popping : (n : ℕ) → hands (all_popping n) ≡ []
hands_of_popping zero = refl
hands_of_popping (suc n) = hands_of_popping n

pub total_of_popping :
    (weigh : Place → ℕ) (n : ℕ) → weigh popping ≡ 0 → total weigh (all_popping n) ≡ 0
total_of_popping weigh zero h = refl
total_of_popping weigh (suc n) h = omega (arith, total_of_popping weigh n h)

abbrev pub all_exited : ℕ → List Place
all_exited zero = []
all_exited (suc n) = exited ∷ all_exited n

pub hands_of_exited : (n : ℕ) → hands (all_exited n) ≡ []
hands_of_exited zero = refl
hands_of_exited (suc n) = hands_of_exited n

pub total_of_exited : (weigh : Place → ℕ) (n : ℕ) → total weigh (all_exited n) ≡ n * weigh exited
total_of_exited weigh zero = omega arith
total_of_exited weigh (suc n) = grind (arith, total_of_exited weigh n)
