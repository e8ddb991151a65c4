-- ===== src/Queue/Order.antt =====
-- What push_sorted means for the list of values: insertion by the caller's comparison.
use libcthreads.Common.{
  ℕ, zero, suc, ◌+◌, ◌-◌, ◌≤◌, ◌≡◌, ◌⊎◌, inl, inr, refl, Bool, true, false, List, [], ◌∷◌, arith,
  length, ℤ, pos, negsuc, ◌==◌, ◌==ℤ◌, if◌then◌else◌,
}
use libcthreads.Machine.{Pointer, ErrorCode}
use libcthreads.Machine.ErrorCode.{runtime_get_failed, arguments_unsupported_value}
use libcthreads.Queue.Ring.{
  Compare, compare_less, compare_equal, compare_greater, Search, stopped, failed,
}

-- The value is refused with an error, is in the list already, or has its place.
pub data Placement : Type 0 where
  refused : ErrorCode → Placement
  present : Placement
  placed : List Pointer → Placement

abbrev pub behind : Pointer → Placement → Placement
behind x (refused e) = refused e
behind x present = present
behind x (placed xs) = placed (x ∷ xs)

-- By the result of the comparison: before this value, not at all, or further on.
abbrev pub place_by : ℤ → Bool → Placement → Placement → Placement
place_by c unique here further =
    if c ==ℤ compare_less
    then here
    else if c ==ℤ compare_equal
    then (if unique then present else further)
    else if c ==ℤ compare_greater
    then further
    else if c ==ℤ negsuc 0
    then refused runtime_get_failed
    else refused arguments_unsupported_value

-- Before the first value that the new one is less than, else at the end; in a list of unique values
-- not where an equal one is met before that.
unfoldable pub place : Compare → Bool → Pointer → List Pointer → Placement
place compare unique v [] = placed (v ∷ [])
place compare unique v (x ∷ xs) =
    place_by (compare v x) unique (placed (v ∷ x ∷ xs)) (behind x (place compare unique v xs))

-- `v` before the value at place `n`.
abbrev pub insert_nth : ℕ → Pointer → List Pointer → List Pointer
insert_nth zero v xs = v ∷ xs
insert_nth (suc n) v [] = v ∷ []
insert_nth (suc n) v (x ∷ xs) = x ∷ insert_nth n v xs

-- The search of the ring, over the list of values from place `k` on.
abbrev pub locate_by : ℤ → Bool → ℕ → Search → Search
locate_by c unique k next =
    if c ==ℤ negsuc 0
    then failed runtime_get_failed
    else if c ==ℤ compare_equal
    then (if unique then stopped k c (pos 0) else next)
    else if c ==ℤ compare_less
    then stopped k c (pos 1)
    else if c ==ℤ compare_greater
    then next
    else failed arguments_unsupported_value

unfoldable pub locate : Compare → Bool → Pointer → List Pointer → ℕ → ℤ → Search
locate compare unique v [] k compare_result = stopped k compare_result (pos 1)
locate compare unique v (x ∷ xs) k compare_result =
    locate_by (compare v x) unique k (locate compare unique v xs (k + 1) (compare v x))

-- A search from place `k` and a placement that agree.
abbrev pub Agrees : Pointer → List Pointer → ℕ → Search → Placement → Type 0
Agrees v xs k (failed e) r = r ≡ refused e
Agrees v xs k (stopped j c result) r =
    ((result ≡ pos 0) × (r ≡ present))
    ⊎ ((result ≡ pos 1)
        × (r ≡ placed (insert_nth (j - k) v xs))
        × (k ≤ j)
        × (j ≤ k + length xs)
        × ((c ≡ compare_less) ⊎ (j ≡ k + length xs)))

Agrees-behind :
    (v x : Pointer) (xs : List Pointer) (k : ℕ) (s : Search) (r : Placement)
    → Agrees v xs (k + 1) s r
    → Agrees v (x ∷ xs) k s (behind x r)
Agrees-behind v x xs k (failed e) r h = ground arith
Agrees-behind v x xs k (stopped j c result) r (inl h) = inl (h.0, ground arith)
Agrees-behind v x xs k (stopped j c result) r (inr h) =
    let e : j - k ≡ suc (j - (k + 1)) = omega (arith, h.2) in
    inr (h.0, rw (h.1, e), omega arith, omega arith, ground arith)

-- One comparison: the cases of `c`.
Agrees-by :
    (c : ℤ) (unique : Bool) (v x : Pointer) (xs : List Pointer) (k : ℕ) (s : Search) (r : Placement)
    → Agrees v (x ∷ xs) k s (behind x r)
    → Agrees v
        (x ∷ xs)
        k
        (locate_by c unique k s)
        (place_by c unique (placed (v ∷ x ∷ xs)) (behind x r))
Agrees-by (negsuc zero) unique v x xs k s r h = refl
Agrees-by (negsuc (suc n)) unique v x xs k s r h =
    let f : (suc n == 0) ≡ false = ground arith in rw f
Agrees-by (pos zero) unique v x xs k s r h =
    inr (refl, (let e : k - k ≡ 0 = omega arith in rw e), omega arith, omega arith, inl refl)
Agrees-by (pos (suc zero)) true v x xs k s r h = inl (refl, refl)
Agrees-by (pos (suc zero)) false v x xs k s r h = h
Agrees-by (pos (suc (suc zero))) unique v x xs k s r h = h
Agrees-by (pos (suc (suc (suc n)))) unique v x xs k s r h =
    let f : (suc (suc (suc n)) == 0) ≡ false = ground arith in
    let g : (suc (suc (suc n)) == 1) ≡ false = ground arith in
    let h : (suc (suc (suc n)) == 2) ≡ false = ground arith in rw (f, g, h)

pub locate-Agrees :
    (compare : Compare) (unique : Bool) (v : Pointer) (xs : List Pointer) (k : ℕ) (c : ℤ)
    → Agrees v xs k (locate compare unique v xs k c) (place compare unique v xs)
unfolding locate place
locate-Agrees compare unique v [] k c =
    inr
      (refl, (let e : k - k ≡ 0 = omega arith in rw e), omega arith, omega arith, inr (omega arith))
locate-Agrees compare unique v (x ∷ xs) k c =
    Agrees-by (compare v x) unique v x xs k _ _
      (Agrees-behind v x xs k _ _ (locate-Agrees compare unique v xs (k + 1) (compare v x)))
