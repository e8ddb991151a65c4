-- ===== src/Queue/Occurrences.antt =====
-- How often a value stands in a list, and what the operations of the ring do to that.
use libcthreads.Common.{
  ap, ℕ, ◌+◌, ◌≡◌, ◌≢◌, subst, subst₂, Bool, Option, some, List, [], ◌∷◌, ◌++◌, arith, ℤ, negsuc,
  ◌==◌, ◌==ℤ◌, if◌then◌else◌, Bool-cases, inl, inr,
}
use libcthreads.Machine.{Pointer}
use libcthreads.Queue.{InternalQueue}
use libcthreads.Queue.Ring.{
  Compare, compare_less, compare_equal, compare_greater, enqueue, dequeue, Insertion, inserted,
  insert_sorted,
}
use libcthreads.Queue.Valid.{contents, contents_of_zero, IsValid, Keeps}
use libcthreads.Queue.Fifo.{enqueue_lem, dequeue_lem}
use libcthreads.Queue.Order.{Placement, refused, present, placed, place, place_by, behind}
use libcthreads.Queue.Insert.{Inserts, insert_sorted_lem}
use libcthreads.Queue.Results.{Taken}

abbrev pub occurrences : Pointer → List Pointer → ℕ
occurrences u [] = 0
occurrences u (x ∷ xs) = (if u == x then 1 else 0) + occurrences u xs

pub occurrences-append :
    (u : Pointer) (xs ys : List Pointer)
    → occurrences u (xs ++ ys) ≡ occurrences u xs + occurrences u ys
occurrences-append u [] ys = omega arith
occurrences-append u (x ∷ xs) ys = omega (arith, occurrences-append u xs ys)

-- `v` is one value more, and the queue stays valid.
pub record Grows (v : Pointer) (q q' : InternalQueue) : Type 0 where
  pub valid : IsValid q'
  pub keeps : Keeps q q'
  pub more :
      (u : Pointer)
      → occurrences u (contents q') ≡ occurrences u (contents q) + occurrences u (v ∷ [])

-- A list in which `v` was placed among `xs`.
abbrev Places : Pointer → Pointer → List Pointer → Placement → Type 0
Places u v xs (placed ys) = occurrences u ys ≡ occurrences u xs + occurrences u (v ∷ [])
Places u v xs _ = Unit {0}

behind-Places :
    (u v x : Pointer) (xs : List Pointer) (r : Placement)
    → Places u v xs r
    → Places u v (x ∷ xs) (behind x r)
behind-Places u v x xs (refused e) h = tt
behind-Places u v x xs present h = tt
behind-Places u v x xs (placed ys) h = omega arith

Places-by :
    (u v x : Pointer) (xs : List Pointer) (c : ℤ) (unique : Bool) (here further : Placement)
    → Places u v (x ∷ xs) here
    → Places u v (x ∷ xs) further
    → Places u v (x ∷ xs) (place_by c unique here further)
Places-by u v x xs c unique here further h g = elim (Bool-cases (c ==ℤ compare_less)) [
  | inl less ↦ rw less h
  | inr not_less ↦ elim (Bool-cases (c ==ℤ compare_equal)) [
    | inl equal ↦ elim (Bool-cases unique) [
      | inl is_unique ↦ rw (not_less, equal, is_unique) tt
      | inr not_unique ↦ rw (not_less, equal, not_unique) g
    ]
    | inr not_equal ↦ elim (Bool-cases (c ==ℤ compare_greater)) [
      | inl greater ↦ rw (not_less, not_equal, greater) g
      | inr other ↦ elim (Bool-cases (c ==ℤ negsuc 0)) [
        | inl error ↦ rw (not_less, not_equal, other, error) tt
        | inr unknown ↦ rw (not_less, not_equal, other, unknown) tt
      ]
    ]
  ]
]

place-Places :
    (compare : Compare) (unique : Bool) (u v : Pointer) (xs : List Pointer)
    → Places u v xs (place compare unique v xs)
unfolding place
place-Places compare unique u v [] = omega arith
place-Places compare unique u v (x ∷ xs) =
    Places-by u v x xs (compare v x) unique _ _ (omega arith)
      (behind-Places u v x xs _ (place-Places compare unique u v xs))

-- The insertion of a placement gives the queue in the result.
Inserts-Grows :
    (v : Pointer) (q q' : InternalQueue) (result : Option Insertion) (r : Placement)
    → ((u : Pointer) → Places u v (contents q) r)
    → Inserts q result r
    → result ≡ some (inserted q')
    → Grows v q q'
Inserts-Grows v q q' result (refused e) h runs is_inserted = absurd (cc)
Inserts-Grows v q q' result present h runs is_inserted = absurd (cc)
Inserts-Grows v q q' result (placed ys) h (q'', runs, ok, kept, same) is_inserted =
    let equal : q'' ≡ q' = cc in
    subst (Grows v q) equal (record { valid = ok; keeps = kept; more = λ u. rw same (h u) })

module _ {q : InternalQueue} (ok : IsValid q) where
  pub enqueue-Grows :
      (v : Pointer) (q' : InternalQueue)
      → q.number_of_values ≢ q.allocated_number_of_values
      → enqueue v q ≡ some q'
      → Grows v q q'
  enqueue-Grows v q' room runs =
      let (q'', runs', ok', kept, same) = enqueue_lem ok room v in
      let equal : q'' ≡ q' = cc in
      subst (Grows v q) equal (record {
        valid = ok';
        keeps = kept;
        more = λ u. rw same (occurrences-append u (contents q) (v ∷ []));
      })

  pub dequeue-Taken :
      (v : Pointer) (q' : InternalQueue)
      → q.number_of_values ≢ 0
      → dequeue q ≡ some (v, q')
      → Taken v q q'
  dequeue-Taken v q' left runs =
      let (v', q'', runs', ok', kept, same) = dequeue_lem ok left in
      let first : v' ≡ v = cc in
      let equal : q'' ≡ q' = cc in
      subst₂ (λ x r. Taken x q r) first equal (record { valid = ok'; keeps = kept; values = same })

  pub insert_sorted-Grows :
      (compare : Compare) (unique : Bool) (v : Pointer) (q' : InternalQueue)
      → q.number_of_values ≢ q.allocated_number_of_values
      → insert_sorted compare unique v q ≡ some (inserted q')
      → Grows v q q'
  insert_sorted-Grows compare unique v q' room is_inserted =
      Inserts-Grows v q q' _ _ (λ u. place-Places compare unique u v (contents q))
        (insert_sorted_lem ok room compare unique v) is_inserted

-- There is a value then.
pub has_value_after : {v : Pointer} {q q' : InternalQueue} → Grows v q q' → q'.number_of_values ≢ 0
has_value_after {v} {q} {q'} grows none_left =
    let one : occurrences v (v ∷ []) ≡ 1 = ground arith in
    omega (arith, grows.more v, one, ap (occurrences v) (contents_of_zero q' none_left))
