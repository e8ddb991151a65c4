-- ===== src/Queue/Ranked.antt =====
-- The insertion of libcthreads_queue_push_sorted, with a comparison that compares ranks.
use libcthreads.Common.{
  ℕ, suc, ◌≤◌, ◌<◌, ◌≡◌, inl, inr, refl, sym, ap, ◌⊎◌, Bool, true, false, Option, none, some, List,
  [], ◌∷◌, length, ltb, ◌==◌, arith, if◌then◌else◌, Bool-cases,
}
use libcthreads.Machine.{Pointer}
use libcthreads.Queue.{InternalQueue}
use libcthreads.Queue.Ring.{Compare, compare_less, compare_equal, compare_greater, insert_sorted}
use libcthreads.Queue.Valid.{IsValid, contents}
use libcthreads.Queue.Order.{Placement, refused, present, placed, place, behind, insert_nth}
use libcthreads.Queue.Insert.{Inserts, insert_sorted_lem}

module _ (rank : Pointer → ℕ) where
  -- The comparison of ranks, by the values of LIBCTHREADS_COMPARE_DEFINITIONS.
  abbrev pub by_rank : Compare
  by_rank a b =
      if ltb (rank a) (rank b)
      then compare_less
      else if rank a == rank b
      then compare_equal
      else compare_greater

  -- One rank may follow another; a first one has none before it.
  abbrev pub Follows : Bool → Option ℕ → ℕ → Type 0
  Follows unique none b = Unit {0}
  Follows true (some a) b = a < b
  Follows false (some a) b = a ≤ b

  -- The ranks never fall, and rise where values are unique.
  abbrev pub Rises : Bool → Option ℕ → List Pointer → Type 0
  Rises unique low [] = Unit {0}
  Rises unique low (x ∷ xs) = Follows unique low (rank x) × Rises unique (some (rank x)) xs

  abbrev pub HasRank : ℕ → List Pointer → Type 0
  HasRank n [] = ⊥
  HasRank n (x ∷ xs) = (rank x ≡ n) ⊎ HasRank n xs

  -- A placement of `v` in a sorted list: the list with `v` somewhere in it, sorted; or `v` has the
  -- rank of a value that is there and values are unique; never an error.
  abbrev pub PlacedWell : Bool → Pointer → Option ℕ → List Pointer → Placement → Type 0
  PlacedWell unique v low xs (refused e) = ⊥
  PlacedWell unique v low xs present = (unique ≡ true) × HasRank (rank v) xs
  PlacedWell unique v low xs (placed ys) =
      Rises unique low ys × ((k : ℕ) × (k ≤ length xs) × (ys ≡ insert_nth k v xs))

  behind-PlacedWell :
      (unique : Bool) (v x : Pointer) (low : Option ℕ) (xs : List Pointer) (r : Placement)
      → Follows unique low (rank x)
      → PlacedWell unique v (some (rank x)) xs r
      → PlacedWell unique v low (x ∷ xs) (behind x r)
  behind-PlacedWell unique v x low xs (refused e) follows h = h
  behind-PlacedWell unique v x low xs present follows (u, has) = (u, inr has)
  behind-PlacedWell unique v x low xs (placed ys) follows (rises, (k, le, same)) =
      ((follows, rises), (suc k, omega arith, ap (◌∷◌ x) same))

  less-Follows : (unique : Bool) (a b : ℕ) → a < b → Follows unique (some a) b
  less-Follows true a b h = h
  less-Follows false a b h = omega arith

  -- Any rank comparison is one of three.
  place-PlacedWell :
      (unique : Bool) (v : Pointer) (low : Option ℕ) (xs : List Pointer)
      → Follows unique low (rank v)
      → Rises unique low xs
      → PlacedWell unique v low xs (place by_rank unique v xs)
  unfolding place
  place-PlacedWell unique v low [] follows rises = ((follows, tt), (0, omega arith, refl))
  place-PlacedWell unique v low (x ∷ xs) follows (x_follows, rises) =
      elim (Bool-cases (ltb (rank v) (rank x))) [
        | inl less ↦ rw less (
          (follows, (less-Follows unique (rank v) (rank x) (ground arith), rises)),
          (0, omega arith, refl),
        )
        | inr not_less ↦ rw not_less (elim (Bool-cases (rank v == rank x)) [
          | inl equal ↦ rw equal (
              equal_case unique v x low xs (ground arith) x_follows rises
                λ f. place-PlacedWell unique v (some (rank x)) xs f rises)
          | inr differs ↦ rw differs (
              behind-PlacedWell unique v x low xs _ x_follows (
                place-PlacedWell unique v (some (rank x)) xs
                  (less-Follows unique (rank x) (rank v) (ground arith)) rises))
        ])
      ]
    where
      equal_case :
          (unique : Bool) (v x : Pointer) (low : Option ℕ) (xs : List Pointer)
          → rank v ≡ rank x
          → Follows unique low (rank x)
          → Rises unique (some (rank x)) xs
          → (Follows unique (some (rank x)) (rank v)
              → PlacedWell unique v (some (rank x)) xs (place by_rank unique v xs))
          → PlacedWell unique v low
              (x ∷ xs)
              (if unique then present else behind x (place by_rank unique v xs))
      equal_case true v x low xs same x_follows rises again = (refl, inl (sym same))
      equal_case false v x low xs same x_follows rises again =
          behind-PlacedWell false v x low xs _ x_follows (again (omega arith))

  -- On a valid queue with room whose values are sorted by rank, insert_sorted with a comparison of
  -- ranks never reports an error, keeps the queue valid, and leaves the values sorted with the new
  -- one among them; or it changes nothing since values are unique and one has this rank.
  pub insert_sorted-PlacedWell :
      (q : InternalQueue) (unique : Bool) (v : Pointer)
      → IsValid q
      → q.number_of_values < q.allocated_number_of_values
      → Rises unique none (contents q)
      → (r : Placement) × Inserts q (insert_sorted by_rank unique v q) r
        × PlacedWell unique v none (contents q) r
  insert_sorted-PlacedWell q unique v valid room rises = (
    place by_rank unique v (contents q),
    insert_sorted_lem valid (omega arith) by_rank unique v,
    place-PlacedWell unique v none (contents q) tt rises,
  )
