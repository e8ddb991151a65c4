-- ===== src/Queue/Abstract.antt =====
-- A queue without its representation: rings that hold the same values in the same order are one.
use libcthreads.Common.{
  ℕ, ◌≡◌, refl, ◌∙◌, ap, sym, Option, List, [], ◌∷◌, ◌++◌, length, arith, ◌==◌, if◌then◌else◌,
  Bool-cases, inl, inr,
}
use libcthreads.Machine.{Pointer}
use libcthreads.Queue.{InternalQueue}
use libcthreads.Queue.Ring.{Insertion}
use libcthreads.Queue.Valid.{contents, IsValid, length-contents, contents_of_zero}
use libcthreads.Queue.Fifo.{enqueue_lem, dequeue_lem}
use libcthreads.Queue.Order.{Placement, refused, present, placed, place}
use libcthreads.Queue.Insert.{Inserts, insert_sorted_lem}
use libcthreads.Queue.Others.{Act, pushes, pops, inserts, act, placed_in}

abbrev pub rest_of : List Pointer → List Pointer
rest_of [] = []
rest_of (x ∷ xs) = xs

abbrev pub if_placed : List Pointer → Placement → List Pointer
if_placed xs (placed ys) = ys
if_placed xs _ = xs

-- What a critical section does to a list of values with room for `cap`.
abbrev pub act_on : ℕ → Act → List Pointer → List Pointer
act_on cap (pushes v) xs = if length xs == cap then xs else xs ++ v ∷ []
act_on cap pops xs = rest_of xs
act_on cap (inserts compare unique v) xs =
    if length xs == cap then xs else if_placed xs (place compare unique v xs)

Inserts-contents :
    (q : InternalQueue) (result : Option Insertion) (r : Placement)
    → Inserts q result r
    → contents (placed_in q result) ≡ if_placed (contents q) r
Inserts-contents q result (refused e) runs = rw runs refl
Inserts-contents q result present runs = rw runs refl
Inserts-contents q result (placed xs) (q', runs, ok, kept, same) = rw runs same

-- On a valid queue, a critical section does this to the values.
pub contents-act :
    (q : InternalQueue) (a : Act)
    → IsValid q
    → contents (act q a) ≡ act_on q.allocated_number_of_values a (contents q)
unfolding act
contents-act q (pushes v) ok =
    elim (Bool-cases (q.number_of_values == q.allocated_number_of_values)) [
      | inl full ↦ rw (length-contents q, full) refl
      | inr room ↦
          let (q', runs, ok', kept, same) = enqueue_lem ok (ground arith) v in
          rw (length-contents q, room, runs) same
    ]
contents-act q pops ok = elim (Bool-cases (q.number_of_values == 0)) [
  | inl none_left ↦
      let empty = contents_of_zero q (ground arith) in rw none_left (empty ∙ sym (ap rest_of empty))
  | inr left ↦
      let (v, q', runs, ok', kept, same) = dequeue_lem ok (ground arith) in
      rw (left, runs) (sym (ap rest_of same))
]
contents-act q (inserts compare unique v) ok =
    elim (Bool-cases (q.number_of_values == q.allocated_number_of_values)) [
      | inl full ↦ rw (length-contents q, full) refl
      | inr room ↦
          rw (length-contents q, room)
            (Inserts-contents q _ _ (insert_sorted_lem ok (ground arith) compare unique v))
    ]
