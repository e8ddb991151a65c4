-- ===== src/Queue/History.antt =====
-- The values that pass through a queue in a sequence of critical sections of any threads.
use libcthreads.Common.{
  ◌+◌, ◌≡◌, refl, ◌∙◌, ap, sym, Bool, Option, none, some, List, [], ◌∷◌, ◌++◌, arith, ◌==◌,
  if◌then◌else◌, Bool-cases, inl, inr, append-nil, append_assoc,
}
use libcthreads.Machine.{Pointer}
use libcthreads.Queue.{InternalQueue}
use libcthreads.Queue.Ring.{
  Compare, enqueue, dequeue, Insertion, inserted, rejected, duplicate, insert_sorted,
}
use libcthreads.Queue.Valid.{contents, IsValid}
use libcthreads.Queue.Fifo.{enqueue_lem, dequeue_lem}
use libcthreads.Queue.Others.{Act, pushes, pops, inserts, act, acts, act-Sound, placed_in}
use libcthreads.Queue.Occurrences.{occurrences, occurrences-append, Grows, insert_sorted-Grows}

abbrev if_written : Pointer → Option InternalQueue → List Pointer
if_written v none = []
if_written v (some q') = v ∷ []

abbrev if_inserted : Pointer → Option Insertion → List Pointer
if_inserted v (some (inserted q')) = v ∷ []
if_inserted v _ = []

abbrev if_read : Option (Pointer × InternalQueue) → List Pointer
if_read none = []
if_read (some (v, q')) = v ∷ []

-- The values that one critical section puts into the queue, and those that it takes out.
unfoldable pub given : InternalQueue → Act → List Pointer
given q (pushes v) =
    if q.number_of_values == q.allocated_number_of_values then [] else if_written v (enqueue v q)
given q pops = []
given q (inserts compare unique v) =
    if q.number_of_values == q.allocated_number_of_values
    then []
    else if_inserted v (insert_sorted compare unique v q)

unfoldable pub taken_out : InternalQueue → Act → List Pointer
taken_out q (pushes v) = []
taken_out q pops = if q.number_of_values == 0 then [] else if_read (dequeue q)
taken_out q (inserts compare unique v) = []

-- The same for a sequence of them, in the order in which they are put and taken.
unfoldable pub all_given : InternalQueue → List Act → List Pointer
all_given q [] = []
all_given q (a ∷ xs) = given q a ++ all_given (act q a) xs

unfoldable pub all_taken : InternalQueue → List Act → List Pointer
all_taken q [] = []
all_taken q (a ∷ xs) = taken_out q a ++ all_taken (act q a) xs

-- No value is inserted at a place of its own.
abbrev pub PushesAndPops : List Act → Type 0
PushesAndPops [] = Unit {0}
PushesAndPops (inserts compare unique v ∷ xs) = ⊥
PushesAndPops (_ ∷ xs) = PushesAndPops xs

pushes_given :
    (q : InternalQueue) (v : Pointer)
    → IsValid q
    → contents q ++ given q (pushes v) ≡ contents (act q (pushes v))
unfolding given act
pushes_given q v ok = elim (Bool-cases (q.number_of_values == q.allocated_number_of_values)) [
  | inl full ↦ rw full (append-nil (contents q))
  | inr room ↦
      let (q', runs, ok', kept, same) = enqueue_lem ok (ground arith) v in
      rw (room, runs) (sym same)
]

pops_taken :
    (q : InternalQueue) → IsValid q → contents q ≡ taken_out q pops ++ contents (act q pops)
unfolding taken_out act
pops_taken q ok = elim (Bool-cases (q.number_of_values == 0)) [
  | inl none_left ↦ rw none_left refl
  | inr left ↦
      let (v, q', runs, ok', kept, same) = dequeue_lem ok (ground arith) in rw (left, runs) same
]

-- Whatever threads push to a valid queue and pop off it, in whatever order: the values that were
-- in it and those put into it, in the order of the pushes, are the values taken out, in the order
-- of the pops, and then those still in it.
pub acts-fifo :
    (q : InternalQueue) (xs : List Act)
    → IsValid q
    → PushesAndPops xs
    → contents q ++ all_given q xs ≡ all_taken q xs ++ contents (acts q xs)
unfolding all_given all_taken acts given taken_out
acts-fifo q [] ok plain = append-nil (contents q)
acts-fifo q (pushes v ∷ xs) ok plain =
    let rest = acts-fifo (act q (pushes v)) xs (act-Sound (pushes v) ok).valid plain in
    sym (append_assoc (contents q) (given q (pushes v)) (all_given (act q (pushes v)) xs))
    ∙ ap (λ l. l ++ all_given (act q (pushes v)) xs) (pushes_given q v ok)
    ∙ rest
acts-fifo q (pops ∷ xs) ok plain =
    let rest = acts-fifo (act q pops) xs (act-Sound pops ok).valid plain in
    ap (λ l. l ++ all_given (act q pops) xs) (pops_taken q ok)
    ∙ append_assoc (taken_out q pops) (contents (act q pops)) (all_given (act q pops) xs)
    ∙ ap (λ l. taken_out q pops ++ l) rest
    ∙ sym (
        append_assoc (taken_out q pops) (all_taken (act q pops) xs)
          (contents (acts (act q pops) xs)))
acts-fifo q (inserts compare unique v ∷ xs) ok plain = absurd plain

-- An insertion adds its value where it gives a queue.
inserts_occurrences :
    (u v : Pointer) (q : InternalQueue) (result : Option Insertion)
    → ((q' : InternalQueue) → result ≡ some (inserted q') → Grows v q q')
    → occurrences u (contents q) + occurrences u (if_inserted v result)
      ≡ occurrences u (contents (placed_in q result))
inserts_occurrences u v q none grows = omega arith
inserts_occurrences u v q (some (rejected e)) grows = omega arith
inserts_occurrences u v q (some duplicate) grows = omega arith
inserts_occurrences u v q (some (inserted q')) grows = omega (arith, (grows q' refl).more u)

inserts_given :
    (u : Pointer) (q : InternalQueue) (compare : Compare) (unique : Bool) (v : Pointer)
    → IsValid q
    → occurrences u (contents q) + occurrences u (given q (inserts compare unique v))
      ≡ occurrences u (contents (act q (inserts compare unique v)))
unfolding given act
inserts_given u q compare unique v ok =
    elim (Bool-cases (q.number_of_values == q.allocated_number_of_values)) [
      | inl full ↦ rw full (omega arith)
      | inr room ↦ rw room (
          inserts_occurrences u v q (insert_sorted compare unique v q)
            (λ q'. insert_sorted-Grows ok compare unique v q' (ground arith)))
    ]

nothing_given : (q : InternalQueue) → given q pops ≡ []
unfolding given
nothing_given q = refl

nothing_pushed : (q : InternalQueue) (v : Pointer) → taken_out q (pushes v) ≡ []
unfolding taken_out
nothing_pushed q v = refl

nothing_inserted :
    (q : InternalQueue) (compare : Compare) (unique : Bool) (v : Pointer)
    → taken_out q (inserts compare unique v) ≡ []
unfolding taken_out
nothing_inserted q compare unique v = refl

act-occurrences :
    (u : Pointer) (q : InternalQueue) (a : Act)
    → IsValid q
    → occurrences u (contents q) + occurrences u (given q a)
      ≡ occurrences u (taken_out q a) + occurrences u (contents (act q a))
act-occurrences u q (pushes v) ok = rw (nothing_pushed q v) (
    sym (occurrences-append u (contents q) (given q (pushes v)))
    ∙ ap (occurrences u) (pushes_given q v ok)
    ∙ omega arith)
act-occurrences u q pops ok = rw (nothing_given q) (
    ap (λ l. occurrences u l + 0) (pops_taken q ok)
    ∙ omega (arith, occurrences-append u (taken_out q pops) (contents (act q pops))))
act-occurrences u q (inserts compare unique v) ok =
    rw (nothing_inserted q compare unique v) (inserts_given u q compare unique v ok ∙ omega arith)

-- Also where threads insert values by a comparison: each value stands as often in the queue before
-- and among the values put into it as among the values taken out and in the queue after.
pub acts-occurrences :
    (u : Pointer) (q : InternalQueue) (xs : List Act)
    → IsValid q
    → occurrences u (contents q) + occurrences u (all_given q xs)
      ≡ occurrences u (all_taken q xs) + occurrences u (contents (acts q xs))
unfolding all_given all_taken acts
acts-occurrences u q [] ok = omega arith
acts-occurrences u q (a ∷ xs) ok = omega (
  arith,
  act-occurrences u q a ok,
  acts-occurrences u (act q a) xs (act-Sound a ok).valid,
  occurrences-append u (given q a) (all_given (act q a) xs),
  occurrences-append u (taken_out q a) (all_taken (act q a) xs),
)
