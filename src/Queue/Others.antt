-- ===== src/Queue/Others.antt =====
-- What other threads do to a queue while a call waits: each holds the mutex for its own critical
-- section, so the queue changes by a sequence of whole ones.
use libcthreads.Common.{
  ◌≡◌, refl, ◌∙◌, Bool, none, some, List, [], ◌∷◌, ◌++◌, ◌==◌, arith, if◌then◌else◌, Bool-cases,
  inl, inr, Option, ap, sym,
}
use libcthreads.Machine.{Pointer}
use libcthreads.Queue.{InternalQueue}
use libcthreads.Queue.Ring.{enqueue, dequeue, Compare, Insertion, inserted, insert_sorted}
use libcthreads.Queue.Valid.{IsValid, Keeps}
use libcthreads.Queue.Fifo.{enqueue_lem, dequeue_lem}
use libcthreads.Queue.Order.{Placement}
use libcthreads.Queue.Insert.{Inserts, insert_sorted_lem}

pub data Act : Type 0 where
  pushes : Pointer → Act
  pops : Act
  inserts : Compare → Bool → Pointer → Act

abbrev or_same : InternalQueue → Option InternalQueue → InternalQueue
or_same q none = q
or_same q (some q') = q'

abbrev popped : InternalQueue → Option (Pointer × InternalQueue) → InternalQueue
popped q none = q
popped q (some (v, q')) = q'

abbrev pub placed_in : InternalQueue → Option Insertion → InternalQueue
placed_in q (some (inserted q')) = q'
placed_in q _ = q

-- A critical section that finds no room, or no value, changes nothing.
unfoldable pub act : InternalQueue → Act → InternalQueue
act q (pushes v) =
    if q.number_of_values == q.allocated_number_of_values then q else or_same q (enqueue v q)
act q pops = if q.number_of_values == 0 then q else popped q (dequeue q)
act q (inserts compare unique v) =
    if q.number_of_values == q.allocated_number_of_values
    then q
    else placed_in q (insert_sorted compare unique v q)

unfoldable pub acts : InternalQueue → List Act → InternalQueue
acts q [] = q
acts q (a ∷ xs) = acts (act q a) xs

pub record Sound (q q' : InternalQueue) : Type 0 where
  pub valid : IsValid q'
  pub keeps : Keeps q q'

Sound-refl : {q : InternalQueue} → IsValid q → Sound q q
Sound-refl ok = record { valid = ok; keeps = omega arith }

placed-Sound :
    (q : InternalQueue) (result : Option Insertion) (r : Placement)
    → IsValid q
    → Inserts q result r
    → Sound q (placed_in q result)
placed-Sound q result (Placement.refused e) ok h = rw h (Sound-refl ok)
placed-Sound q result Placement.present ok h = rw h (Sound-refl ok)
placed-Sound q result (Placement.placed xs) ok (q', runs, ok', kept, same) =
    rw runs (record { valid = ok'; keeps = kept })

pub act-Sound : {q : InternalQueue} (a : Act) → IsValid q → Sound q (act q a)
unfolding act
act-Sound {q} (pushes v) ok =
    elim (Bool-cases (q.number_of_values == q.allocated_number_of_values)) [
      | inl full ↦ rw full (Sound-refl ok)
      | inr room ↦
          let (q', runs, ok', kept, same) = enqueue_lem ok (ground arith) v in
          rw (room, runs) (record { valid = ok'; keeps = kept })
    ]
act-Sound {q} pops ok = elim (Bool-cases (q.number_of_values == 0)) [
  | inl none_left ↦ rw none_left (Sound-refl ok)
  | inr left ↦
      let (v, q', runs, ok', kept, same) = dequeue_lem ok (ground arith) in
      rw (left, runs) (record { valid = ok'; keeps = kept })
]
act-Sound {q} (inserts compare unique v) ok =
    elim (Bool-cases (q.number_of_values == q.allocated_number_of_values)) [
      | inl full ↦ rw full (Sound-refl ok)
      | inr room ↦
          rw room (placed-Sound q _ _ ok (insert_sorted_lem ok (ground arith) compare unique v))
    ]

Keeps-trans : {q q' q'' : InternalQueue} → Keeps q q' → Keeps q' q'' → Keeps q q''
Keeps-trans h k = omega arith

-- Whatever other threads do, the queue stays valid and keeps its size, mutex and conditions.
pub acts-Sound : (q : InternalQueue) (xs : List Act) → IsValid q → Sound q (acts q xs)
unfolding acts
acts-Sound q [] ok = Sound-refl ok
acts-Sound q (a ∷ xs) ok =
    let one = act-Sound a ok in
    let rest = acts-Sound (act q a) xs one.valid in
    record { valid = rest.valid; keeps = Keeps-trans one.keeps rest.keeps }

acts-append : (q : InternalQueue) (xs ys : List Act) → acts q (xs ++ ys) ≡ acts (acts q xs) ys
unfolding acts
acts-append q [] ys = refl
acts-append q (a ∷ xs) ys = acts-append (act q a) xs ys

-- `q'` is `q` after some critical sections of other threads.
abbrev pub Others : InternalQueue → InternalQueue → Type 0
Others q q' = (xs : List Act) × (q' ≡ acts q xs)

pub Others-refl : (q : InternalQueue) → Others q q
unfolding acts
Others-refl q = ([], refl)

pub Others-trans : (q q' q'' : InternalQueue) → Others q q' → Others q' q'' → Others q q''
Others-trans q q' q'' (xs, e) (ys, f) =
    (xs ++ ys, f ∙ ap (λ r. acts r ys) e ∙ sym (acts-append q xs ys))

pub Others-Sound : (q q' : InternalQueue) → IsValid q → Others q q' → Sound q q'
Others-Sound q q' ok (xs, e) = rw e (acts-Sound q xs ok)
