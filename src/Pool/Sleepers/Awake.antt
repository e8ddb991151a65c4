-- ===== src/Pool/Sleepers/Awake.antt =====
-- While a thread sleeps in a function of a pool, the test of the function's loop holds.
use libcthreads.Common.{ℕ, ◌≡◌, ◌≢◌, refl, true, List, ◌∷◌, ◌++◌, arith}
use libcthreads.Machine.{Pointer}
use libcthreads.Queue.{InternalQueue}
use libcthreads.Queue.Valid.{IsValid}
use libcthreads.Queue.Occurrences.{
  enqueue-Grows, insert_sorted-Grows, dequeue-Taken, has_value_after,
}
use libcthreads.Queue.Sleeping.{
  Thread, running, away, Sleeps, Unblocks, Waits, AllWait, AllWait-replace, sleeper-Waits,
  all_away-AllWait, Woken-AllWait,
}
use libcthreads.Pool.{Members, status_exit}
use libcthreads.Pool.Lifetime.{put_status}
use libcthreads.Pool.Sleepers.{
  Part, push, push_sorted, pop, join, part_waits_while, part_waits_on, Step, calls, sleeps, wakes,
  pushes, inserts, refuses, pops, misses, tells, drains, Reach, begun, later,
}

abbrev Stays : Members → InternalQueue → Part → Type 0
Stays m q c = part_waits_while c m q ≡ true

-- After a value more, and room before.
with_more :
    (m : Members) (q q' : InternalQueue)
    → q.number_of_values ≢ q.allocated_number_of_values
    → q'.number_of_values ≢ 0
    → (c : Part) → Stays m q c
    → part_waits_on c q ≢ q.empty_condition
    → Stays m q' c
with_more m q q' room some_value (push v) h other = ground arith
with_more m q q' room some_value (push_sorted compare unique v) h other = ground arith
with_more m q q' room some_value pop h other = absurd (other refl)
with_more m q q' room some_value join h other = ground arith

-- After a value less.
with_fewer :
    (m : Members) (q q' : InternalQueue)
    → q.number_of_values ≢ 0
    → (c : Part) → Stays m q c
    → part_waits_on c q ≢ q.full_condition
    → Stays m q' c
with_fewer m q q' left (push v) h other = absurd (other refl)
with_fewer m q q' left (push_sorted compare unique v) h other = absurd (other refl)
with_fewer m q q' left pop h other = ground arith
with_fewer m q q' left join h other = absurd (other refl)

-- After the exit status.
when_told :
    (m : Members) (q : InternalQueue) (c : Part)
    → Stays m q c
    → part_waits_on c q ≢ q.empty_condition
    → Stays (put_status status_exit m) q c
when_told m q (push v) h other = h
when_told m q (push_sorted compare unique v) h other = h
when_told m q pop h other = absurd (other refl)
when_told m q join h other = h

record IsAwake (m : Members) (q : InternalQueue) (ts : List (Thread Part)) : Type 0 where
  valid : IsValid q
  waiting : AllWait (Stays m q) ts

-- One thread goes on, and the pool stays.
moved-IsAwake :
    (m : Members) (q : InternalQueue) (ts before after : List (Thread Part)) (t t' : Thread Part)
    → IsAwake m q ts
    → ts ≡ before ++ t ∷ after
    → Waits (Stays m q) t'
    → IsAwake m q (before ++ t' ∷ after)
moved-IsAwake m q ts before after t t' h at_place w = record {
  valid = h.valid;
  waiting = AllWait-replace (Stays m q) ts before t t' after h.waiting at_place w;
}

module _ (Woken : Pointer → InternalQueue → List (Thread Part) → List (Thread Part) → Type 0)
    (unblocks : Unblocks part_waits_on Woken) where
  -- A thread goes on and wakes others.
  Woken-IsAwake :
      (condition : Pointer) (m m' : Members) (q q' : InternalQueue)
      (ts before after ts' : List (Thread Part)) (t t' : Thread Part)
      → IsAwake m q ts
      → ts ≡ before ++ t ∷ after
      → Waits (Stays m q) t'
      → Woken condition q (before ++ t' ∷ after) ts'
      → IsValid q'
      → ((c : Part) → Stays m q c → part_waits_on c q ≢ condition → Stays m' q' c)
      → IsAwake m' q' ts'
  Woken-IsAwake condition m m' q q' ts before after ts' t t' h at_place w awake ok stays =
      let left = AllWait-replace (Stays m q) ts before t t' after h.waiting at_place w in
      record {
        valid = ok;
        waiting =
            Woken-AllWait part_waits_on Woken (Stays m q) (Stays m' q') condition q _ ts' unblocks
              awake left stays;
      }

  Step-IsAwake :
      {m m' : Members} {q q' : InternalQueue} {ts ts' : List (Thread Part)}
      → IsAwake m q ts
      → Step Woken m q ts m' q' ts'
      → IsAwake m' q' ts'
  Step-IsAwake h (calls before after c other at_place) =
      moved-IsAwake _ _ _ before after _ _ h at_place tt
  Step-IsAwake h (sleeps before after c at_place test) =
      moved-IsAwake _ _ _ before after _ _ h at_place test
  Step-IsAwake h (wakes before after c at_place) =
      moved-IsAwake _ _ _ before after _ _ h at_place tt
  Step-IsAwake {m} {q = q} h (pushes {ts'} {q'} before after v at_place test runs awake) =
      let grows = enqueue-Grows h.valid v q' (ground arith) runs in
      Woken-IsAwake q.empty_condition m m q q' _ before after ts' _ away h at_place tt awake
        grows.valid (with_more m q q' (ground arith) (has_value_after grows))
  Step-IsAwake {m} {q = q} h
        (inserts {ts'} {q'} before after compare unique v at_place test runs awake) =
      let grows = insert_sorted-Grows h.valid compare unique v q' (ground arith) runs in
      Woken-IsAwake q.empty_condition m m q q' _ before after ts' _ away h at_place tt awake
        grows.valid (with_more m q q' (ground arith) (has_value_after grows))
  Step-IsAwake h (refuses before after compare unique v at_place test) =
      moved-IsAwake _ _ _ before after _ _ h at_place tt
  Step-IsAwake {m} {q = q} h (pops {ts'} {q'} {v} before after at_place test left runs awake) =
      let taken = dequeue-Taken h.valid v q' (ground arith) runs in
      Woken-IsAwake q.full_condition m m q q' _ before after ts' _ away h at_place tt awake
        taken.valid (with_fewer m q q' (ground arith))
  Step-IsAwake h (misses before after at_place test empty) =
      moved-IsAwake _ _ _ before after _ _ h at_place tt
  Step-IsAwake {m} {q = q} h (tells {ts'} before after at_place awake) =
      Woken-IsAwake q.empty_condition m (put_status status_exit m) q q _ before after ts' _
        (running join) h at_place tt awake h.valid (when_told m q)
  Step-IsAwake h (drains before after at_place test) =
      moved-IsAwake _ _ _ before after _ _ h at_place tt

  Reach-IsAwake :
      (m0 : Members) (q0 : InternalQueue) (n : ℕ) (m : Members) (q : InternalQueue)
      (ts : List (Thread Part))
      → IsValid q0
      → Reach Woken m0 q0 n m q ts
      → IsAwake m q ts
  Reach-IsAwake m0 q0 n _ _ _ ok begun = record {
    valid = ok;
    waiting = all_away-AllWait (Stays m0 q0) n;
  }
  Reach-IsAwake m0 q0 n _ _ _ ok (later reach step) =
      Step-IsAwake (Reach-IsAwake m0 q0 n _ _ _ ok reach) step

  -- However the threads of a pool with a valid ring, its callers and the one that joins it take
  -- turns, where no call of the threads library fails and a broadcast unblocks those who wait on its
  -- condition: once the exit status is set, no thread of the pool sleeps in pop, and join sleeps
  -- only while there is a value in the ring.
  pub told_awake :
      (m0 : Members) (q0 : InternalQueue) (n : ℕ) (m : Members) (q : InternalQueue)
      (ts : List (Thread Part))
      → IsValid q0
      → Reach Woken m0 q0 n m q ts
      → m.status ≡ status_exit
      → (¬ Sleeps pop ts) × (Sleeps join ts → q.number_of_values ≢ 0)
  told_awake m0 q0 n m q ts ok reach told =
      let waiting = (Reach-IsAwake m0 q0 n m q ts ok reach).waiting in
      (
        λ asleep. ground (arith, sleeper-Waits (Stays m q) ts pop waiting asleep),
        λ asleep. ground (arith, sleeper-Waits (Stays m q) ts join waiting asleep),
      )
