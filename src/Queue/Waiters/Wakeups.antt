-- ===== src/Queue/Waiters/Wakeups.antt =====
-- No wake-up is lost: while a thread sleeps in a call, the test of the call's loop holds.
use libcthreads.Common.{ℕ, ◌≡◌, ◌≢◌, refl, true, List, ◌∷◌, ◌++◌, arith}
use libcthreads.Machine.{Pointer}
use libcthreads.Queue.{InternalQueue}
use libcthreads.Queue.Valid.{IsValid}
use libcthreads.Queue.Occurrences.{
  enqueue-Grows, insert_sorted-Grows, dequeue-Taken, has_value_after,
}
use libcthreads.Queue.Sleeping.{
  Thread, away, Sleeps, Unblocks, Waits, AllWait, AllWait-replace, sleeper-Waits, all_away-AllWait,
  Woken-AllWait,
}
use libcthreads.Queue.Waiters.{
  Call, push, push_sorted, pop, empty, waits_while, waits_on, Step, calls, sleeps, wakes, pushes,
  inserts, refuses, pops, empties, Reach, begun, later,
}

-- The test of the call's loop holds.
abbrev Stays : InternalQueue → Call → Type 0
Stays q c = waits_while c q ≡ true

-- With a value more, and room before: who sleeps on the full condition does so in `empty`.
stays_with_more :
    (q q' : InternalQueue)
    → q.number_of_values ≢ q.allocated_number_of_values
    → q'.number_of_values ≢ 0
    → (c : Call) → waits_while c q ≡ true
    → waits_on c q ≢ q.empty_condition
    → waits_while c q' ≡ true
stays_with_more q q' room some_value (push v) h other = ground arith
stays_with_more q q' room some_value (push_sorted compare unique v) h other = ground arith
stays_with_more q q' room some_value pop h other = absurd (other refl)
stays_with_more q q' room some_value empty h other = ground arith

-- With a value less: nobody sleeps in `pop`, where there was a value, and the others wake up.
stays_with_fewer :
    (q q' : InternalQueue)
    → q.number_of_values ≢ 0
    → (c : Call) → waits_while c q ≡ true
    → waits_on c q ≢ q.full_condition
    → waits_while c q' ≡ true
stays_with_fewer q q' left (push v) h other = absurd (other refl)
stays_with_fewer q q' left (push_sorted compare unique v) h other = absurd (other refl)
stays_with_fewer q q' left pop h other = ground arith
stays_with_fewer q q' left empty h other = absurd (other refl)

record IsAwake (q : InternalQueue) (ts : List (Thread Call)) : Type 0 where
  valid : IsValid q
  waiting : AllWait (Stays q) ts

-- One thread goes on, and the queue stays.
moved-IsAwake :
    (q : InternalQueue) (ts before after : List (Thread Call)) (t t' : Thread Call)
    → IsAwake q ts
    → ts ≡ before ++ t ∷ after
    → Waits (Stays q) t'
    → IsAwake q (before ++ t' ∷ after)
moved-IsAwake q ts before after t t' h at_place w = record {
  valid = h.valid;
  waiting = AllWait-replace (Stays q) ts before t t' after h.waiting at_place w;
}

-- A valid queue has room for a value, so it is not empty and full at once.
opposed :
    (q : InternalQueue) (c : Call)
    → IsValid q
    → c ≢ pop
    → waits_while pop q ≡ true
    → ¬ (waits_while c q ≡ true)
opposed q (push v) ok other none_left full = ground (arith, ok.pop_in)
opposed q (push_sorted compare unique v) ok other none_left full = ground (arith, ok.pop_in)
opposed q pop ok other none_left some_left = other refl
opposed q empty ok other none_left some_left = ground arith

module _ (Woken : Pointer → InternalQueue → List (Thread Call) → List (Thread Call) → Type 0)
    (unblocks : Unblocks waits_on Woken) where
  -- A thread that leaves the queue after it has put a value there, or taken one, wakes the others.
  Woken-IsAwake :
      (condition : Pointer) (q q' : InternalQueue) (ts before after ts' : List (Thread Call))
      (t : Thread Call)
      → IsAwake q ts
      → ts ≡ before ++ t ∷ after
      → Woken condition q (before ++ away ∷ after) ts'
      → IsValid q'
      → ((c : Call) → waits_while c q ≡ true → waits_on c q ≢ condition → waits_while c q' ≡ true)
      → IsAwake q' ts'
  Woken-IsAwake condition q q' ts before after ts' t h at_place awake ok stays =
      let left = AllWait-replace (Stays q) ts before t away after h.waiting at_place tt in
      record {
        valid = ok;
        waiting =
            Woken-AllWait waits_on Woken (Stays q) (Stays q') condition q _ ts' unblocks awake left
              stays;
      }

  Step-IsAwake :
      {q q' : InternalQueue} {ts ts' : List (Thread Call)}
      → IsAwake q ts
      → Step Woken q ts q' ts'
      → IsAwake q' ts'
  Step-IsAwake h (calls before after c at_place) = moved-IsAwake _ _ before after _ _ h at_place tt
  Step-IsAwake h (sleeps before after c at_place test) =
      moved-IsAwake _ _ before after _ _ h at_place test
  Step-IsAwake h (wakes before after c at_place) = moved-IsAwake _ _ before after _ _ h at_place tt
  Step-IsAwake {q} h (pushes {ts'} {q'} before after v at_place test runs awake) =
      let grows = enqueue-Grows h.valid v q' (ground arith) runs in
      Woken-IsAwake q.empty_condition q q' _ before after ts' _ h at_place awake grows.valid
        (stays_with_more q q' (ground arith) (has_value_after grows))
  Step-IsAwake {q} h (inserts {ts'} {q'} before after compare unique v at_place test runs awake) =
      let grows = insert_sorted-Grows h.valid compare unique v q' (ground arith) runs in
      Woken-IsAwake q.empty_condition q q' _ before after ts' _ h at_place awake grows.valid
        (stays_with_more q q' (ground arith) (has_value_after grows))
  Step-IsAwake h (refuses before after compare unique v at_place test) =
      moved-IsAwake _ _ before after _ _ h at_place tt
  Step-IsAwake {q} h (pops {ts'} {q'} {v} before after at_place test runs awake) =
      let taken = dequeue-Taken h.valid v q' (ground arith) runs in
      Woken-IsAwake q.full_condition q q' _ before after ts' _ h at_place awake taken.valid
        (stays_with_fewer q q' (ground arith))
  Step-IsAwake h (empties before after at_place test) =
      moved-IsAwake _ _ before after _ _ h at_place tt

  Reach-IsAwake :
      (q0 : InternalQueue) (n : ℕ) (q : InternalQueue) (ts : List (Thread Call))
      → IsValid q0
      → Reach Woken q0 n q ts
      → IsAwake q ts
  Reach-IsAwake q0 n _ _ ok begun = record { valid = ok; waiting = all_away-AllWait (Stays q0) n }
  Reach-IsAwake q0 n _ _ ok (later reach step) = Step-IsAwake (Reach-IsAwake q0 n _ _ ok reach) step

  -- However threads that share a valid queue take turns in its calls, where no call of the threads
  -- library fails and a broadcast unblocks those who wait on its condition: a thread that sleeps in
  -- a call does so only while the test of the call's loop holds, so no wake-up is lost.
  pub Sleeps-waits_while :
      (q0 : InternalQueue) (n : ℕ) (q : InternalQueue) (ts : List (Thread Call)) (c : Call)
      → IsValid q0
      → Reach Woken q0 n q ts
      → Sleeps c ts
      → waits_while c q ≡ true
  Sleeps-waits_while q0 n q ts c ok reach asleep =
      sleeper-Waits (Stays q) ts c (Reach-IsAwake q0 n q ts ok reach).waiting asleep

  -- However threads that share a valid queue take turns in its calls, where no call of the threads
  -- library fails and a broadcast unblocks those who wait on its condition: a thread never sleeps in
  -- pop while another sleeps in push, in push_sorted or in empty.
  pub never_both_asleep :
      (q0 : InternalQueue) (n : ℕ) (q : InternalQueue) (ts : List (Thread Call)) (c : Call)
      → IsValid q0
      → Reach Woken q0 n q ts
      → Sleeps pop ts
      → c ≢ pop
      → ¬ Sleeps c ts
  never_both_asleep q0 n q ts c ok reach popper other sleeper =
      opposed q c (Reach-IsAwake q0 n q ts ok reach).valid other
        (Sleeps-waits_while q0 n q ts pop ok reach popper)
        (Sleeps-waits_while q0 n q ts c ok reach sleeper)
