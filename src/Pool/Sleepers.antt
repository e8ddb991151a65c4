-- ===== src/Pool/Sleepers.antt =====
-- The threads of a pool, its callers and the one that joins it, with the two conditions on which they
-- wait, as in Queue/Waiters: the loop of pop tests the exit status too, and join sets it and wakes
-- the threads. No call of the threads library fails here. What a thread does while it holds the
-- mutex is one step.
pub mod Awake
use libcthreads.Common.{ℕ, ◌≡◌, ◌≢◌, Bool, true, false, some, List, ◌∷◌, ◌++◌}
use libcthreads.Machine.{Pointer}
use libcthreads.Queue.{InternalQueue}
use libcthreads.Queue.Ring.{Compare, enqueue, dequeue, insert_sorted, inserted}
use libcthreads.Queue.Calls.{is_empty, is_full, has_values}
use libcthreads.Queue.Sleeping.{Thread, running, sleeping, away, all_away}
use libcthreads.Pool.{Members, status_exit}
use libcthreads.Pool.Calls.{lacks_work}
use libcthreads.Pool.Lifetime.{put_status}

-- The functions that wait; pop is called by the threads of the pool.
pub data Part : Type 0 where
  push : Pointer → Part
  push_sorted : Compare → Bool → Pointer → Part
  pop join : Part

-- The test of a function's loop, and the condition on which the loop waits.
abbrev pub part_waits_while : Part → Members → InternalQueue → Bool
part_waits_while (push v) m q = is_full q
part_waits_while (push_sorted compare unique v) m q = is_full q
part_waits_while pop m q = lacks_work (record { system = tt {0}; members = m }) q
part_waits_while join m q = has_values q

abbrev pub part_waits_on : Part → InternalQueue → Pointer
part_waits_on (push v) q = q.full_condition
part_waits_on (push_sorted compare unique v) q = q.full_condition
part_waits_on pop q = q.empty_condition
part_waits_on join q = q.full_condition

-- What a broadcast on a condition makes of the threads.
module _ (Woken : Pointer → InternalQueue → List (Thread Part) → List (Thread Part) → Type 0) where
  pub data Step (m : Members) (q : InternalQueue) (ts : List (Thread Part))
      : Members → InternalQueue → List (Thread Part) → Type 0 where
    calls :
        (before after : List (Thread Part)) (c : Part)
        → c ≢ join
        → ts ≡ before ++ away ∷ after
        → Step m q ts m q (before ++ running c ∷ after)
    sleeps :
        (before after : List (Thread Part)) (c : Part)
        → ts ≡ before ++ running c ∷ after
        → part_waits_while c m q ≡ true
        → Step m q ts m q (before ++ sleeping c ∷ after)
    -- a wait may end with no broadcast
    wakes :
        (before after : List (Thread Part)) (c : Part)
        → ts ≡ before ++ sleeping c ∷ after
        → Step m q ts m q (before ++ running c ∷ after)
    pushes :
        {ts' : List (Thread Part)} {q' : InternalQueue} (before after : List (Thread Part))
        (v : Pointer)
        → ts ≡ before ++ running (push v) ∷ after
        → part_waits_while (push v) m q ≡ false
        → enqueue v q ≡ some q'
        → Woken q.empty_condition q (before ++ away ∷ after) ts'
        → Step m q ts m q' ts'
    inserts :
        {ts' : List (Thread Part)} {q' : InternalQueue} (before after : List (Thread Part))
        (compare : Compare) (unique : Bool) (v : Pointer)
        → ts ≡ before ++ running (push_sorted compare unique v) ∷ after
        → part_waits_while (push_sorted compare unique v) m q ≡ false
        → insert_sorted compare unique v q ≡ some (inserted q')
        → Woken q.empty_condition q (before ++ away ∷ after) ts'
        → Step m q ts m q' ts'
    -- push_sorted finds the value in the ring, or the comparison fails
    refuses :
        (before after : List (Thread Part)) (compare : Compare) (unique : Bool) (v : Pointer)
        → ts ≡ before ++ running (push_sorted compare unique v) ∷ after
        → part_waits_while (push_sorted compare unique v) m q ≡ false
        → Step m q ts m q (before ++ away ∷ after)
    pops :
        {ts' : List (Thread Part)} {q' : InternalQueue} {v : Pointer}
        (before after : List (Thread Part))
        → ts ≡ before ++ running pop ∷ after
        → part_waits_while pop m q ≡ false
        → is_empty q ≡ false
        → dequeue q ≡ some (v, q')
        → Woken q.full_condition q (before ++ away ∷ after) ts'
        → Step m q ts m q' ts'
    -- pop finds no value
    misses :
        (before after : List (Thread Part))
        → ts ≡ before ++ running pop ∷ after
        → part_waits_while pop m q ≡ false
        → is_empty q ≡ true
        → Step m q ts m q (before ++ away ∷ after)
    -- join: the exit status and the broadcast
    tells :
        {ts' : List (Thread Part)} (before after : List (Thread Part))
        → ts ≡ before ++ away ∷ after
        → Woken q.empty_condition q (before ++ running join ∷ after) ts'
        → Step m q ts (put_status status_exit m) q ts'
    -- join: the ring is empty
    drains :
        (before after : List (Thread Part))
        → ts ≡ before ++ running join ∷ after
        → part_waits_while join m q ≡ false
        → Step m q ts m q (before ++ away ∷ after)

  pub data Reach (m0 : Members) (q0 : InternalQueue) (n : ℕ)
      : Members → InternalQueue → List (Thread Part) → Type 0 where
    begun : Reach m0 q0 n m0 q0 (all_away n)
    later :
        {m m' : Members} {q q' : InternalQueue} {ts ts' : List (Thread Part)}
        → Reach m0 q0 n m q ts
        → Step m q ts m' q' ts'
        → Reach m0 q0 n m' q' ts'
