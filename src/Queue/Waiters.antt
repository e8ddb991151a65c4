-- ===== src/Queue/Waiters.antt =====
-- The threads that share a queue, with the two conditions on which they wait: a wait puts a thread to
-- sleep until a broadcast on its condition, or for no reason, wakes it. No call of the threads library
-- fails here. What a thread does while it holds the mutex is one step.
pub mod Wakeups
use libcthreads.Common.{ℕ, zero, suc, ◌≡◌, ◌≢◌, Bool, true, false, some, List, [], ◌∷◌, ◌++◌}
use libcthreads.Machine.{Pointer, ErrorCode}
use libcthreads.Queue.{InternalQueue}
use libcthreads.Queue.Ring.{Compare, enqueue, dequeue, insert_sorted, inserted, duplicate, rejected}
use libcthreads.Queue.Sleeping.{Thread, running, sleeping, away, all_away}
use libcthreads.Queue.Calls.{is_empty, is_full, has_values}

-- The calls that wait, with the values that they are given.
pub data Call : Type 0 where
  push : Pointer → Call
  push_sorted : Compare → Bool → Pointer → Call
  pop empty : Call

-- The test of a call's loop, and the condition on which the loop waits.
abbrev pub waits_while : Call → InternalQueue → Bool
waits_while (push v) q = is_full q
waits_while (push_sorted compare unique v) q = is_full q
waits_while pop q = is_empty q
waits_while empty q = has_values q

abbrev pub waits_on : Call → InternalQueue → Pointer
waits_on (push v) q = q.full_condition
waits_on (push_sorted compare unique v) q = q.full_condition
waits_on pop q = q.empty_condition
waits_on empty q = q.full_condition

-- What a broadcast on a condition makes of the threads.
module _ (Woken : Pointer → InternalQueue → List (Thread Call) → List (Thread Call) → Type 0) where
  pub data Step (q : InternalQueue) (ts : List (Thread Call))
      : InternalQueue → List (Thread Call) → Type 0 where
    calls :
        (before after : List (Thread Call)) (c : Call)
        → ts ≡ before ++ away ∷ after
        → Step q ts q (before ++ running c ∷ after)
    sleeps :
        (before after : List (Thread Call)) (c : Call)
        → ts ≡ before ++ running c ∷ after
        → waits_while c q ≡ true
        → Step q ts q (before ++ sleeping c ∷ after)
    -- a wait may end with no broadcast
    wakes :
        (before after : List (Thread Call)) (c : Call)
        → ts ≡ before ++ sleeping c ∷ after
        → Step q ts q (before ++ running c ∷ after)
    pushes :
        {ts' : List (Thread Call)} {q' : InternalQueue} (before after : List (Thread Call))
        (v : Pointer)
        → ts ≡ before ++ running (push v) ∷ after
        → waits_while (push v) q ≡ false
        → enqueue v q ≡ some q'
        → Woken q.empty_condition q (before ++ away ∷ after) ts'
        → Step q ts q' ts'
    inserts :
        {ts' : List (Thread Call)} {q' : InternalQueue} (before after : List (Thread Call))
        (compare : Compare) (unique : Bool) (v : Pointer)
        → ts ≡ before ++ running (push_sorted compare unique v) ∷ after
        → waits_while (push_sorted compare unique v) q ≡ false
        → insert_sorted compare unique v q ≡ some (inserted q')
        → Woken q.empty_condition q (before ++ away ∷ after) ts'
        → Step q ts q' ts'
    -- push_sorted finds the value in the queue, or the comparison fails
    refuses :
        (before after : List (Thread Call)) (compare : Compare) (unique : Bool) (v : Pointer)
        → ts ≡ before ++ running (push_sorted compare unique v) ∷ after
        → waits_while (push_sorted compare unique v) q ≡ false
        → Step q ts q (before ++ away ∷ after)
    pops :
        {ts' : List (Thread Call)} {q' : InternalQueue} {v : Pointer}
        (before after : List (Thread Call))
        → ts ≡ before ++ running pop ∷ after
        → waits_while pop q ≡ false
        → dequeue q ≡ some (v, q')
        → Woken q.full_condition q (before ++ away ∷ after) ts'
        → Step q ts q' ts'
    empties :
        (before after : List (Thread Call))
        → ts ≡ before ++ running empty ∷ after
        → waits_while empty q ≡ false
        → Step q ts q (before ++ away ∷ after)

  pub data Reach (q0 : InternalQueue) (n : ℕ) : InternalQueue → List (Thread Call) → Type 0 where
    begun : Reach q0 n q0 (all_away n)
    later :
        {q q' : InternalQueue} {ts ts' : List (Thread Call)}
        → Reach q0 n q ts
        → Step q ts q' ts'
        → Reach q0 n q' ts'
