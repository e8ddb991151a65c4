-- ===== src/Queue/Sorted.antt =====
-- libcthreads_queue_push_sorted.
use libcthreads.Common.{
  ℕ, zero, suc, ◌<◌, bit_and, ◌≡◌, ◌≢◌, refl, ap, Bool, true, false, Option, none, some, ◌==◌,
  arith, not,
}
use libcthreads.Machine.{Pointer, null, Platform, State, success, failure, not_done, access}
use mathlib.Core.Option
use libcthreads.Machine.Post.{Post, Post-weaken, Post-total, Post-step, access_lem}
use libcthreads.Queue.{InternalQueue}
use libcthreads.Queue.Valid.{IsValid, Keeps, contents}
use libcthreads.Queue.Ring.{Compare, Insertion, rejected, duplicate, inserted, insert_sorted}
use libcthreads.Queue.Order.{Placement, refused, present, placed, place}
use libcthreads.Queue.Insert.{Inserts, insert_sorted_lem}
use libcthreads.Queue.Environment.{Threads, Ends}
use libcthreads.Queue.Steps.{
  Keeps-HasHandles, Ready, Leaves, finish_lem, on_error_lem, announce_lem,
}
use libcthreads.Queue.Results.{Replies, Passed, waiting_call_lem}
use libcthreads.Queue.Calls.{
  Reply, is_full, after, put_sorted, push_sorted, other_sort_flags, sort_flag_unique_values,
}

-- The critical section, as a change of the queue.
abbrev pub inserting : Compare → Bool → Pointer → InternalQueue → Option (Insertion × InternalQueue)
inserting compare unique v q = Option.map (λ i. (i, after q i)) (insert_sorted compare unique v q)

-- The two flags that are known.
other_flags : (flags : ℕ) → flags < 2 → (bit_and flags other_sort_flags == 0) ≡ true
other_flags zero h = refl
other_flags (suc zero) h = refl
other_flags (suc (suc n)) h = absurd (omega arith)

unique_flag :
    (flags : ℕ) → flags < 2 → not (bit_and flags sort_flag_unique_values == 0) ≡ (flags == 1)
unique_flag zero h = refl
unique_flag (suc zero) h = refl
unique_flag (suc (suc n)) h = absurd (omega arith)

module _ {W : Type 0} {p : Platform W InternalQueue} {Free Held : W → Type 0} {F : Type 0}
    (threads : Threads p Free Held F) where
  -- After an insertion of `v` into `q'`, by where `place` puts it in the list of values.
  abbrev pub Settled : InternalQueue → Placement → Reply → State W InternalQueue → Type 0
  Settled q' (refused e) r t = (t.object ≡ q') × (r ≡ (failure, none))
  Settled q' present r t = (t.object ≡ q') × Replies threads (not_done, none) r
  Settled q' (placed xs) r t =
      IsValid t.object
      × Keeps q' t.object
      × (contents t.object ≡ xs)
      × Replies threads (success, none) r

  abbrev pub Sorted :
      Compare → Bool → Pointer → InternalQueue → Reply → State W InternalQueue → Type 0
  Sorted compare unique v q' r t = Settled q' (place compare unique v (contents q')) r t

  abbrev Done : InternalQueue → Placement → Reply → State W InternalQueue → Type 0
  Done q' r reply t = Free t.world × Settled q' r reply t

  put_sorted_by :
      (compare : Compare) (unique : Bool) (v : Pointer) (s : State W InternalQueue) (r : Placement)
      → Ready s.object
      → Held s.world
      → Inserts s.object (insert_sorted compare unique v s.object) r
      → Post ⊥ (Done s.object r) (put_sorted p compare unique v s)
  unfolding put_sorted
  put_sorted_by compare unique v s (refused e) ready held runs =
      let f = inserting compare unique v in
      Post-step ⊥ (Done s.object (refused e)) (access f s) (rejected e) s _
        (access_lem f s (rejected e) s.object (ap (Option.map (λ i. (i, after s.object i))) runs))
        (Post-weaken ⊥ _ (Done s.object (refused e)) _
          (on_error_lem threads none (record s { errors = _ }) ready.handles held)
          λ reply t (minus_one, same, free). (free, (same, minus_one)))
  put_sorted_by compare unique v s present ready held runs =
      let f = inserting compare unique v in
      Post-step ⊥ (Done s.object present) (access f s) duplicate s _
        (access_lem f s duplicate s.object (ap (Option.map (λ i. (i, after s.object i))) runs))
        (Post-weaken ⊥ (Leaves threads (not_done, none) s.object) (Done s.object present) _
          (finish_lem threads (not_done, none) s ready.handles held)
          λ reply t (same, free, side). (free, (same, side)))
  put_sorted_by compare unique v s (placed xs) ready held (q', runs, valid, keeps, values) =
      let f = inserting compare unique v in
      Post-step ⊥ (Done s.object (placed xs)) (access f s) (inserted q') (record s { object = q' })
        _ (access_lem f s (inserted q') q' (ap (Option.map (λ i. (i, after s.object i))) runs))
        (Post-weaken ⊥ (Leaves threads (success, none) q') (Done s.object (placed xs)) _
          (announce_lem threads (λ q. q.empty_condition) none (record s { object = q' })
            (λ q h. h.empty) (Keeps-HasHandles ready.handles keeps) held)
          λ reply t (same, free, side).
            (free, (rw same valid, rw same keeps, rw same values, side)))

  -- libcthreads_queue_push_sorted, on a queue that exists, by a caller that does not hold the
  -- mutex, and whatever the threads library answers within `Threads`, for the sort flags 0 and
  -- 1: it stays in bounds; other threads take the queue to some `q'` while it waits; then it
  -- either fails and leaves `q'`, or does what `place` does to the list of values of `q'`: the
  -- value gets its place, or the reply is 0 where it is there already and values are to be
  -- unique, or -1 where the comparison fails. The mutex is free again on each path. Where the
  -- rounds suffice (`T` is `⊥`) it ends.
  pub push_sorted-Sorted :
      (T : Type 0) (rounds : ℕ) (queue v : Pointer) (compare : Compare) (flags : ℕ)
      (s : State W InternalQueue)
      → queue ≢ null
      → v ≢ null
      → flags < 2
      → Ready s.object
      → Free s.world
      → Ends p
          (λ w. is_full)
          (λ q. q.full_condition)
          T
          rounds
          (p.pthread_mutex_lock s.object.condition_mutex s.world s.object).1
          (p.pthread_mutex_lock s.object.condition_mutex s.world s.object).2
      → Post T
          (Passed threads (Sorted compare (flags == 1) v) s.object)
          (push_sorted p rounds queue v (some compare) flags s)
  unfolding push_sorted
  push_sorted-Sorted T rounds queue v compare flags s queue_set v_set small ready free ends =
      let f : (v == null) ≡ false = ground arith in
      rw (push_sorted, f, other_flags flags small, unique_flag flags small)
        (waiting_call_lem threads T (Sorted compare (flags == 1) v) rounds (λ w. is_full)
          (λ q. q.full_condition) queue (put_sorted p compare (flags == 1) v) s (λ q h. h.full)
          queue_set ready free ends
          λ t ready' held room.
            Post-total T (λ r u. Free u.world × Sorted compare (flags == 1) v t.object r u)
              (put_sorted p compare (flags == 1) v t)
              (put_sorted_by compare (flags == 1) v t _ ready' held
                (insert_sorted_lem ready'.valid (ground (arith, room)) compare (flags == 1) v)))
