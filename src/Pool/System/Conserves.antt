-- ===== src/Pool/System/Conserves.antt =====
-- Where the values of a pool are, in each state that its threads and its callers can reach.
use libcthreads.Common.{ℕ, ◌+◌, ◌≤◌, ◌≡◌, refl, ap, [], ◌∷◌, arith, length}
use libcthreads.Machine.{Pointer}
use libcthreads.Queue.{InternalQueue}
use libcthreads.Queue.Valid.{contents, IsValid}
use libcthreads.Queue.Occurrences.{
  occurrences, Grows, enqueue-Grows, dequeue-Taken, insert_sorted-Grows,
}
use libcthreads.Pool.{Members}
use libcthreads.Pool.System.{
  System, Place, Turn, takes, drops, misses, fails, answers, exits, resumes, Step, turns, pushes,
  inserts, tells, Actor, Reach, begun, later, start,
}
use libcthreads.Pool.System.Held.{
  hand, hands, total, failures, occurrences-split, total-split, hands_of_popping,
}

-- Each value that was put into the ring is in the ring, with a thread that calls the callback
-- function with it, has been with one, or was dropped by a pop that failed; none is there twice.
pub record IsConserved (s : System) : Type 0 where
  pub valid : IsValid s.ring
  pub conserved :
      (u : Pointer)
      → occurrences u s.given
        ≡ occurrences u (contents s.ring)
          + occurrences u (hands s.threads)
          + occurrences u s.answered
          + occurrences u s.dropped
  pub one_each : length s.dropped ≤ total failures s.threads

-- What the turn of one thread does to the values.
record Turned (s : System) (p : Place) (t : System) (p' : Place) : Type 0 where
  ring_valid : IsValid t.ring
  same_given : t.given ≡ s.given
  moved :
      (u : Pointer)
      → occurrences u (contents t.ring)
          + occurrences u (hand p')
          + occurrences u t.answered
          + occurrences u t.dropped
        ≡ occurrences u (contents s.ring)
          + occurrences u (hand p)
          + occurrences u s.answered
          + occurrences u s.dropped
  dropped_by_failure : length t.dropped + failures p ≤ length s.dropped + failures p'

Turn-Turned : {s t : System} {p p' : Place} → IsValid s.ring → Turn s p t p' → Turned s p t p'
Turn-Turned {s} ok (takes {q} {v} ready left runs) =
    let taken = dequeue-Taken ok v q (ground arith) runs in
    record {
      ring_valid = taken.valid;
      same_given = refl;
      moved = λ u. omega (arith, ap (occurrences u) taken.values);
      dropped_by_failure = omega arith;
    }
Turn-Turned {s} ok (drops {q} {v} ready left runs) =
    let taken = dequeue-Taken ok v q (ground arith) runs in
    record {
      ring_valid = taken.valid;
      same_given = refl;
      moved = λ u. omega (arith, ap (occurrences u) taken.values);
      dropped_by_failure = omega arith;
    }
Turn-Turned ok (misses ready left) = record {
  ring_valid = ok;
  same_given = refl;
  moved = λ u. refl;
  dropped_by_failure = omega arith;
}
Turn-Turned ok fails = record {
  ring_valid = ok;
  same_given = refl;
  moved = λ u. refl;
  dropped_by_failure = omega arith;
}
Turn-Turned ok answers = record {
  ring_valid = ok;
  same_given = refl;
  moved = λ u. omega arith;
  dropped_by_failure = omega arith;
}
Turn-Turned ok (exits told) = record {
  ring_valid = ok;
  same_given = refl;
  moved = λ u. refl;
  dropped_by_failure = omega arith;
}
Turn-Turned ok (resumes told) = record {
  ring_valid = ok;
  same_given = refl;
  moved = λ u. refl;
  dropped_by_failure = omega arith;
}

Grows-IsConserved :
    {s : System} {v : Pointer} {q : InternalQueue}
    → IsConserved s
    → Grows v s.ring q
    → IsConserved (record s { ring = q; given = v ∷ s.given })
Grows-IsConserved safe grows = record {
  valid = grows.valid;
  conserved = λ u. omega (arith, safe.conserved u, grows.more u);
  one_each = safe.one_each;
}

pub Step-IsConserved : {s t : System} {a : Actor} → IsConserved s → Step s a t → IsConserved t
Step-IsConserved {s} safe (turns before after {p} {p'} {t} here turn) =
    let turned = Turn-Turned safe.valid turn in
    record {
      valid = turned.ring_valid;
      conserved = λ u. omega (
        arith,
        safe.conserved u,
        turned.moved u,
        ap (occurrences u) turned.same_given,
        ap (λ ps. occurrences u (hands ps)) here,
        occurrences-split u before p after,
        occurrences-split u before p' after,
      );
      one_each = omega (
        arith,
        safe.one_each,
        turned.dropped_by_failure,
        ap (total failures) here,
        total-split failures before p after,
        total-split failures before p' after,
      );
    }
Step-IsConserved safe (pushes {v} {q} set room runs) =
    Grows-IsConserved safe (enqueue-Grows safe.valid v q (ground arith) runs)
Step-IsConserved safe (inserts {v} {q} compare unique set room runs) =
    Grows-IsConserved safe (insert_sorted-Grows safe.valid compare unique v q (ground arith) runs)
Step-IsConserved safe tells = record {
  valid = safe.valid;
  conserved = safe.conserved;
  one_each = safe.one_each;
}

start-IsConserved :
    (m : Members) (q : InternalQueue) (n : ℕ)
    → IsValid q
    → contents q ≡ []
    → IsConserved (start m q n)
start-IsConserved m q n ok nothing = record {
  valid = ok;
  conserved =
      λ u. omega (arith, ap (occurrences u) nothing, ap (occurrences u) (hands_of_popping n));
  one_each = omega arith;
}

-- However the threads of a pool, its callers and the one that joins it take turns, from a pool with
-- a valid ring and no values: in each state they reach the ring is valid, each value is as often
-- among the values put into it as it is in the ring, with a thread, answered and dropped together,
-- and there is at most one dropped value for each thread that a failed pop has ended.
pub Reach-IsConserved :
    (m : Members) (q : InternalQueue) (n : ℕ) (s : System)
    → IsValid q
    → contents q ≡ []
    → Reach m q n s
    → IsConserved s
Reach-IsConserved m q n _ ok nothing begun = start-IsConserved m q n ok nothing
Reach-IsConserved m q n _ ok nothing (later reach step) =
    Step-IsConserved (Reach-IsConserved m q n _ ok nothing reach) step
