-- ===== src/Pool/System/Finishes.antt =====
-- The turns that end the threads of a pool, where no call fails.
use libcthreads.Common.{
  ℕ, zero, suc, ◌≤◌, ◌≡◌, ◌≢◌, inl, inr, refl, ap, subst, List, [], ◌∷◌, ◌++◌, arith, ◌==◌,
  Bool-cases,
}
use libcthreads.Queue.{InternalQueue}
use libcthreads.Queue.Valid.{contents, IsValid}
use libcthreads.Queue.Fifo.{dequeue_lem}
use libcthreads.Pool.{Members, status_exit}
use libcthreads.Pool.System.{
  System, Place, Turn, takes, misses, answers, exits, Step, turns, thread, Runs, Reach, here,
  further, popping, calling, idling, exited, failed, at,
}
use libcthreads.Pool.System.Held.{failures, total, total-split}
use libcthreads.Pool.System.Conserves.{IsConserved, Step-IsConserved, Reach-IsConserved}
use libcthreads.Pool.System.Ends.{weight, turns_left, Runs-turns_left}

-- A turn that a thread can have, of which no call fails.
record Ready (s : System) (p : Place) : Type 0 where
  next : System
  place : Place
  turn : Turn s p next place
  works : failures place ≡ failures p

Turn-Ready :
    (s : System) (p : Place)
    → IsValid s.ring
    → s.members.status ≡ status_exit
    → weight p ≢ 0
    → Ready s p
Turn-Ready s popping ok told unfinished = elim (Bool-cases (s.ring.number_of_values == 0)) [
  | inl empty ↦ record {
    next = s;
    place = idling;
    turn = misses (rw (empty, told) refl) empty;
    works = refl;
  }
  | inr left ↦
      let (v, q', runs, ok', kept, same) = dequeue_lem ok (ground arith) in
      record {
        next = record s { ring = q' };
        place = calling v;
        turn = takes (rw left refl) left runs;
        works = refl;
      }
]
Turn-Ready s (calling v) ok told unfinished = record {
  next = record s { answered = v ∷ s.answered };
  place = popping;
  turn = answers;
  works = refl;
}
Turn-Ready s idling ok told unfinished = record {
  next = s;
  place = exited;
  turn = exits told;
  works = refl;
}
Turn-Ready s exited ok told unfinished = absurd (unfinished refl)
Turn-Ready s failed ok told unfinished = absurd (unfinished refl)

-- A thread that has not ended.
record Unfinished (ps : List Place) : Type 0 where
  before : List Place
  place : Place
  after : List Place
  split : ps ≡ before ++ place ∷ after
  unfinished : weight place ≢ 0

find-Unfinished : (ps : List Place) → total weight ps ≢ 0 → Unfinished ps
find-Unfinished [] h = absurd (h refl)
find-Unfinished (p ∷ ps) h = elim (Bool-cases (weight p == 0)) [
  | inl finished ↦
      let rest = find-Unfinished ps (ground arith) in
      record {
        before = p ∷ rest.before;
        place = rest.place;
        after = rest.after;
        split = ap (λ l. p ∷ l) rest.split;
        unfinished = rest.unfinished;
      }
  | inr going ↦ record {
    before = [];
    place = p;
    after = ps;
    split = refl;
    unfinished = ground arith;
  }
]

record Advance (s : System) : Type 0 where
  next : System
  step : Step s thread next
  no_failure : total failures next.threads ≡ total failures s.threads

advance :
    (s : System)
    → IsValid s.ring
    → s.members.status ≡ status_exit
    → total weight s.threads ≢ 0
    → Advance s
advance s ok told going =
    let one = find-Unfinished s.threads going in
    let ready = Turn-Ready s one.place ok told one.unfinished in
    record {
      next = at ready.next (one.before ++ ready.place ∷ one.after);
      step = turns one.before one.after one.split ready.turn;
      no_failure = omega (
        arith,
        ready.works,
        ap (total failures) one.split,
        total-split failures one.before one.place one.after,
        total-split failures one.before ready.place one.after,
      );
    }

-- A run from `s` in which each thread ends, and none by a failure.
pub record Finished (s : System) (failed_before : ℕ) : Type 0 where
  pub steps : ℕ
  pub last : System
  pub run : Runs steps s last
  pub all_ended : total weight last.threads ≡ 0
  pub none_failed : total failures last.threads ≡ failed_before

finish :
    (fuel k : ℕ) (s t : System)
    → Runs k s t
    → IsConserved t
    → t.members.status ≡ status_exit
    → turns_left t ≤ fuel
    → Finished s (total failures t.threads)
finish zero k s t runs safe told enough = record {
  steps = k;
  last = t;
  run = runs;
  all_ended = omega arith;
  none_failed = refl;
}
finish (suc fuel) k s t runs safe told enough = elim (Bool-cases (total weight t.threads == 0)) [
  | inl over ↦ record {
    steps = k;
    last = t;
    run = runs;
    all_ended = ground (arith, over);
    none_failed = refl;
  }
  | inr going ↦
      let a = advance t safe.valid told (ground arith) in
      let (told', fewer) = Runs-turns_left 1 t a.next told (further here a.step) in
      subst (Finished s) a.no_failure (
        finish fuel (suc k) s a.next (further runs a.step) (Step-IsConserved safe a.step) told'
          (omega arith))
]

-- From each state of a pool with the exit status set, its threads can come to an end with no caller
-- taking part, and without one more thread that a failed call ends.
pub Reach-Finished :
    (m : Members) (q : InternalQueue) (n : ℕ) (s : System)
    → IsValid q
    → contents q ≡ []
    → Reach m q n s
    → s.members.status ≡ status_exit
    → Finished s (total failures s.threads)
Reach-Finished m q n s ok nothing reach told =
    finish (turns_left s) zero s s here (Reach-IsConserved m q n s ok nothing reach) told
      (omega arith)
