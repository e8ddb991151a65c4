-- ===== src/Pool/System/Drains.antt =====
-- What the join of a pool finds once the threads have exited.
use libcthreads.Common.{
  ℕ, zero, suc, ◌+◌, ◌≤◌, ◌<◌, ◌≡◌, ◌≢◌, refl, ◌∙◌, ap, List, [], ◌∷◌, arith, length,
}
use libcthreads.Machine.{Pointer}
use libcthreads.Queue.{InternalQueue}
use libcthreads.Queue.Valid.{contents, IsValid, contents_of_zero}
use libcthreads.Queue.Occurrences.{occurrences}
use libcthreads.Pool.{Members, status_exit}
use libcthreads.Pool.System.{
  System, Place, Turn, takes, drops, misses, fails, answers, exits, resumes, Step, turns, pushes,
  inserts, tells, Actor, thread, joiner, Reach, begun, later, Runs, here, further, idling, exited,
}
use libcthreads.Pool.System.Held.{
  hands, total, failures, total-split, total_of_popping, all_exited, hands_of_exited,
  total_of_exited,
}
use libcthreads.Pool.System.Conserves.{IsConserved, Step-IsConserved, Reach-IsConserved}

-- A thread whose pop has found no value.
abbrev gone : Place → ℕ
gone idling = 1
gone exited = 1
gone _ = 0

-- Before the exit status is set, no pop ends without a value.
Turn-present :
    {s t : System} {p p' : Place}
    → Turn s p t p'
    → s.members.status ≢ status_exit
    → gone p ≡ 0
    → (gone p' ≡ 0) × (t.members ≡ s.members)
Turn-present (takes ready left runs) open_yet h = (refl, refl)
Turn-present (drops ready left runs) open_yet h = (refl, refl)
Turn-present (misses ready left) open_yet h = ground arith
Turn-present fails open_yet h = (refl, refl)
Turn-present answers open_yet h = (refl, refl)
Turn-present (exits told) open_yet h = absurd (open_yet told)
Turn-present (resumes told) open_yet h = (refl, refl)

pub Turn-members : {s t : System} {p p' : Place} → Turn s p t p' → t.members ≡ s.members
Turn-members (takes ready left runs) = refl
Turn-members (drops ready left runs) = refl
Turn-members (misses ready left) = refl
Turn-members fails = refl
Turn-members answers = refl
Turn-members (exits told) = refl
Turn-members (resumes told) = refl

abbrev NoneGone : System → Type 0
NoneGone s = s.members.status ≢ status_exit → total gone s.threads ≡ 0

Step-NoneGone : {s t : System} {a : Actor} → NoneGone s → Step s a t → NoneGone t
Step-NoneGone {s} stay (turns before after {p} {p'} {t} at_place turn) = λ open_yet.
    let same = Turn-members turn in
    let open_before : s.members.status ≢ status_exit =
      λ e. open_yet (ap (λ m. m.status) same ∙ e) in
    let none_before = stay open_before in
    let split = ap (total gone) at_place ∙ total-split gone before p after in
    let present = Turn-present turn open_before (omega (arith, none_before, split)) in
    omega (arith, total-split gone before p' after, present.0, none_before, split)
Step-NoneGone stay (pushes set room runs) = stay
Step-NoneGone stay (inserts compare unique set room runs) = stay
Step-NoneGone stay tells = λ open_yet. absurd (open_yet refl)

Reach-NoneGone : (m : Members) (q : InternalQueue) (n : ℕ) (s : System) → Reach m q n s → NoneGone s
Reach-NoneGone m q n _ begun = λ open_yet. total_of_popping gone n refl
Reach-NoneGone m q n _ (later reach step) = Step-NoneGone (Reach-NoneGone m q n _ reach) step

-- After the exit status is set and with no more callers: where a pop has found no value, there is
-- none.
record IsLeft (s u : System) : Type 0 where
  kept : IsConserved u
  told : u.members.status ≡ status_exit
  same : u.given ≡ s.given
  nothing_left : 0 < total gone u.threads → u.ring.number_of_values ≡ 0

Turn-left :
    {s t : System} {p p' : Place} (others : ℕ)
    → Turn s p t p'
    → (0 < others + gone p → s.ring.number_of_values ≡ 0)
    → 0 < others + gone p'
    → t.ring.number_of_values ≡ 0
Turn-left others (takes ready left runs) h some_gone = absurd (ground (arith, h (omega arith)))
Turn-left others (drops ready left runs) h some_gone = absurd (ground (arith, h (omega arith)))
Turn-left others (misses ready left) h some_gone = ground arith
Turn-left others fails h some_gone = h (omega arith)
Turn-left others answers h some_gone = h (omega arith)
Turn-left others (exits told) h some_gone = h (omega arith)
Turn-left others (resumes told) h some_gone = h (omega arith)

Turn-given : {s t : System} {p p' : Place} → Turn s p t p' → t.given ≡ s.given
Turn-given (takes ready left runs) = refl
Turn-given (drops ready left runs) = refl
Turn-given (misses ready left) = refl
Turn-given fails = refl
Turn-given answers = refl
Turn-given (exits told) = refl
Turn-given (resumes told) = refl

Step-IsLeft : {s t u : System} → IsLeft s t → Step t thread u → IsLeft s u
Step-IsLeft left (turns before after {p} {p'} {t} at_place turn) =
    let split = ap (total gone) at_place ∙ total-split gone before p after in
    let others = total gone before + total gone after in
    record {
      kept = Step-IsConserved left.kept (turns before after at_place turn);
      told = ap (λ m. m.status) (Turn-members turn) ∙ left.told;
      same = Turn-given turn ∙ left.same;
      nothing_left = λ some_gone.
          Turn-left others turn (λ h. left.nothing_left (omega (arith, split)))
            (omega (arith, total-split gone before p' after));
    }

Runs-IsLeft : (k : ℕ) (s t u : System) → IsLeft s t → Runs k t u → IsLeft s u
Runs-IsLeft zero s t _ left here = left
Runs-IsLeft (suc k) s t _ left (further runs step) =
    Step-IsLeft (Runs-IsLeft k s t _ left runs) step

told-IsLeft :
    {s t : System} → IsConserved s → total gone s.threads ≡ 0 → Step s joiner t → IsLeft s t
told-IsLeft safe none_gone tells = record {
  kept = Step-IsConserved safe tells;
  told = refl;
  same = refl;
  nothing_left = λ some_gone. omega arith;
}

nothing-occurs : (u : Pointer) (xs : List Pointer) → length xs ≤ 0 → occurrences u xs ≡ 0
nothing-occurs u [] h = refl
nothing-occurs u (x ∷ xs) h = absurd (omega arith)

-- From a pool that had a valid ring, no values and at least one thread: once join has set the exit
-- status, where it was not set, and callers have stopped, if all the threads have exited, the ring
-- is empty and the callback function has had each value that was put into it as often as it was put.
pub exited-Answered :
    (m : Members) (q : InternalQueue) (n k : ℕ) (s t u : System)
    → IsValid q
    → contents q ≡ []
    → 0 < n
    → Reach m q n s
    → s.members.status ≢ status_exit
    → Step s joiner t
    → Runs k t u
    → u.threads ≡ all_exited n
    → (contents u.ring ≡ [])
      × (u.given ≡ s.given)
      × ((v : Pointer) → occurrences v u.answered ≡ occurrences v s.given)
exited-Answered m q n k s t u ok nothing some_thread reach open_yet step runs all_gone =
    let safe = Reach-IsConserved m q n s ok nothing reach in
    let left =
      Runs-IsLeft k s t u (told-IsLeft safe (Reach-NoneGone m q n s reach open_yet) step) runs in
    let empty =
      contents_of_zero u.ring
        (left.nothing_left (omega (arith, ap (total gone) all_gone, total_of_exited gone n))) in
    (
      empty,
      left.same,
      λ v. omega (
        arith,
        left.kept.conserved v,
        left.kept.one_each,
        ap (occurrences v) left.same,
        ap (occurrences v) empty,
        ap (λ ps. occurrences v (hands ps)) all_gone,
        ap (occurrences v) (hands_of_exited n),
        ap (total failures) all_gone,
        total_of_exited failures n,
        nothing-occurs v u.dropped,
      ),
    )
