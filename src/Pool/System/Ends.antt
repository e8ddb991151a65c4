-- ===== src/Pool/System/Ends.antt =====
-- The threads of a pool come to an end once the exit status is set and no caller pushes any more.
use libcthreads.Common.{
  ℕ, zero, suc, ◌+◌, ◌*◌, ◌≤◌, ◌<◌, ◌≡◌, inl, inr, refl, ◌∙◌, ap, sym, arith, Option-cases, ◌-◌,
  none, some, Option,
}
use libcthreads.Machine.{Pointer}
use libcthreads.Queue.{InternalQueue}
use libcthreads.Queue.Ring.{dequeue, read}
use libcthreads.Pool.{status_exit}
use libcthreads.Pool.System.{
  System, Place, Turn, takes, drops, misses, fails, answers, exits, resumes, turns, Runs, here,
  further, popping, calling, idling,
}
use libcthreads.Pool.System.Held.{total, total-split}
use libcthreads.Pool.System.Drains.{Turn-members}

-- How many turns a thread at this place can have before it takes the next value.
abbrev pub weight : Place → ℕ
weight popping = 2
weight (calling v) = 3
weight idling = 1
weight _ = 0

-- A bound on the turns that are left: two for each value in the ring, and those of the threads.
abbrev pub turns_left : System → ℕ
turns_left s = total weight s.threads + 2 * s.ring.number_of_values

abbrev number_after : Option (Pointer × InternalQueue) → ℕ
number_after none = 0
number_after (some (v, q)) = q.number_of_values

-- One value less.
dequeue-counts :
    (q q' : InternalQueue) (v : Pointer)
    → dequeue q ≡ some (v, q')
    → q'.number_of_values ≡ q.number_of_values - 1
unfolding dequeue
dequeue-counts q q' v runs = elim (Option-cases (read q q.pop_index)) [
  | inl outside ↦ absurd (cc)
  | inr (w, inside) ↦
      let counts : number_after (dequeue q) ≡ q.number_of_values - 1 = rw inside refl in
      sym (ap number_after runs) ∙ counts
]

Turn-lighter :
    {s t : System} {p p' : Place}
    → s.members.status ≡ status_exit
    → Turn s p t p'
    → weight p' + 2 * t.ring.number_of_values < weight p + 2 * s.ring.number_of_values
Turn-lighter told (takes ready left runs) = ground (arith, dequeue-counts _ _ _ runs)
Turn-lighter told (drops ready left runs) = ground (arith, dequeue-counts _ _ _ runs)
Turn-lighter told (misses ready left) = omega arith
Turn-lighter told fails = omega arith
Turn-lighter told answers = omega arith
Turn-lighter told (exits e) = omega arith
Turn-lighter told (resumes open_yet) = absurd (open_yet told)

-- With the exit status set and no callers, the threads of a pool have only so many turns: each run
-- of `k` steps leaves `k` fewer.
pub Runs-turns_left :
    (k : ℕ) (s t : System)
    → s.members.status ≡ status_exit
    → Runs k s t
    → (t.members.status ≡ status_exit) × (k + turns_left t ≤ turns_left s)
Runs-turns_left zero s _ told here = (told, omega arith)
Runs-turns_left (suc k) s _ told (further runs (turns before after {p} {p'} at_place turn)) =
    let (told', bound) = Runs-turns_left k s _ told runs in
    (
      ap (λ m. m.status) (Turn-members turn) ∙ told',
      omega (
        arith,
        bound,
        Turn-lighter told' turn,
        ap (total weight) at_place,
        total-split weight before p after,
        total-split weight before p' after,
      ),
    )
