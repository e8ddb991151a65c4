-- ===== src/Tests/Waiting.antt =====
-- Two threads that share a queue, and two that share a pool, of which one sleeps in pop; with a
-- broadcast that wakes exactly the threads that sleep on its condition.
use libcthreads.Common.{
  ◌≡◌, ◌≢◌, refl, ◌∙◌, sym, ap, subst, true, [], ◌∷◌, List, arith, ◌==◌, if◌then◌else◌, Bool-cases,
  inl, inr,
}
use libcthreads.Machine.{Pointer}
use libcthreads.Queue.{InternalQueue}
use libcthreads.Queue.Sleeping.{Thread, running, sleeping, away, Sleeps, Unblocks}
use libcthreads.Queue.Waiters
use libcthreads.Queue.Waiters.{waits_while, waits_on, Reach, begun, later}
use libcthreads.Queue.Waiters.Wakeups.{Sleeps-waits_while}
use libcthreads.Pool.{status_exit}
use libcthreads.Pool.Lifetime.{put_status}
use libcthreads.Pool.Sleepers
use libcthreads.Pool.Sleepers.{part_waits_on}
use libcthreads.Pool.Sleepers.Awake.{told_awake}
use libcthreads.Tests.Systems.{bare, bare-IsValid, open_pool}

module _ {C : Type 0} where
  abbrev head_or : Thread C → List (Thread C) → Thread C
  head_or d [] = d
  head_or d (t ∷ ts) = t

  abbrev tail_of : List (Thread C) → List (Thread C)
  tail_of [] = []
  tail_of (t ∷ ts) = ts

module _ {C : Type 0} (on : C → InternalQueue → Pointer) where
  abbrev wake_one : Pointer → InternalQueue → Thread C → Thread C
  wake_one condition q (running c) = running c
  wake_one condition q (sleeping c) = if on c q == condition then running c else sleeping c
  wake_one condition q away = away

  abbrev wake : Pointer → InternalQueue → List (Thread C) → List (Thread C)
  wake condition q [] = []
  wake condition q (t ∷ ts) = wake_one condition q t ∷ wake condition q ts

  abbrev Woken : Pointer → InternalQueue → List (Thread C) → List (Thread C) → Type 0
  Woken condition q ts ts' = ts' ≡ wake condition q ts

  wake_one_lem :
      (condition : Pointer) (q : InternalQueue) (t : Thread C) (c : C)
      → wake_one condition q t ≡ sleeping c
      → (t ≡ sleeping c) × (on c q ≢ condition)
  wake_one_lem condition q (running d) c e = absurd (cc)
  wake_one_lem condition q (sleeping d) c e = elim (Bool-cases (on d q == condition)) [
    | inl awake ↦
        let same : wake_one condition q (sleeping d) ≡ running d = rw awake refl in absurd (cc)
    | inr asleep ↦
        let same : wake_one condition q (sleeping d) ≡ sleeping d = rw asleep refl in
        let equal : d ≡ c = cc in
        let elsewhere : on d q ≢ condition = ground arith in
        (sym same ∙ e, subst (λ x. on x q ≢ condition) equal elsewhere)
  ]
  wake_one_lem condition q away c e = absurd (cc)

  wake_lem :
      (condition : Pointer) (q : InternalQueue) (ts : List (Thread C)) (c : C)
      → Sleeps c (wake condition q ts)
      → Sleeps c ts × (on c q ≢ condition)
  wake_lem condition q [] c ([], after, e) = absurd (cc)
  wake_lem condition q [] c (b ∷ before, after, e) = absurd (cc)
  wake_lem condition q (t ∷ ts) c ([], after, e) =
      let (same, elsewhere) = wake_one_lem condition q t c (ap (head_or away) e) in
      (([], ts, ap (λ x. x ∷ ts) same), elsewhere)
  wake_lem condition q (t ∷ ts) c (b ∷ before, after, e) =
      let ((before', after', same), elsewhere) =
        wake_lem condition q ts c (before, after, ap tail_of e) in
      ((t ∷ before', after', ap (λ l. t ∷ l) same), elsewhere)

  Woken-Unblocks : Unblocks on Woken
  Woken-Unblocks condition q ts ts' c awake asleep =
      wake_lem condition q ts c (subst (Sleeps c) awake asleep)

abbrev asleep : List (Thread Waiters.Call)
asleep = sleeping Waiters.pop ∷ running (Waiters.push 7) ∷ []

asleep-Reach : Reach (Woken waits_on) bare 2 bare asleep
asleep-Reach =
    later
      (later (later begun (Waiters.calls [] (away ∷ []) Waiters.pop refl))
        (Waiters.sleeps [] (away ∷ []) Waiters.pop refl refl))
      (Waiters.calls (sleeping Waiters.pop ∷ []) [] (Waiters.push 7) refl)

Sleeps-waits_while_example : waits_while Waiters.pop bare ≡ true
Sleeps-waits_while_example =
    Sleeps-waits_while (Woken waits_on) (Woken-Unblocks waits_on) bare 2 bare asleep Waiters.pop
      bare-IsValid asleep-Reach ([], running (Waiters.push 7) ∷ [], refl)

-- The thread of a pool sleeps until join wakes it.
abbrev joining : List (Thread Sleepers.Part)
joining = running Sleepers.pop ∷ running Sleepers.join ∷ []

joining-Reach :
    Sleepers.Reach
      (Woken part_waits_on)
      open_pool
      bare
      2
      (put_status status_exit open_pool)
      bare
      joining
joining-Reach =
    Sleepers.later
      (Sleepers.later
        (Sleepers.later Sleepers.begun (Sleepers.calls [] (away ∷ []) Sleepers.pop (cc) refl))
        (Sleepers.sleeps [] (away ∷ []) Sleepers.pop refl refl))
      (Sleepers.tells (sleeping Sleepers.pop ∷ []) [] refl refl)

told_awake_example :
    (¬ Sleeps Sleepers.pop joining) × (Sleeps Sleepers.join joining → bare.number_of_values ≢ 0)
told_awake_example =
    told_awake (Woken part_waits_on) (Woken-Unblocks part_waits_on) open_pool bare 2
      (put_status status_exit open_pool) bare joining bare-IsValid joining-Reach refl
