-- ===== src/Queue/Sleeping.antt =====
-- Threads that run, sleep on a condition or are away, for calls of any kind: what a wait and a
-- broadcast do to a list of them.
use libcthreads.Common.{ℕ, zero, suc, ◌≡◌, ◌≢◌, refl, ap, subst, List, [], ◌∷◌, ◌++◌}
use libcthreads.Machine.{Pointer}
use libcthreads.Queue.{InternalQueue}

-- A thread goes to the test of its call's loop, sleeps in the wait there, or is in no call.
pub data Thread (C : Type 0) : Type 0 where
  running : C → Thread C
  sleeping : C → Thread C
  away : Thread C

module _ {C : Type 0} where
  -- A thread that sleeps in this call is among the threads.
  abbrev pub Sleeps : C → List (Thread C) → Type 0
  Sleeps c ts =
      (before : List (Thread C)) × (after : List (Thread C)) × (ts ≡ before ++ sleeping c ∷ after)

  -- `n` threads that are in no call.
  abbrev pub all_away : ℕ → List (Thread C)
  all_away zero = []
  all_away (suc n) = away ∷ all_away n

  -- `Woken condition q ts ts'` says that a broadcast on the condition turns the threads `ts` into
  -- `ts'`. A broadcast unblocks all the threads that are blocked on the condition, and blocks none:
  -- who sleeps after it slept before it, on another condition.
  abbrev pub Unblocks :
      (C → InternalQueue → Pointer)
      → (Pointer → InternalQueue → List (Thread C) → List (Thread C) → Type 0)
      → Type 0
  Unblocks waits_on Woken =
      (condition : Pointer) (q : InternalQueue) (ts ts' : List (Thread C)) (c : C)
      → Woken condition q ts ts'
      → Sleeps c ts'
      → Sleeps c ts × (waits_on c q ≢ condition)

-- `P c` may hold where a thread sleeps in the call `c`.
module _ {C : Type 0} (P : C → Type 0) where
  abbrev pub Waits : Thread C → Type 0
  Waits (sleeping c) = P c
  Waits _ = Unit {0}

  abbrev pub AllWait : List (Thread C) → Type 0
  AllWait [] = Unit {0}
  AllWait (t ∷ ts) = Waits t × AllWait ts

  replace :
      (before : List (Thread C)) (t t' : Thread C) (after : List (Thread C))
      → AllWait (before ++ t ∷ after)
      → Waits t'
      → AllWait (before ++ t' ∷ after)
  replace [] t t' after h w = (w, h.1)
  replace (x ∷ before) t t' after h w = (h.0, replace before t t' after h.1 w)

  -- Another state for one thread.
  pub AllWait-replace :
      (ts before : List (Thread C)) (t t' : Thread C) (after : List (Thread C))
      → AllWait ts
      → ts ≡ before ++ t ∷ after
      → Waits t'
      → AllWait (before ++ t' ∷ after)
  AllWait-replace ts before t t' after h at_place w =
      replace before t t' after (subst AllWait at_place h) w

  AllWait-sleeping :
      (before : List (Thread C)) (c : C) (after : List (Thread C))
      → AllWait (before ++ sleeping c ∷ after)
      → P c
  AllWait-sleeping [] c after h = h.0
  AllWait-sleeping (t ∷ before) c after h = AllWait-sleeping before c after h.1

  pub sleeper-Waits : (ts : List (Thread C)) (c : C) → AllWait ts → Sleeps c ts → P c
  sleeper-Waits ts c h (before, after, at_place) =
      AllWait-sleeping before c after (subst AllWait at_place h)

  one-Waits : (x : Thread C) → ((c : C) → x ≡ sleeping c → P c) → Waits x
  one-Waits (running c) g = tt
  one-Waits (sleeping c) g = g c refl
  one-Waits away g = tt

  -- If it holds for each sleeper, it does for each thread that sleeps.
  pub AllWait-sleepers : (ts : List (Thread C)) → ((c : C) → Sleeps c ts → P c) → AllWait ts
  AllWait-sleepers [] h = tt
  AllWait-sleepers (t ∷ ts) h = (
    one-Waits t (λ c e. h c ([], ts, ap (λ x. x ∷ ts) e)),
    AllWait-sleepers ts (λ c (before, after, e). h c (t ∷ before, after, ap (λ l. t ∷ l) e)),
  )

  pub all_away-AllWait : (n : ℕ) → AllWait (all_away n)
  all_away-AllWait zero = tt
  all_away-AllWait (suc n) = (tt, all_away-AllWait n)

-- A broadcast: those who sleep on other conditions go on waiting, now for `P'`.
pub Woken-AllWait :
    {C : Type 0} (waits_on : C → InternalQueue → Pointer)
    (Woken : Pointer → InternalQueue → List (Thread C) → List (Thread C) → Type 0)
    (P P' : C → Type 0) (condition : Pointer) (q : InternalQueue) (ts ts' : List (Thread C))
    → Unblocks waits_on Woken
    → Woken condition q ts ts'
    → AllWait P ts
    → ((c : C) → P c → waits_on c q ≢ condition → P' c)
    → AllWait P' ts'
Woken-AllWait waits_on Woken P P' condition q ts ts' unblocks awake h stays =
    AllWait-sleepers P' ts' λ c asleep.
      let (slept, elsewhere) = unblocks condition q ts ts' c awake asleep in
      stays c (sleeper-Waits P ts c h slept) elsewhere
