-- ===== src/Queue/Environment.antt =====
-- What the calls of a queue rely on: the documented behaviour of POSIX mutexes and conditions.
use libcthreads.Common.{ℕ, ◌<◌, ◌≡◌, ◌≢◌, ◌⊎◌, Bool, false, true, sym, ◌∙◌, zero, suc, arith}
use mathlib.Core.Bool.{false≢true}
use libcthreads.Machine.{Pointer, Platform}
use libcthreads.Queue.{InternalQueue}
use libcthreads.Queue.Others.{Others}

-- `Free w` and `Held w`: the calling thread does not hold the queue's mutex, or does. `F` is what a
-- failing call shows: `Unit` where calls may fail, `⊥` where none does.
pub record Threads {W : Type 0} (p : Platform W InternalQueue) (Free Held : W → Type 0) (F : Type 0)
    : Type 0 where
  pub lock_held :
      (m : Pointer) (w : W) (q : InternalQueue)
      → Free w
      → let (code, w', q') = p.pthread_mutex_lock m w q in
        ((code ≡ 0) × Held w') ⊎ (F × (code ≢ 0) × Free w')
  -- Others change the queue only in critical sections of their own.
  pub lock_others :
      (m : Pointer) (w : W) (q : InternalQueue) → Others q (p.pthread_mutex_lock m w q).2
  -- The caller holds the mutex again when the wait ends, also when it fails.
  pub wait_held :
      (c m : Pointer) (w : W) (q : InternalQueue)
      → Held w
      → let (code, w', q') = p.pthread_cond_wait c m w q in Held w' × ((code ≡ 0) ⊎ F)
  pub wait_others :
      (c m : Pointer) (w : W) (q : InternalQueue) → Others q (p.pthread_cond_wait c m w q).2
  pub broadcast_held :
      (c : Pointer) (w : W)
      → Held w
      → let (code, w') = p.pthread_cond_broadcast c w in Held w' × ((code ≡ 0) ⊎ F)
  -- A thread that holds the mutex gives it up.
  pub unlock_free :
      (m : Pointer) (w : W)
      → Held w
      → let (code, w') = p.pthread_mutex_unlock m w in Free w' × ((code ≡ 0) ⊎ F)

module _ {W : Type 0} (p : Platform W InternalQueue) (test : W → InternalQueue → Bool)
    (condition : InternalQueue → Pointer) where
  -- The world and the queue after `n` waits.
  abbrev pub after_waits : ℕ → W → InternalQueue → W × InternalQueue
  after_waits zero w q = (w, q)
  after_waits (suc n) w q =
      let (code, w', q') = p.pthread_cond_wait (condition q) q.condition_mutex w q in
      after_waits n w' q'

  -- In fewer than `rounds` waits other threads bring the queue where `test` fails.
  abbrev pub Reaches : ℕ → W → InternalQueue → Type 0
  Reaches rounds w q =
      (n : ℕ) × (n < rounds) × (test (after_waits n w q).0 (after_waits n w q).1 ≡ false)

  -- `T`, if the test holds in all of `rounds` rounds.
  pub data Ends (T : Type 0) : ℕ → W → InternalQueue → Type 0 where
    out : {w : W} {q : InternalQueue} → T → Ends T zero w q
    stop : {rounds : ℕ} {w : W} {q : InternalQueue} → test w q ≡ false → Ends T (suc rounds) w q
    again :
        {rounds : ℕ} {w : W} {q : InternalQueue}
        → Ends T rounds
            (p.pthread_cond_wait (condition q) q.condition_mutex w q).1
            (p.pthread_cond_wait (condition q) q.condition_mutex w q).2
        → Ends T (suc rounds) w q

  pub Ends-Unit : (rounds : ℕ) (w : W) (q : InternalQueue) → Ends (Unit {0}) rounds w q
  Ends-Unit zero w q = out tt
  Ends-Unit (suc rounds) w q = again (Ends-Unit rounds _ _)

  after_waits-Ends :
      (rounds n : ℕ) (w : W) (q : InternalQueue)
      → n < rounds
      → test (after_waits n w q).0 (after_waits n w q).1 ≡ false
      → Ends ⊥ rounds w q
  after_waits-Ends zero n w q h e = absurd (omega arith)
  after_waits-Ends (suc rounds) zero w q h e = stop e
  after_waits-Ends (suc rounds) (suc n) w q h e =
      again (after_waits-Ends rounds n _ _ (omega arith) e)

  pub Reaches-Ends :
      (rounds : ℕ) (w : W) (q : InternalQueue) → Reaches rounds w q → Ends ⊥ rounds w q
  Reaches-Ends rounds w q (n, h, e) = after_waits-Ends rounds n w q h e

  -- A round in which the test holds goes on.
  pub Ends-again :
      {T : Type 0} {rounds : ℕ} {w : W} {q : InternalQueue}
      → test w q ≡ true
      → Ends T (suc rounds) w q
      → Ends T rounds
          (p.pthread_cond_wait (condition q) q.condition_mutex w q).1
          (p.pthread_cond_wait (condition q) q.condition_mutex w q).2
  Ends-again h (stop e) = absurd (false≢true (sym e ∙ h))
  Ends-again h (again next) = next
