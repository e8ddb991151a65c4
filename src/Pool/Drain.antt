-- ===== src/Pool/Drain.antt =====
-- The part of libcthreads_thread_pool_join between the grab and the release.
use libcthreads.Common.{
  ℕ, ◌≡◌, ◌⊎◌, inl, inr, refl, sym, subst, subst₂, ◌∙◌, [], ℤ, ◌==ℤ◌, if◌then◌else◌, arith,
}
use libcthreads.Machine.{Pointer, Platform, State, ◌>>=◌, return, success, failure}
use libcthreads.Machine.Post.{Post, Post-bind, Post-total}
use libcthreads.Machine.Answer.{Answered}
use libcthreads.Condition
use libcthreads.Condition.Laws.{broadcast-Answered}
use libcthreads.Queue.{InternalQueue}
use libcthreads.Queue.Valid.{contents, contents_of_zero}
use libcthreads.Queue.Others.{Others}
use libcthreads.Queue.Environment.{Threads, Ends}
use libcthreads.Queue.Steps.{Ready, Waited, sides, wait_while_lem}
use libcthreads.Queue.Calls.{has_values, wait_while}
use libcthreads.Pool.{Members, PoolWorld, status_exit}
use libcthreads.Pool.Lifetime.{put_status, drain}

-- The world with the threads told to exit.
abbrev pub exiting : {W : Type 0} → PoolWorld W → PoolWorld W
exiting w = record w { members = put_status status_exit w.members }

-- The calls on the mutex and the conditions leave the pool's other members as they are, and the
-- status says nothing of who holds the mutex.
pub record Steady {W : Type 0} (p : Platform (PoolWorld W) InternalQueue)
    (Held : PoolWorld W → Type 0) : Type 0 where
  pub lock_members :
      (m : Pointer) (w : PoolWorld W) (q : InternalQueue)
      → (p.pthread_mutex_lock m w q).1.members ≡ w.members
  pub wait_members :
      (c m : Pointer) (w : PoolWorld W) (q : InternalQueue)
      → (p.pthread_cond_wait c m w q).1.members ≡ w.members
  pub broadcast_members :
      (c : Pointer) (w : PoolWorld W) → (p.pthread_cond_broadcast c w).1.members ≡ w.members
  pub unlock_members :
      (m : Pointer) (w : PoolWorld W) → (p.pthread_mutex_unlock m w).1.members ≡ w.members
  pub exit_held : (w : PoolWorld W) → Held w → Held (exiting w)

-- A world in which `P` holds and the other members are `m`.
abbrev pub With : {W : Type 0} → Members → (PoolWorld W → Type 0) → PoolWorld W → Type 0
With m P w = P w × (w.members ≡ m)

module _ {W : Type 0} {p : Platform (PoolWorld W) InternalQueue} {Free Held : PoolWorld W → Type 0}
    {F : Type 0} (threads : Threads p Free Held F) (steady : Steady p Held) where
  -- The calls also keep the other members.
  pub steady_threads : (m : Members) → Threads p (With m Free) (With m Held) F
  steady_threads m = record {
    lock_held = λ a w q (free, same).
        let stays = steady.lock_members a w q ∙ same in
        elim (threads.lock_held a w q free) [
          | inl (z, held) ↦ inl (z, (held, stays))
          | inr (f, nz, free') ↦ inr (f, nz, (free', stays))
        ];
    lock_others = threads.lock_others;
    wait_held = λ c a w q (held, same).
        let (held', side) = threads.wait_held c a w q held in
        ((held', steady.wait_members c a w q ∙ same), side);
    wait_others = threads.wait_others;
    broadcast_held = λ c w (held, same).
        let (held', side) = threads.broadcast_held c w held in
        ((held', steady.broadcast_members c w ∙ same), side);
    unlock_free = λ a w (held, same).
        let (free, side) = threads.unlock_free a w held in
        ((free, steady.unlock_members a w ∙ same), side);
  }

  -- After drain: no value is left, unless a call failed.
  abbrev pub Drained : Members → InternalQueue → ℤ → State (PoolWorld W) InternalQueue → Type 0
  Drained m q r t =
      Others q t.object
      × With m Held t.world
      × (((r ≡ success) × (contents t.object ≡ [])) ⊎ (F × (r ≡ failure)))

  -- From the broadcast on, with the result so far.
  wait-Drained :
      (T : Type 0) (rounds : ℕ) (m : Members) (result : ℤ) (w : PoolWorld W) (q : InternalQueue)
      (t : State (PoolWorld W) InternalQueue)
      → t.world ≡ w
      → t.object ≡ q
      → Ready q
      → With m Held w
      → Ends p (λ w. has_values) (λ q. q.full_condition) T rounds w q
      → (result ≡ success) ⊎ (F × (result ≡ failure))
      → Post T (Drained m q) (
          (wait_while p rounds (λ w. has_values) (λ q. q.full_condition) >>= λ woken.
          return (if woken ==ℤ success then result else failure))
            t)
  wait-Drained T rounds m result w q t world object ready held ends so_far =
      Post-bind T (Waited (steady_threads m) t.object (λ w. has_values)) (Drained m q)
        (wait_while p rounds (λ w. has_values) (λ q. q.full_condition) t) _
        (wait_while_lem (steady_threads m) T rounds (λ w. has_values) (λ q. q.full_condition) t
          (λ q h. h.full) (subst Ready (sym object) ready) (subst (With m Held) (sym world) held)
          (subst₂ (Ends p (λ w. has_values) (λ q. q.full_condition) T rounds) (sym world)
            (sym object) ends))
        λ r u (others, held', side).
          let others' = subst (λ x. Others x u.object) object others in
          elim side [
            | inr (f, failed) ↦ rw failed (others', held', inr (f, refl))
            | inl (woken, none_left) ↦ rw woken (
              others',
              held',
              elim so_far [
                | inl e ↦ inl (e, contents_of_zero u.object (ground (arith, none_left)))
                | inr failed ↦ inr failed
              ],
            )
          ]

  pub drain_lem :
      (T : Type 0) (rounds : ℕ) (s : State (PoolWorld W) InternalQueue)
      → Ready s.object
      → Held s.world
      → Ends p
          (λ w. has_values)
          (λ q. q.full_condition)
          T
          rounds
          (p.pthread_cond_broadcast s.object.empty_condition (exiting s.world)).1
          s.object
      → Post T (Drained (put_status status_exit s.world.members) s.object) (drain p rounds s)
  unfolding drain
  drain_lem T rounds s ready held ends =
      let m = put_status status_exit s.world.members in
      let c = s.object.empty_condition in
      let s1 : State (PoolWorld W) InternalQueue = record s { world = exiting s.world } in
      let (held', side) =
        (steady_threads m).broadcast_held c s1.world (steady.exit_held s.world held, refl) in
      let (code, w) = p.pthread_cond_broadcast c s1.world in
      Post-bind T (Answered code w s.object s1) (Drained m s.object) (Condition.broadcast p c s1) _
        (Post-total T (Answered code w s.object s1) (Condition.broadcast p c s1)
          (broadcast-Answered p c s1 ready.handles.empty))
        λ r t h. elim (sides F _ _ h.result side) [
          | inl e ↦ rw e (
              wait-Drained T rounds m success w s.object t h.world h.object ready held' ends
                (inl refl))
          | inr (f, e) ↦ rw e (
              wait-Drained T rounds m failure w s.object (record t { errors = _ }) h.world h.object
                ready held' ends (inr (f, refl)))
        ]
