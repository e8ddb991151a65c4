-- ===== src/Pool/Join.antt =====
-- libcthreads_thread_pool_join: the shutdown of a pool.
use libcthreads.Common.{
  ℕ, ◌≡◌, ◌≢◌, ◌⊎◌, inl, inr, refl, sym, ap, subst, subst₂, ◌∙◌, false, Option, some, List, [], ℤ,
  ◌==◌, arith,
}
use libcthreads.Machine.{Pointer, null, Platform, State, success, failure}
use libcthreads.Machine.Post.{Post, Post-bind, Post-weaken, Post-total}
use libcthreads.Machine.Answer.{Answered}
use libcthreads.Mutex
use libcthreads.Mutex.Laws.{grab-Answered}
use libcthreads.Queue.{InternalQueue}
use libcthreads.Queue.Valid.{contents}
use libcthreads.Queue.Others.{Others, Others-trans}
use libcthreads.Queue.Environment.{Threads, Ends}
use libcthreads.Queue.Steps.{Ready, HasHandles, Others-Ready, GivesUp, release_lem}
use libcthreads.Queue.Calls.{has_values}
use libcthreads.Pool.{Members, PoolWorld, status_exit}
use libcthreads.Pool.Lifetime.{put_status, drain, leave, join}
use libcthreads.Pool.Joins.{HasThreads, Stays, Dismantled, dismantle_lem}
use libcthreads.Pool.Drain.{exiting, Steady, steady_threads, Drained, drain_lem}

module _ {W : Type 0} {p : Platform (PoolWorld W) InternalQueue} {Free Held : PoolWorld W → Type 0}
    {F : Type 0} (threads : Threads p Free Held F) (steady : Steady p Held) (ids : List ℕ)
    (threads_array values_array : Pointer) where
  -- After a join of the pool `q` with the other members `m`: a failing call has stopped it with the
  -- mutex free; or it has let go of the mutex in a state `u` in which the threads are told to exit
  -- and no value is left, unless a wait or a broadcast failed, and has taken the pool apart.
  abbrev pub Ended :
      Pointer
      → State (PoolWorld W) InternalQueue
      → ℤ × Option Pointer
      → State (PoolWorld W) InternalQueue
      → Type 0
  Ended thread_pool s r t =
      (F × Free t.world × (r ≡ (failure, some null)))
      ⊎ ((u : State (PoolWorld W) InternalQueue) × (drained : ℤ) × Free u.world
          × (u.world.members.status ≡ status_exit)
          × Others s.object u.object
          × (((drained ≡ success) × (contents u.object ≡ [])) ⊎ (F × (drained ≡ failure)))
          × Dismantled p ids threads_array values_array thread_pool drained u r t)

  -- What follows drain, from the pool `q` on with the other members `m`.
  leave_lem :
      (thread_pool : Pointer) (m : Members) (s t : State (PoolWorld W) InternalQueue)
      (q : InternalQueue) (drained : ℤ)
      → p.edeadlk ≢ 0
      → Stays p ids
      → HasThreads ids m
      → Ready q
      → Others s.object q
      → Drained threads steady (put_status status_exit m) q drained t
      → Post ⊥ (Ended thread_pool s) (leave p threads_array values_array thread_pool drained t)
  unfolding leave
  leave_lem thread_pool m s t q drained deadlock stays has ready others (others', held, side) =
      let threads' = steady_threads threads steady (put_status status_exit m) in
      let ready' = Others-Ready q t.object ready others' in
      Post-bind ⊥ (GivesUp threads' t.object) (Ended thread_pool s)
        (Mutex.release p t.object.condition_mutex t) _
        (release_lem threads' t.object.condition_mutex t ready'.handles.mutex held)
        λ r u (same, (free, members), released). elim released [
          | inr (f, e) ↦ rw e (inl (f, free, refl))
          | inl e ↦ rw e (
              Post-weaken ⊥ (Dismantled p ids threads_array values_array thread_pool drained u)
                (Ended thread_pool s) _
                (dismantle_lem p ids threads_array values_array thread_pool drained u deadlock stays
                  (subst (HasThreads ids) (sym members) has)
                  (subst HasHandles (sym same) ready'.handles))
                λ r' y end. inr (
                  u,
                  drained,
                  free,
                  ap (λ (x : Members). x.status) members,
                  subst (Others s.object) (sym same)
                      (Others-trans s.object q t.object others others'),
                  subst (λ o. ((drained ≡ success) × (contents o ≡ [])) ⊎ (F × (drained ≡ failure)))
                      (sym same) side,
                  end,
                ))
        ]

  -- libcthreads_thread_pool_join on a pool with the threads `ids`, by a caller that does not hold the
  -- mutex, whatever the threads library answers within `Threads` and `Steady`: `*thread_pool` is NULL
  -- in the end. Either a grab or a release fails, and the result is -1; or it has told the threads to
  -- exit and waited until no value is left (or a broadcast or a wait has failed), and then, without
  -- the mutex, joins each thread once, in order, and frees what it returned, destroys and frees the
  -- conditions and the mutex, and frees the two arrays and the structure, each once. The result is
  -- then 1 if every step went well, else -1. Where the rounds suffice (`T` is `⊥`) it ends.
  pub join-Ended :
      (T : Type 0) (rounds : ℕ) (thread_pool : Pointer) (s : State (PoolWorld W) InternalQueue)
      → thread_pool ≢ null
      → p.edeadlk ≢ 0
      → Stays p ids
      → HasThreads ids s.world.members
      → Ready s.object
      → Free s.world
      → (let (code, w, q) = p.pthread_mutex_lock s.object.condition_mutex s.world s.object in
          Ends p
            (λ w. has_values)
            (λ q. q.full_condition)
            T
            rounds
            (p.pthread_cond_broadcast q.empty_condition (exiting w)).1
            q)
      → Post T (Ended thread_pool s) (join p rounds threads_array values_array (some thread_pool) s)
  unfolding join
  join-Ended T rounds thread_pool s set deadlock stays has ready free ends =
      let f : (thread_pool == null) ≡ false = ground arith in
      let m = s.object.condition_mutex in
      let (code, w, q) = p.pthread_mutex_lock m s.world s.object in
      let others = threads.lock_others m s.world s.object in
      let ready' = Others-Ready s.object q ready others in
      rw f (
        Post-bind T (Answered code w q s) (Ended thread_pool s) (Mutex.grab p m s) _
          (Post-total T (Answered code w q s) (Mutex.grab p m s)
            (grab-Answered p m s ready.handles.mutex))
          λ r t h. elim (threads.lock_held m s.world s.object free) [
            | inr (f, not_zero, free') ↦ elim h.result [
              | inl (z, e, same) ↦ absurd (not_zero z)
              | inr (nz, e, same) ↦ rw e (inl (f, subst Free (sym h.world) free', refl))
            ]
            | inl (zero_code, held) ↦ elim h.result [
              | inr (nz, e, same) ↦ absurd (nz zero_code)
              | inl (z, e, same) ↦
                  let members =
                    ap (λ (w : PoolWorld W). w.members) h.world
                    ∙ steady.lock_members m s.world s.object in
                  rw e (
                    Post-bind T
                      (Drained threads steady (put_status status_exit t.world.members) t.object)
                      (Ended thread_pool s) (drain p rounds t) _
                      (drain_lem threads steady T rounds t (subst Ready (sym h.object) ready')
                        (subst Held (sym h.world) held)
                        (subst₂
                          (λ w q.
                            Ends p (λ w. has_values) (λ q. q.full_condition) T rounds
                              (p.pthread_cond_broadcast q.empty_condition (exiting w)).1 q)
                          (sym h.world) (sym h.object) ends))
                      λ d u drained. Post-total T (Ended thread_pool s) _ (
                        leave_lem thread_pool t.world.members s u t.object d deadlock stays
                          (subst (HasThreads ids) (sym members) has)
                          (subst Ready (sym h.object) ready')
                          (subst (Others s.object) (sym h.object) others) drained))
            ]
          ])
