-- ===== src/Queue/Steps.antt =====
-- What each part of a queue's call does, whatever the threads library answers.
use libcthreads.Common.{
  ℕ, zero, suc, ◌≡◌, ◌≢◌, ◌⊎◌, inl, inr, refl, sym, subst, subst₂, ◌∙◌, Bool, false, Option, ℤ,
  arith, Bool-cases,
}
use libcthreads.Machine.{Pointer, null, Platform, State, success, failure, with_null_error}
use libcthreads.Machine.Post.{Post, Post-bind, Post-null, Post-total, Post-weaken}
use libcthreads.Machine.Answer.{Answered}
use libcthreads.Mutex
use libcthreads.Mutex.Laws.{release-Answered}
use libcthreads.Condition
use libcthreads.Condition.Laws.{broadcast-Answered, wait-Answered}
use libcthreads.Queue.{InternalQueue}
use libcthreads.Queue.Valid.{IsValid, Keeps}
use libcthreads.Queue.Calls.{Reply, on_error, finish, announce, wait_while}
use libcthreads.Queue.Others.{Others, Others-refl, Others-trans, Others-Sound}
use libcthreads.Queue.Environment.{Threads, Ends, out, Ends-again}

-- The handles of a queue are set.
pub record HasHandles (q : InternalQueue) : Type 0 where
  pub mutex : q.condition_mutex ≢ null
  pub empty : q.empty_condition ≢ null
  pub full : q.full_condition ≢ null

-- A queue that exists.
pub record Ready (q : InternalQueue) : Type 0 where
  pub valid : IsValid q
  pub handles : HasHandles q

pub Keeps-HasHandles : {q q' : InternalQueue} → HasHandles q → Keeps q q' → HasHandles q'
Keeps-HasHandles h k = omega arith

pub Others-Ready : (q q' : InternalQueue) → Ready q → Others q q' → Ready q'
Others-Ready q q' ready others =
    let sound = Others-Sound q q' ready.valid others in
    record { valid = sound.valid; handles = Keeps-HasHandles ready.handles sound.keeps }

-- A condition of a queue.
abbrev pub IsHandle : (InternalQueue → Pointer) → Type 0
IsHandle condition = (q : InternalQueue) → HasHandles q → condition q ≢ null

-- The result of a wrapper, with `F` for a failure.
pub sides :
    (F : Type 0) (code : ℕ) (r : ℤ) {A B : Type 0}
    → ((code ≡ 0) × (r ≡ success) × A) ⊎ ((code ≢ 0) × (r ≡ failure) × B)
    → (code ≡ 0) ⊎ F
    → (r ≡ success) ⊎ (F × (r ≡ failure))
sides F code r (inl h) side = inl h.1
sides F code r (inr h) (inl z) = absurd (h.0 z)
sides F code r (inr h) (inr f) = inr (f, h.1)

module _ {W : Type 0} {p : Platform W InternalQueue} {Free Held : W → Type 0} {F : Type 0}
    (threads : Threads p Free Held F) where
  -- A call that keeps the mutex: the object stays, and failing shows `F`.
  abbrev StaysHeld : InternalQueue → ℤ → State W InternalQueue → Type 0
  StaysHeld q r t = (t.object ≡ q) × Held t.world × ((r ≡ success) ⊎ (F × (r ≡ failure)))

  abbrev pub GivesUp : InternalQueue → ℤ → State W InternalQueue → Type 0
  GivesUp q r t = (t.object ≡ q) × Free t.world × ((r ≡ success) ⊎ (F × (r ≡ failure)))

  pub release_lem :
      (m : Pointer) (s : State W InternalQueue)
      → m ≢ null
      → Held s.world
      → Post ⊥ (GivesUp s.object) (Mutex.release p m s)
  release_lem m s set held =
      let (free, side) = threads.unlock_free m s.world held in
      Post-weaken ⊥ _ (GivesUp s.object) _ (release-Answered p m s set)
        λ r t h. (h.object, subst Free (sym h.world) free, sides F _ _ h.result side)

  broadcast_lem :
      (c : Pointer) (s : State W InternalQueue)
      → c ≢ null
      → Held s.world
      → Post ⊥ (StaysHeld s.object) (Condition.broadcast p c s)
  broadcast_lem c s set held =
      let (held', side) = threads.broadcast_held c s.world held in
      Post-weaken ⊥ _ (StaysHeld s.object) _ (broadcast-Answered p c s set)
        λ r t h. (h.object, subst Held (sym h.world) held', sides F _ _ h.result side)

  -- A call that has left: its reply is `reply`, or -1 where `F`; the object is `q`, and the mutex is
  -- free.
  abbrev pub Leaves : Reply → InternalQueue → Reply → State W InternalQueue → Type 0
  Leaves reply q r t =
      (t.object ≡ q) × Free t.world × ((r ≡ reply) ⊎ (F × (r ≡ (failure, reply.1))))

  -- Leaving by `on_error`: -1, with the object as it was and the mutex free.
  pub on_error_lem :
      (stored : Option Pointer) (s : State W InternalQueue)
      → HasHandles s.object
      → Held s.world
      → Post ⊥
          (λ r t. (r ≡ (failure, stored)) × (t.object ≡ s.object) × Free t.world)
          (on_error p stored s)
  unfolding on_error
  on_error_lem stored s handles held =
      Post-bind ⊥ (GivesUp s.object) _
        (with_null_error (Mutex.release p s.object.condition_mutex) s) _
        (Post-null ⊥ (GivesUp s.object) (GivesUp s.object)
          (Mutex.release p s.object.condition_mutex) s
          (release_lem s.object.condition_mutex s handles.mutex held) (λ r t h. h))
        (λ r t h. (refl, h.0, h.1))

  -- The last release of a call.
  pub finish_lem :
      (reply : Reply) (s : State W InternalQueue)
      → HasHandles s.object
      → Held s.world
      → Post ⊥ (Leaves reply s.object) (finish p reply s)
  unfolding finish
  finish_lem reply s handles held =
      Post-bind ⊥ (GivesUp s.object) (Leaves reply s.object)
        (Mutex.release p s.object.condition_mutex s) _
        (release_lem s.object.condition_mutex s handles.mutex held)
        λ r t (same, free, side). elim side [
          | inl e ↦ rw e (same, free, inl refl)
          | inr (f, e) ↦ rw e (same, free, inr (f, refl))
        ]

  -- A broadcast and the last release.
  pub announce_lem :
      (condition : InternalQueue → Pointer) (stored : Option Pointer) (s : State W InternalQueue)
      → IsHandle condition
      → HasHandles s.object
      → Held s.world
      → Post ⊥ (Leaves (success, stored) s.object) (announce p condition stored s)
  unfolding announce
  announce_lem condition stored s is_handle handles held =
      Post-bind ⊥ (StaysHeld s.object) (Leaves (success, stored) s.object)
        (Condition.broadcast p (condition s.object) s) _
        (broadcast_lem (condition s.object) s (is_handle s.object handles) held)
        λ r t (same, held', side). elim side [
          | inl e ↦ rw e (
              Post-weaken ⊥ (Leaves (success, stored) t.object) (Leaves (success, stored) s.object)
                _ (finish_lem (success, stored) t (subst HasHandles (sym same) handles) held')
                λ r u h. (h.0 ∙ same, h.1, h.2))
          | inr (f, e) ↦ rw e (
              Post-weaken ⊥ _ (Leaves (success, stored) s.object) _
                (on_error_lem stored (record t { errors = _ }) (subst HasHandles (sym same) handles)
                  held')
                λ r u h. (h.1 ∙ same, h.2, inr (f, h.0)))
        ]

  -- After waiting: other threads have changed the queue, the mutex is held, and the test fails
  -- unless a wait failed.
  abbrev pub Waited :
      InternalQueue → (W → InternalQueue → Bool) → ℤ → State W InternalQueue → Type 0
  Waited q test r t =
      Others q t.object
      × Held t.world
      × (((r ≡ success) × (test t.world t.object ≡ false)) ⊎ (F × (r ≡ failure)))

  -- After one wait.
  abbrev Woken : Pointer → State W InternalQueue → ℤ → State W InternalQueue → Type 0
  Woken c s r t =
      let (code, w, q) = p.pthread_cond_wait c s.object.condition_mutex s.world s.object in
      (t.world ≡ w) × (t.object ≡ q) × Held w × ((r ≡ success) ⊎ (F × (r ≡ failure)))

  wait_lem :
      (T : Type 0) (c : Pointer) (s : State W InternalQueue)
      → c ≢ null
      → s.object.condition_mutex ≢ null
      → Held s.world
      → Post T (Woken c s) (Condition.wait p c s.object.condition_mutex s)
  wait_lem T c s c_set m_set held =
      let m = s.object.condition_mutex in
      let (held', side) = threads.wait_held c m s.world s.object held in
      let (code, w, q) = p.pthread_cond_wait c m s.world s.object in
      Post-total T (Woken c s) (Condition.wait p c m s) (
        Post-weaken ⊥ (Answered code w q s) (Woken c s) (Condition.wait p c m s)
          (wait-Answered p c m s c_set m_set)
          λ r t h. (h.world, h.object, held', sides F _ _ h.result side))

  pub wait_while_lem :
      (T : Type 0) (rounds : ℕ) (test : W → InternalQueue → Bool)
      (condition : InternalQueue → Pointer) (s : State W InternalQueue)
      → IsHandle condition
      → Ready s.object
      → Held s.world
      → Ends p test condition T rounds s.world s.object
      → Post T (Waited s.object test) (wait_while p rounds test condition s)
  unfolding wait_while
  wait_while_lem T zero test condition s is_handle ready held (out t) = t
  wait_while_lem T (suc rounds) test condition s is_handle ready held ends =
      elim (Bool-cases (test s.world s.object)) [
        | inr e ↦ rw (e, wait_while) (Others-refl s.object, held, inl (refl, e))
        | inl e ↦
            let c = condition s.object in
            let m = s.object.condition_mutex in
            let (code, w, q) = p.pthread_cond_wait c m s.world s.object in
            let others = threads.wait_others c m s.world s.object in
            rw (e, wait_while)
              (Post-bind T (Woken c s) (Waited s.object test) (Condition.wait p c m s) _
                (wait_lem T c s (is_handle s.object ready.handles) ready.handles.mutex held)
                λ r t (same_world, same, held', side). elim side [
                  | inr (f, failing) ↦ rw failing (
                    subst (Others s.object) (sym same) others,
                    subst Held (sym same_world) held',
                    inr (f, refl),
                  )
                  | inl woken ↦ rw woken (
                      Post-weaken T (Waited t.object test) (Waited s.object test) _
                        (wait_while_lem T rounds test condition t is_handle
                          (subst Ready (sym same) (Others-Ready s.object q ready others))
                          (subst Held (sym same_world) held')
                          (subst₂ (Ends p test condition T rounds) (sym same_world) (sym same)
                            (Ends-again p test condition e ends)))
                        λ r u h. (
                          Others-trans s.object q u.object others
                              (subst (λ x. Others x u.object) same h.0),
                          h.1,
                          h.2,
                        ))
                ])
      ]
