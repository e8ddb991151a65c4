-- ===== src/Queue/Results.antt =====
-- What each call of a queue does to the list of its values, other threads' critical sections, and
-- the mutex: for the calls that push, pop and wait until the queue is empty.
use libcthreads.Common.{
  ℕ, ◌≡◌, ◌≢◌, ◌⊎◌, inl, inr, refl, sym, ap, subst, subst₂, Bool, false, none, some, [], ◌∷◌, ◌++◌,
  ◌==◌, arith,
}
use libcthreads.Machine.{Pointer, null, Platform, State, M, success, failure, access}
use libcthreads.Machine.Post.{Post, Post-bind, Post-total, Post-weaken, Post-step, access_lem}
use libcthreads.Machine.Answer.{Answered}
use libcthreads.Mutex
use libcthreads.Mutex.Laws.{grab-Answered}
use libcthreads.Queue.{InternalQueue}
use libcthreads.Queue.Valid.{IsValid, Keeps, contents}
use libcthreads.Queue.Ring.{enqueue, dequeue}
use libcthreads.Queue.Fifo.{enqueue_lem, dequeue_lem}
use libcthreads.Queue.Calls.{
  Reply, store, wait_while, locked, waited, checked, lacks_array, take, put,
}
use libcthreads.Queue.Others.{Others, Others-trans}
use libcthreads.Queue.Environment.{Threads, Ends}
use libcthreads.Queue.Steps.{
  Ready, Keeps-HasHandles, Others-Ready, IsHandle, Leaves, Waited, on_error_lem, announce_lem,
  wait_while_lem,
}

-- After a value was appended to the queue `q`.
pub record Appended (v : Pointer) (q q' : InternalQueue) : Type 0 where
  pub room : q.number_of_values ≢ q.allocated_number_of_values
  pub valid : IsValid q'
  pub keeps : Keeps q q'
  pub values : contents q' ≡ contents q ++ v ∷ []

-- After the oldest value was taken off the queue `q`.
pub record Taken (v : Pointer) (q q' : InternalQueue) : Type 0 where
  pub valid : IsValid q'
  pub keeps : Keeps q q'
  pub values : contents q ≡ v ∷ contents q'

module _ {W : Type 0} {p : Platform W InternalQueue} {Free Held : W → Type 0} {F : Type 0}
    (threads : Threads p Free Held F) where
  -- `reply`, or -1 where `F`.
  abbrev pub Replies : Reply → Reply → Type 0
  Replies reply r = (r ≡ reply) ⊎ (F × (r ≡ (failure, reply.1)))

  -- After the value `v` was put into `q`: it stays there also where the broadcast or the release
  -- fails and the reply is -1.
  abbrev pub PutPost : Pointer → InternalQueue → Reply → State W InternalQueue → Type 0
  PutPost v q r t = Appended v q t.object × Free t.world × Replies (success, none) r

  abbrev pub TakePost : InternalQueue → Reply → State W InternalQueue → Type 0
  TakePost q r t = (v : Pointer) × Taken v q t.object × Free t.world × Replies (success, some v) r

  pub put_lem :
      (v : Pointer) (s : State W InternalQueue)
      → Ready s.object
      → s.object.number_of_values ≢ s.object.allocated_number_of_values
      → Held s.world
      → Post ⊥ (PutPost v s.object) (put p v s)
  unfolding put
  put_lem v s ready room held =
      let (q', runs, valid, keeps, values) = enqueue_lem ready.valid room v in
      Post-step ⊥ (PutPost v s.object) (access (λ q. store (enqueue v q)) s) tt
        (record s { object = q' }) _ (access_lem (λ q. store (enqueue v q)) s tt q' (ap store runs))
        (Post-weaken ⊥ (Leaves threads (success, none) q') (PutPost v s.object) _
          (announce_lem threads (λ q. q.empty_condition) none (record s { object = q' })
            (λ q h. h.empty) (Keeps-HasHandles ready.handles keeps) held)
          λ r t (same, free, side). (
            rw same (record { room = room; valid = valid; keeps = keeps; values = values }),
            free,
            side,
          ))

  pub take_lem :
      (s : State W InternalQueue)
      → Ready s.object
      → s.object.number_of_values ≢ 0
      → Held s.world
      → Post ⊥ (TakePost s.object) (take p s)
  unfolding take
  take_lem s ready left held =
      let (v, q', runs, valid, keeps, values) = dequeue_lem ready.valid left in
      Post-step ⊥ (TakePost s.object) (access dequeue s) v (record s { object = q' }) _
        (access_lem dequeue s v q' runs)
        (Post-weaken ⊥ (Leaves threads (success, some v) q') (TakePost s.object) _
          (announce_lem threads (λ q. q.full_condition) (some v) (record s { object = q' })
            (λ q h. h.full) (Keeps-HasHandles ready.handles keeps) held)
          λ r t (same, free, side).
            (v, rw same (record { valid = valid; keeps = keeps; values = values }), free, side))

  -- The mutex is grabbed, and `body` runs on the queue that other threads have left; or it is not.
  locked_lem :
      (T : Type 0) (Q : Reply → State W InternalQueue → Type 0) (body : M W InternalQueue Reply)
      (s : State W InternalQueue)
      → Ready s.object
      → Free s.world
      → let (code, w, q) = p.pthread_mutex_lock s.object.condition_mutex s.world s.object in
        ((t : State W InternalQueue)
          → t.world ≡ w
          → t.object ≡ q
          → Ready q
          → Held w
          → Post T Q (body t))
        → ((t : State W InternalQueue) → F → t.object ≡ q → Free t.world → Q (failure, none) t)
        → Post T Q (locked p body s)
  unfolding locked
  locked_lem T Q body s ready free go stop =
      let m = s.object.condition_mutex in
      let (code, w, q) = p.pthread_mutex_lock m s.world s.object in
      let ready' = Others-Ready s.object q ready (threads.lock_others m s.world s.object) in
      Post-bind T (Answered code w q s) Q (Mutex.grab p m s) _
        (Post-total T (Answered code w q s) (Mutex.grab p m s)
          (grab-Answered p m s ready.handles.mutex))
        λ r t h. elim (threads.lock_held m s.world s.object free) [
          | inl (zero_code, held) ↦ elim h.result [
            | inl (z, e, same) ↦ rw e (go t h.world h.object ready' held)
            | inr (nz, e, same) ↦ absurd (nz zero_code)
          ]
          | inr (f, not_zero, free') ↦ elim h.result [
            | inl (z, e, same) ↦ absurd (not_zero z)
            | inr (nz, e, same) ↦
                rw e (stop (record t { errors = _ }) f h.object (subst Free (sym h.world) free'))
          ]
        ]

  -- Waiting until the test fails, then `body`; or a wait fails.
  waited_lem :
      (T : Type 0) (Q : Reply → State W InternalQueue → Type 0) (rounds : ℕ)
      (test : W → InternalQueue → Bool) (condition : InternalQueue → Pointer)
      (body : M W InternalQueue Reply) (s : State W InternalQueue)
      → IsHandle condition
      → Ready s.object
      → Held s.world
      → Ends p test condition T rounds s.world s.object
      → ((t : State W InternalQueue)
          → Others s.object t.object
          → Ready t.object
          → Held t.world
          → test t.world t.object ≡ false
          → Post T Q (body t))
      → ((t : State W InternalQueue)
          → F
          → Others s.object t.object
          → Free t.world
          → Q (failure, none) t)
      → Post T Q (waited p rounds test condition body s)
  unfolding waited
  waited_lem T Q rounds test condition body s is_handle ready held ends go stop =
      Post-bind T (Waited threads s.object test) Q (wait_while p rounds test condition s) _
        (wait_while_lem threads T rounds test condition s is_handle ready held ends)
        λ r t (others, held', side). elim side [
          | inl (e, fails) ↦
              rw e (go t others (Others-Ready s.object t.object ready others) held' fails)
          | inr (f, e) ↦ rw e (
              Post-total T Q _ (
                Post-weaken ⊥ _ Q _
                  (on_error_lem threads none t (Others-Ready s.object t.object ready others).handles
                    held')
                  λ r' u (minus_one, same, free).
                    rw minus_one (stop u f (subst (Others s.object) (sym same) others) free)))
        ]

  -- The guards on the queue pass.
  checked_lem :
      (T : Type 0) (Q : Reply → State W InternalQueue → Type 0) (queue : Pointer)
      (body : M W InternalQueue Reply) (s : State W InternalQueue)
      → queue ≢ null
      → Ready s.object
      → Post T Q (body s)
      → Post T Q (checked p queue body s)
  unfolding checked
  checked_lem T Q queue body s set ready h =
      let f : (queue == null) ≡ false = ground arith in
      let g : lacks_array s.object ≡ false = ground (arith, ready.valid.array) in
      rw (checked, f, g) h

  -- After a call on the queue `q`: other threads took it to `q'`; then either the call failed and
  -- left it there, or `Q q'` holds. The mutex is free.
  abbrev pub Passed :
      (InternalQueue → Reply → State W InternalQueue → Type 0)
      → InternalQueue
      → Reply
      → State W InternalQueue
      → Type 0
  Passed Q q r t =
      (q' : InternalQueue) × Others q q'
      × Free t.world
      × ((F × (r ≡ (failure, none)) × (t.object ≡ q')) ⊎ Q q' r t)

  -- A call that grabs the mutex and runs `body`.
  pub plain_call_lem :
      (T : Type 0) (Q : InternalQueue → Reply → State W InternalQueue → Type 0) (queue : Pointer)
      (body : M W InternalQueue Reply) (s : State W InternalQueue)
      → queue ≢ null
      → Ready s.object
      → Free s.world
      → ((t : State W InternalQueue)
          → t.world ≡ (p.pthread_mutex_lock s.object.condition_mutex s.world s.object).1
          → t.object ≡ (p.pthread_mutex_lock s.object.condition_mutex s.world s.object).2
          → Ready t.object
          → Held t.world
          → Post T (Passed Q t.object) (body t))
      → Post T (Passed Q s.object) (checked p queue (locked p body) s)
  plain_call_lem T Q queue body s set ready free go =
      let q = (p.pthread_mutex_lock s.object.condition_mutex s.world s.object).2 in
      let others = threads.lock_others s.object.condition_mutex s.world s.object in
      checked_lem T (Passed Q s.object) queue (locked p body) s set ready (
        locked_lem T (Passed Q s.object) body s ready free
          (λ t same_world same ready' held.
            Post-weaken T (Passed Q t.object) (Passed Q s.object) (body t)
              (go t same_world same (subst Ready (sym same) ready')
                (subst Held (sym same_world) held))
              λ r u (q', others', free', rest). (
                q',
                Others-trans s.object t.object q' (subst (Others s.object) (sym same) others)
                    others',
                free',
                rest,
              ))
          (λ t f same free'. (q, others, free', inl (f, refl, same))))

  -- A call that grabs the mutex, waits until the test fails and runs `body`.
  pub waiting_call_lem :
      (T : Type 0) (Q : InternalQueue → Reply → State W InternalQueue → Type 0) (rounds : ℕ)
      (test : W → InternalQueue → Bool) (condition : InternalQueue → Pointer) (queue : Pointer)
      (body : M W InternalQueue Reply) (s : State W InternalQueue)
      → IsHandle condition
      → queue ≢ null
      → Ready s.object
      → Free s.world
      → Ends p test condition T rounds
          (p.pthread_mutex_lock s.object.condition_mutex s.world s.object).1
          (p.pthread_mutex_lock s.object.condition_mutex s.world s.object).2
      → ((t : State W InternalQueue)
          → Ready t.object
          → Held t.world
          → test t.world t.object ≡ false
          → Post T (λ r u. Free u.world × Q t.object r u) (body t))
      → Post T
          (Passed Q s.object)
          (checked p queue (locked p (waited p rounds test condition body)) s)
  waiting_call_lem T Q rounds test condition queue body s is_handle set ready free ends go =
      plain_call_lem T Q queue (waited p rounds test condition body) s set ready free
        λ t same_world same ready' held.
          waited_lem T (Passed Q t.object) rounds test condition body t is_handle ready' held
            (subst₂ (Ends p test condition T rounds) (sym same_world) (sym same) ends)
            (λ u others ready'' held' fails.
              Post-weaken T (λ r x. Free x.world × Q u.object r x) (Passed Q t.object) (body u)
                (go u ready'' held' fails)
                λ r x (free', result). (u.object, others, free', inr result))
            (λ u f others free'. (u.object, others, free', inl (f, refl, refl)))
