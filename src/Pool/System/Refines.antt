-- ===== src/Pool/System/Refines.antt =====
-- The critical sections of pop, push and push_sorted, as steps of the system.
use libcthreads.Common.{
  ◌≡◌, ◌≢◌, ◌⊎◌, inl, inr, ap, sym, ◌∙◌, Bool, true, false, none, some, ◌==ℤ◌, ◌∷◌, arith,
  Bool-cases, if◌then◌else◌,
}
use mathlib.Core.Option
use libcthreads.Handle.Members.{address_in}
use libcthreads.Machine.{
  Pointer, null, ErrorCode, Platform, State, success, failure, not_done, access,
}
use libcthreads.Machine.Post.{Post, Post-weaken, Post-step, access_lem}
use libcthreads.Queue.{InternalQueue}
use libcthreads.Queue.Ring.{Compare, rejected, duplicate, inserted, enqueue, dequeue, insert_sorted}
use libcthreads.Queue.Order.{Placement, refused, present, placed, place}
use libcthreads.Queue.Insert.{Inserts, insert_sorted_lem}
use libcthreads.Queue.Valid.{contents}
use libcthreads.Queue.Fifo.{enqueue_lem, dequeue_lem}
use libcthreads.Queue.Sorted.{inserting}
use libcthreads.Queue.Environment.{Threads}
use libcthreads.Queue.Steps.{
  Keeps-HasHandles, Ready, Leaves, finish_lem, announce_lem, on_error_lem,
}
use libcthreads.Queue.Calls.{Reply, is_empty, is_full, take, finish, put, put_sorted, store, after}
use libcthreads.Pool.{PoolWorld}
use libcthreads.Pool.Calls.{take_value}
use libcthreads.Pool.System.{
  System, waits_for_work, Place, popping, calling, idling, failed, Turn, takes, drops, misses,
  fails, Step, caller, pushes, inserts,
}

-- Where the loop goes on after a reply of pop: at -1 it ends, at 0 the status is tested, else the
-- callback function is called with the value.
abbrev pub place_of : Reply → Place
place_of r =
    if r.0 ==ℤ failure
    then failed
    else if r.0 ==ℤ not_done
    then idling
    else calling (address_in r.1)

-- The system with the members and the ring of a state.
abbrev pub seen : {W : Type 0} → System → State (PoolWorld W) InternalQueue → System
seen sys s = record sys { members = s.world.members; ring = s.object }

module _ {W : Type 0} {p : Platform (PoolWorld W) InternalQueue} {Free Held : PoolWorld W → Type 0}
    {F : Type 0} (threads : Threads p Free Held F) (sys : System)
    (s : State (PoolWorld W) InternalQueue) where
  -- A turn of a thread in pop leads to the place that its reply stands for, and to this ring.
  abbrev pub Turns : Reply → State (PoolWorld W) InternalQueue → Type 0
  Turns r t = (u : System) × Turn (seen sys s) popping u (place_of r) × (u.ring ≡ t.object)

  left_value :
      (v : Pointer) (q : InternalQueue) (r : Reply) (t : State (PoolWorld W) InternalQueue)
      → waits_for_work (seen sys s) ≡ false
      → is_empty s.object ≡ false
      → dequeue s.object ≡ some (v, q)
      → Leaves threads (success, some v) q r t
      → Turns r t
  left_value v q r t ready left runs (same, free, inl fine) =
      rw fine (record (seen sys s) { ring = q }, takes ready left runs, sym same)
  left_value v q r t ready left runs (same, free, inr (f, fault)) =
      rw fault (
        record (seen sys s) { ring = q; dropped = v ∷ sys.dropped },
        drops ready left runs,
        sym same,
      )

  left_nothing :
      (r : Reply) (t : State (PoolWorld W) InternalQueue)
      → waits_for_work (seen sys s) ≡ false
      → is_empty s.object ≡ true
      → Leaves threads (not_done, none) s.object r t
      → Turns r t
  left_nothing r t ready empty (same, free, inl fine) =
      rw fine (seen sys s, misses ready empty, sym same)
  left_nothing r t ready empty (same, free, inr (f, fault)) = rw fault (seen sys s, fails, sym same)

  -- What pop does between the end of its loop and its return, on a pool that exists and with the
  -- mutex held, is one turn of a thread: with the ring as pop leaves it, to the place at which the
  -- thread's loop goes on after the reply.
  pub take_value-Turns :
      Ready s.object
      → Held s.world
      → waits_for_work (seen sys s) ≡ false
      → Post ⊥ Turns (take_value p s)
  unfolding take_value take
  take_value-Turns ready held leaves = elim (Bool-cases (is_empty s.object)) [
    | inl empty ↦ rw empty (
        Post-weaken ⊥ (Leaves threads (not_done, none) s.object) Turns (finish p (not_done, none) s)
          (finish_lem threads (not_done, none) s ready.handles held)
          λ r t leaves_it. left_nothing r t leaves empty leaves_it)
    | inr left ↦
        let (v, q, runs, valid, keeps, values) = dequeue_lem ready.valid (ground arith) in
        rw left (
          Post-step ⊥ Turns (access dequeue s) v (record s { object = q }) _
            (access_lem dequeue s v q runs)
            (Post-weaken ⊥ (Leaves threads (success, some v) q) Turns _
              (announce_lem threads (λ q. q.full_condition) (some v) (record s { object = q })
                (λ q h. h.full) (Keeps-HasHandles ready.handles keeps) held)
              λ r t leaves_it. left_value v q r t leaves left runs leaves_it))
  ]

  -- A reply, or -1 where a call fails.
  abbrev pub Replied : Reply → Reply → Type 0
  Replied reply r = (r ≡ reply) ⊎ (F × (r ≡ (failure, none)))

  -- The step of a caller that gives the value `v`, to the ring of `t`.
  abbrev pub Gives : Pointer → State (PoolWorld W) InternalQueue → Type 0
  Gives v t =
      Step (seen sys s) caller (record (seen sys s) { ring = t.object; given = v ∷ sys.given })

  -- A push of `v`: it is enqueued.
  abbrev pub Pushes : Pointer → Reply → State (PoolWorld W) InternalQueue → Type 0
  Pushes v r t = (enqueue v s.object ≡ some t.object) × Gives v t × Replied (success, none) r

  -- A sorted push of `v`: it is inserted, or there is an equal one, or the comparison fails.
  abbrev pub Inserting :
      Compare → Bool → Pointer → Reply → State (PoolWorld W) InternalQueue → Type 0
  Inserting compare unique v r t =
      ((insert_sorted compare unique v s.object ≡ some (inserted t.object))
        × Gives v t
        × Replied (success, none) r)
      ⊎ ((t.object ≡ s.object)
          × (((insert_sorted compare unique v s.object ≡ some duplicate)
                × Replied (not_done, none) r)
              ⊎ ((e : ErrorCode) × (insert_sorted compare unique v s.object ≡ some (rejected e))
                  × (r ≡ (failure, none)))))

  put-Steps :
      (v : Pointer)
      → v ≢ null
      → Ready s.object
      → Held s.world
      → is_full s.object ≡ false
      → Post ⊥ (Pushes v) (put p v s)
  unfolding put
  put-Steps v set ready held room =
      let (q, runs, valid, keeps, values) = enqueue_lem ready.valid (ground arith) v in
      Post-step ⊥ (Pushes v) (access (λ q. store (enqueue v q)) s) tt (record s { object = q }) _
        (access_lem (λ q. store (enqueue v q)) s tt q (ap store runs))
        (Post-weaken ⊥ (Leaves threads (success, none) q) (Pushes v) _
          (announce_lem threads (λ q. q.empty_condition) none (record s { object = q })
            (λ q h. h.empty) (Keeps-HasHandles ready.handles keeps) held)
          λ r t (same, free, reply).
            let runs' = runs ∙ ap some (sym same) in (runs', pushes set room runs', reply))

  put_sorted_by :
      (compare : Compare) (unique : Bool) (v : Pointer) (r : Placement)
      → v ≢ null
      → Ready s.object
      → Held s.world
      → is_full s.object ≡ false
      → Inserts s.object (insert_sorted compare unique v s.object) r
      → Post ⊥ (Inserting compare unique v) (put_sorted p compare unique v s)
  unfolding put_sorted
  put_sorted_by compare unique v (refused e) set ready held room runs =
      let f = inserting compare unique v in
      Post-step ⊥ (Inserting compare unique v) (access f s) (rejected e) s _
        (access_lem f s (rejected e) s.object (ap (Option.map (λ i. (i, after s.object i))) runs))
        (Post-weaken ⊥ _ (Inserting compare unique v) _
          (on_error_lem threads none (record s { errors = _ }) ready.handles held)
          λ reply t (minus_one, same, free). inr (same, inr (e, runs, minus_one)))
  put_sorted_by compare unique v present set ready held room runs =
      let f = inserting compare unique v in
      Post-step ⊥ (Inserting compare unique v) (access f s) duplicate s _
        (access_lem f s duplicate s.object (ap (Option.map (λ i. (i, after s.object i))) runs))
        (Post-weaken ⊥ (Leaves threads (not_done, none) s.object) (Inserting compare unique v) _
          (finish_lem threads (not_done, none) s ready.handles held)
          λ r t (same, free, reply). inr (same, inl (runs, reply)))
  put_sorted_by compare unique v (placed xs) set ready held room (q, runs, valid, keeps, values) =
      let f = inserting compare unique v in
      Post-step ⊥ (Inserting compare unique v) (access f s) (inserted q) (record s { object = q }) _
        (access_lem f s (inserted q) q (ap (Option.map (λ i. (i, after s.object i))) runs))
        (Post-weaken ⊥ (Leaves threads (success, none) q) (Inserting compare unique v) _
          (announce_lem threads (λ q. q.empty_condition) none (record s { object = q })
            (λ q h. h.empty) (Keeps-HasHandles ready.handles keeps) held)
          λ r t (same, free, reply).
            let runs' = runs ∙ ap (λ q. some (inserted q)) (sym same) in
            inl (runs', inserts compare unique set room runs', reply))

  -- What push does between the end of its loop and its return, on a pool that exists, with the mutex
  -- held and a value that is not NULL: it enqueues this value, which is the step of a caller that
  -- gives it, and the reply is 1, or -1 where a call fails. What push_sorted does there: it inserts
  -- this value, which is such a step, with the same replies; or it leaves the ring as it is, and the
  -- reply is 0, or -1 where a call fails, on an equal value among unique ones, and -1 where the
  -- comparison fails.
  pub pushing-Steps :
      (compare : Compare) (unique : Bool) (v : Pointer)
      → v ≢ null
      → Ready s.object
      → Held s.world
      → is_full s.object ≡ false
      → Post ⊥ (Pushes v) (put p v s)
        × Post ⊥ (Inserting compare unique v) (put_sorted p compare unique v s)
  pushing-Steps compare unique v set ready held room = (
    put-Steps v set ready held room,
    put_sorted_by compare unique v (place compare unique v (contents s.object)) set ready held room
        (insert_sorted_lem ready.valid (ground arith) compare unique v),
  )
