-- ===== src/Pool/System.antt =====
-- The threads of one pool, the callers that push to it and the one that joins it, interleaved in any
-- order. What a thread does while it holds the mutex is one step, since no other thread is in the
-- pool then: the tests and the operations of the ring in it are those of libcthreads_thread_pool.c.
pub mod Held
pub mod Conserves
pub mod Drains
pub mod Ends
pub mod Finishes
pub mod Refines
use libcthreads.Common.{ℕ, zero, suc, ◌≡◌, ◌≢◌, Bool, true, false, some, List, [], ◌∷◌, ◌++◌}
use libcthreads.Machine.{Pointer, null}
use libcthreads.Queue.{InternalQueue}
use libcthreads.Queue.Ring.{Compare, enqueue, dequeue, insert_sorted, inserted}
use libcthreads.Queue.Calls.{is_empty, is_full}
use libcthreads.Pool.{Members, PoolWorld, status_exit}
use libcthreads.Pool.Calls.{lacks_work}
use libcthreads.Pool.Lifetime.{put_status}

-- Where a thread of the pool is in the loop of its start function: in pop, in the callback function
-- with a value, behind a pop that gave nothing, or behind the loop, which the exit status or a pop
-- that failed has ended.
pub data Place : Type 0 where
  popping : Place
  calling : Pointer → Place
  idling exited failed : Place

pub record System : Type 0 where
  pub members : Members
  pub ring : InternalQueue
  pub threads : List Place
  -- the values that were put into the ring, those that a callback function has had, and those taken
  -- off the ring by a pop that failed
  pub given : List Pointer
  pub answered : List Pointer
  pub dropped : List Pointer

-- The tests of the functions, which read the members and the ring.
abbrev pub waits_for_work : System → Bool
waits_for_work s = lacks_work (record { system = tt {0}; members = s.members }) s.ring

-- The pool with one thread at another place.
abbrev pub at : System → List Place → System
at s threads = record s { threads = threads }

-- A thread of the pool moves from one place to another.
pub data Turn (s : System) : Place → System → Place → Type 0 where
  -- pop: the loop has ended with a value in the ring
  takes :
      {q : InternalQueue} {v : Pointer}
      → waits_for_work s ≡ false
      → is_empty s.ring ≡ false
      → dequeue s.ring ≡ some (v, q)
      → Turn s popping (record s { ring = q }) (calling v)
  -- pop: the same, and the broadcast or the release fails
  drops :
      {q : InternalQueue} {v : Pointer}
      → waits_for_work s ≡ false
      → is_empty s.ring ≡ false
      → dequeue s.ring ≡ some (v, q)
      → Turn s popping (record s { ring = q; dropped = v ∷ s.dropped }) failed
  -- pop: the loop has ended with no value
  misses : waits_for_work s ≡ false → is_empty s.ring ≡ true → Turn s popping s idling
  -- pop: the grab, a wait or the release of a pop without a value fails
  fails : Turn s popping s failed
  -- the callback function returns
  answers : {v : Pointer} → Turn s (calling v) (record s { answered = v ∷ s.answered }) popping
  -- the test that follows a pop without a value
  exits : s.members.status ≡ status_exit → Turn s idling s exited
  resumes : s.members.status ≢ status_exit → Turn s idling s popping

-- Who makes a step.
pub data Actor : Type 0 where
  thread caller joiner : Actor

pub data Step (s : System) : Actor → System → Type 0 where
  turns :
      (before after : List Place) {p p' : Place} {t : System}
      → s.threads ≡ before ++ p ∷ after
      → Turn s p t p'
      → Step s thread (at t (before ++ p' ∷ after))
  -- push: the loop has ended with room in the ring
  pushes :
      {v : Pointer} {q : InternalQueue}
      → v ≢ null
      → is_full s.ring ≡ false
      → enqueue v s.ring ≡ some q
      → Step s caller (record s { ring = q; given = v ∷ s.given })
  -- push_sorted: the same
  inserts :
      {v : Pointer} {q : InternalQueue} (compare : Compare) (unique : Bool)
      → v ≢ null
      → is_full s.ring ≡ false
      → insert_sorted compare unique v s.ring ≡ some (inserted q)
      → Step s caller (record s { ring = q; given = v ∷ s.given })
  -- join: the exit status
  tells : Step s joiner (record s { members = put_status status_exit s.members })

abbrev pub all_popping : ℕ → List Place
all_popping zero = []
all_popping (suc n) = popping ∷ all_popping n

-- A pool as libcthreads_thread_pool_create leaves it, with `n` threads.
abbrev pub start : Members → InternalQueue → ℕ → System
start m q n = record {
  members = m;
  ring = q;
  threads = all_popping n;
  given = [];
  answered = [];
  dropped = [];
}

pub data Reach (m : Members) (q : InternalQueue) (n : ℕ) : System → Type 0 where
  begun : Reach m q n (start m q n)
  later : {s t : System} {a : Actor} → Reach m q n s → Step s a t → Reach m q n t

-- A run in which only the threads of the pool take part, with its number of steps.
pub data Runs : ℕ → System → System → Type 0 where
  here : {s : System} → Runs zero s s
  further : {k : ℕ} {s t u : System} → Runs k s t → Step t thread u → Runs (suc k) s u
