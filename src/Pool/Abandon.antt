-- ===== src/Pool/Abandon.antt =====
-- The on_error label of libcthreads_thread_pool_create, and what it relies on.
use libcthreads.Common.{
  ℕ, zero, suc, ◌+◌, ◌<◌, ◌≤◌, ◌≡◌, ◌≢◌, inl, inr, ap, ◌∙◌, false, Option, some, List, [], ◌∷◌, ℤ,
  ◌==◌, arith, Bool-cases, length, get_or, set, get_elem?-eq-get_or,
}
use libcthreads.Machine.{Pointer, null, Report, Platform, State, ◌>>◌, success, failure}
use libcthreads.Machine.Exec.{done}
use libcthreads.Machine.Post.{Post, Post-bind, Post-step, Post-weaken}
use libcthreads.Mutex
use libcthreads.Mutex.Laws as MutexLaws
use libcthreads.Condition
use libcthreads.Condition.Laws as ConditionLaws
use libcthreads.Handle.Members.{discard_handle, release_memory, discard_handle_lem}
use libcthreads.Joining.{stored_value, free_value, value_freed, free_value_lem}
use libcthreads.Queue.{InternalQueue}
use libcthreads.Queue.Valid.{contents}
use libcthreads.Queue.Lifetime.{cleared_array}
use libcthreads.Queue.Steps.{Ready}
use libcthreads.Pool.{PoolWorld, element_of, found, read_thread}
use libcthreads.Pool.Joins.{HasThreads}
use libcthreads.Pool.Create.{abandon_threads, abandon_rest, abandon}

-- memset returns the address that it is given; pthread_create leaves the pool's other members as they
-- are, and joining a thread and freeing its value leave the array of threads.
pub record Starts {W : Type 0} (p : Platform (PoolWorld W) InternalQueue) : Type 0 where
  pub set_returns : (a n : ℕ) (w : PoolWorld W) → (p.memory_set a n w).0 ≡ a
  pub create_members :
      (attributes a : Pointer) (w : PoolWorld W)
      → (p.pthread_create attributes a w).1.members ≡ w.members
  pub join_array :
      (id : ℕ) (w : PoolWorld W) (q : InternalQueue)
      → let ((code, value), w', q') = p.pthread_join id w q in
        (value_freed p (stored_value code value) w').members.threads_array ≡ w.members.threads_array

module _ {W : Type 0} (p : Platform (PoolWorld W) InternalQueue) (starts : Starts p) (k n : ℕ)
    (attributes : Pointer) where
  -- The first `i` elements of an array of `k` are the threads that pthread_create has started, in
  -- order, each by an answer of 0, with the attributes and with `a` as the argument of the start
  -- function.
  pub data Started (a : Pointer) : ℕ → List ℕ → PoolWorld W → Type 0 where
    not_begun : {w : PoolWorld W} → Started a 0 (cleared_array k) w
    one_more :
        {i id : ℕ} {ids : List ℕ} {w w' : PoolWorld W}
        → Started a i ids w
        → p.pthread_create attributes a w ≡ ((0, id), w')
        → Started a
            (i + 1)
            (set ids i id)
            (record w' { members = record w'.members { threads_array = some (set ids i id) } })

  -- What a call of create leaves with `*thread_pool` NULL: a pool with an empty ring of room for `n`
  -- values and an array of `k` threads that were started; or NULL.
  pub data PoolCreated : ℤ × Option Pointer → State (PoolWorld W) InternalQueue → Type 0 where
    created :
        {a : Pointer} {t : State (PoolWorld W) InternalQueue} {ids : List ℕ}
        → a ≢ null
        → Ready t.object
        → contents t.object ≡ []
        → t.object.allocated_number_of_values ≡ n
        → length ids ≡ k
        → HasThreads ids t.world.members
        → Started a k ids t.world
        → PoolCreated (success, some a) t
    not_created : {t : State (PoolWorld W) InternalQueue} → PoolCreated (failure, some null) t

  read_thread_lem :
      (i : ℕ) (ids : List ℕ) (s : State (PoolWorld W) InternalQueue)
      → s.world.members.threads_array ≡ some ids
      → i < length ids
      → read_thread i s ≡ done (get_or ids i 0, s)
  unfolding read_thread
  read_thread_lem i ids s array room =
      ap (found s) (ap (λ a. element_of a i) array ∙ get_elem?-eq-get_or ids i 0 room)

  abandon_threads_lem :
      (i : ℕ) (ids : List ℕ) (s : State (PoolWorld W) InternalQueue)
      → s.world.members.threads_array ≡ some ids
      → i ≤ length ids
      → Post ⊥ (λ x u. Unit {0}) (abandon_threads p i s)
  unfolding abandon_threads
  abandon_threads_lem zero ids s array room = tt
  abandon_threads_lem (suc i) ids s array room =
      let id = get_or ids i 0 in
      let answer = p.pthread_join id s.world s.object in
      let stored = stored_value answer.0.0 answer.0.1 in
      let s1 : State (PoolWorld W) InternalQueue = record s {
        world = answer.1;
        object = answer.2;
      } in
      Post-step ⊥ (λ x u. Unit {0}) (read_thread i s) id s _
        (read_thread_lem i ids s array (omega (arith, room)))
        (Post-bind ⊥ _ (λ x u. Unit {0}) (free_value p stored s1) _ (free_value_lem p stored s1)
          λ x u (world, object).
            abandon_threads_lem i ids u
              (ap (λ (w : PoolWorld W). w.members.threads_array) world
                ∙ starts.join_array id s.world s.object
                ∙ array)
              (omega (arith, room)))

  -- Freeing a condition, or the mutex, ends without a fault.
  discard_condition :
      (h : Pointer) (s : State (PoolWorld W) InternalQueue)
      → Post ⊥ (λ r u. Unit {0}) (discard_handle p (Condition.free p) h s)
  discard_condition h s = discard_handle_lem p (Condition.free p) h s λ t set.
      Post-weaken ⊥ _ (λ r u. Unit {0}) _ (ConditionLaws.condition_free-Freed p h t set)
        (λ r u x. tt)

  discard_mutex :
      (h : Pointer) (s : State (PoolWorld W) InternalQueue)
      → Post ⊥ (λ r u. Unit {0}) (discard_handle p (Mutex.free p) h s)
  discard_mutex h s = discard_handle_lem p (Mutex.free p) h s λ t set.
      Post-weaken ⊥ _ (λ r u. Unit {0}) _ (MutexLaws.mutex_free-Freed p h t set) (λ r u x. tt)

  rest-PoolCreated :
      (a values : Pointer) (s : State (PoolWorld W) InternalQueue)
      → Post ⊥ PoolCreated (abandon_rest p a values s)
  unfolding abandon_rest release_memory
  rest-PoolCreated a values s =
      Post-bind ⊥ (λ r u. Unit {0}) PoolCreated
        (discard_handle p (Condition.free p) s.object.full_condition s) _
        (discard_condition s.object.full_condition s)
        λ r t x.
          Post-bind ⊥ (λ r u. Unit {0}) PoolCreated
            (discard_handle p (Condition.free p) s.object.empty_condition t) _
            (discard_condition s.object.empty_condition t)
            λ r' u x'.
              Post-bind ⊥ (λ r u. Unit {0}) PoolCreated
                (discard_handle p (Mutex.free p) s.object.condition_mutex u) _
                (discard_mutex s.object.condition_mutex u)
                λ r'' v x''. elim (Bool-cases (values == null)) [
                  | inl y ↦ rw y not_created
                  | inr n ↦ rw n not_created
                ]

  -- `on_error` ends without a fault before the array of threads is there.
  pub early-PoolCreated :
      (a values : Pointer) (e : Report) (s : State (PoolWorld W) InternalQueue)
      → Post ⊥ PoolCreated (abandon p a null values 0 e s)
  unfolding abandon
  early-PoolCreated a values e s = rest-PoolCreated a values (record s { errors = e ∷ s.errors })

  -- And after that, at a thread of the array.
  pub late-PoolCreated :
      (a threads values : Pointer) (i : ℕ) (e : Report) (ids : List ℕ)
      (s : State (PoolWorld W) InternalQueue)
      → threads ≢ null
      → s.world.members.threads_array ≡ some ids
      → i < length ids
      → Post ⊥ PoolCreated (abandon p a threads values i e s)
  unfolding abandon release_memory
  late-PoolCreated a threads values i e ids s set array room =
      let f : (threads == null) ≡ false = ground arith in
      let s1 : State (PoolWorld W) InternalQueue = record s { errors = e ∷ s.errors } in
      rw f (
        Post-bind ⊥ (λ x u. Unit {0}) PoolCreated
          ((abandon_threads p (i + 1) >> release_memory p threads) s1) _
          (Post-bind ⊥ (λ x u. Unit {0}) (λ x u. Unit {0}) (abandon_threads p (i + 1) s1) _
            (abandon_threads_lem (i + 1) ids s1 array (omega (arith, room))) (λ x u y. tt))
          λ x u y. rest-PoolCreated a values u)
