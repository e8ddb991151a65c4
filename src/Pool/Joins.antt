-- ===== src/Pool/Joins.antt =====
-- The end of libcthreads_thread_pool_join: its loop over the threads, and what it frees.
use libcthreads.Common.{
  ℕ, ◌≡◌, ◌≢◌, refl, sym, ap, ap₂, subst, subst₂, ◌∙◌, Bool, true, false, ◌&&◌, Option, some, List,
  [], ◌∷◌, ◌++◌, ℤ, ◌==◌, arith, length, append_assoc, length-append, get_elem?, Bool-cases, inl,
  inr,
}
use libcthreads.Handle.Members.{release_memory, result_of}
use libcthreads.Machine.{Pointer, null, Platform, State}
use libcthreads.Machine.Post.{Post, Post-step, Post-bind, Post-weaken}
use libcthreads.Joining.{
  join_result, free_value, stored_value, value_freed, went_well, joined, join_result_lem,
  free_value_lem,
}
use libcthreads.Queue.{InternalQueue}
use libcthreads.Queue.Steps.{HasHandles}
use libcthreads.Queue.Lifetime.{free_handles}
use libcthreads.Queue.Teardown.{all_removed, HandlesFreed, free_handles_lem}
use libcthreads.Machine.Exec.{done}
use libcthreads.Pool.{PoolWorld, Members, element_of, found, read_thread}
use libcthreads.Pool.Lifetime.{error_code_of, join_threads, dismantle}

-- The threads of the pool are these.
abbrev pub HasThreads : List ℕ → Members → Type 0
HasThreads ids m = (m.threads_array ≡ some ids) × (m.number_of_threads ≡ length ids)

get_elem?-after :
    (before ids : List ℕ) (id : ℕ) → get_elem? (before ++ id ∷ ids) (length before) ≡ some id
get_elem?-after [] ids id = refl
get_elem?-after (b ∷ before) ids id = get_elem?-after before ids id

joined-result_of :
    (code : ℕ) (value : Option (Pointer × ℤ)) (result : ℤ)
    → joined code value result
      ≡ result_of ((code == 0) && went_well (stored_value code value)) result
joined-result_of code value result = elim (Bool-cases (code == 0)) [
  | inl y ↦ rw y refl
  | inr n ↦ rw n refl
]

result_of_rest :
    (a b : Bool) (result : ℤ) → result_of b (result_of a result) ≡ result_of (a && b) result
result_of_rest true b result = refl
result_of_rest false b result = ground arith

module _ {W : Type 0} (p : Platform (PoolWorld W) InternalQueue) where
  -- The threads joined one after the other, and the value of each freed: whether all went well, the
  -- world and the object.
  pub joins : List ℕ → PoolWorld W → InternalQueue → Bool × PoolWorld W × InternalQueue
  joins [] w q = (true, w, q)
  joins (id ∷ ids) w q =
      let ((code, value), w', q') = p.pthread_join id w q in
      let stored = stored_value code value in
      let (ok, w'', q'') = joins ids (value_freed p stored w') q' in
      (((code == 0) && went_well stored) && ok, w'', q'')

  -- Joining a thread and freeing its value leave the pool's threads and its handles as they are.
  abbrev pub Stays : List ℕ → Type 0
  Stays ids =
      (id : ℕ) (w : PoolWorld W) (q : InternalQueue)
      → w.members.threads_array ≡ some ids
      → HasHandles q
      → let ((code, value), w', q') = p.pthread_join id w q in
        ((value_freed p (stored_value code value) w').members.threads_array ≡ some ids)
        × HasHandles q'

  abbrev AllJoined :
      List ℕ
      → ℤ
      → State (PoolWorld W) InternalQueue
      → ℤ
      → State (PoolWorld W) InternalQueue
      → Type 0
  AllJoined ids result s r t =
      let (ok, w, q) = joins ids s.world s.object in
      (r ≡ result_of ok result) × (t.world ≡ w) × (t.object ≡ q) × HasHandles q

  read_thread-append :
      (before ids : List ℕ) (id index : ℕ) (s : State (PoolWorld W) InternalQueue)
      → index ≡ length before
      → s.world.members.threads_array ≡ some (before ++ id ∷ ids)
      → read_thread index s ≡ done (id, s)
  unfolding read_thread
  read_thread-append before ids id index s at array =
      ap (found s) (ap₂ element_of array at ∙ get_elem?-after before ids id)

  join_threads_lem :
      (before ids : List ℕ) (index : ℕ) (result : ℤ) (s : State (PoolWorld W) InternalQueue)
      → p.edeadlk ≢ 0
      → Stays (before ++ ids)
      → index ≡ length before
      → s.world.members.threads_array ≡ some (before ++ ids)
      → HasHandles s.object
      → Post ⊥ (AllJoined ids result s) (join_threads p (length ids) index result s)
  unfolding join_threads joins
  join_threads_lem before [] index result s deadlock stays at array handles =
      (refl, refl, refl, handles)
  join_threads_lem before (id ∷ ids) index result s deadlock stays at array handles =
      let answer = p.pthread_join id s.world s.object in
      let code = answer.0.0 in
      let value = answer.0.1 in
      let stored = stored_value code value in
      let s1 : State (PoolWorld W) InternalQueue = record s {
        world = answer.1;
        object = answer.2;
      } in
      let (array', handles') = stays id s.world s.object array handles in
      Post-step ⊥ (AllJoined (id ∷ ids) result s) (read_thread index s) id s _
        (read_thread-append before ids id index s at array)
        (Post-bind ⊥ _ (AllJoined (id ∷ ids) result s)
          (join_result p (error_code_of result) code value result s1) _
          (join_result_lem p (error_code_of result) code value result s1 deadlock)
          λ r t (same, world, object).
            Post-bind ⊥ _ (AllJoined (id ∷ ids) result s) (free_value p stored t) _
              (free_value_lem p stored t)
              λ x u (world', object').
                let w_same : u.world ≡ value_freed p stored answer.1 =
                  world' ∙ ap (value_freed p stored) world in
                let q_same : u.object ≡ answer.2 = object' ∙ object in
                let assoc = append_assoc before (id ∷ []) ids in
                Post-weaken ⊥ (AllJoined ids r u) (AllJoined (id ∷ ids) result s) _
                  (join_threads_lem (before ++ id ∷ []) ids _ r u deadlock
                    (subst Stays (sym assoc) stays)
                    (omega (arith, length-append before (id ∷ []), at))
                    (ap (λ (w : PoolWorld W). w.members.threads_array) w_same
                      ∙ array'
                      ∙ ap some (sym assoc))
                    (subst HasHandles (sym q_same) handles'))
                  λ r' y (last, last_world, last_object, last_handles). (
                    last
                        ∙ ap₂ (λ w q. result_of (joins ids w q).0 r) w_same q_same
                        ∙ ap (result_of _) (same ∙ joined-result_of code value result)
                        ∙ result_of_rest ((code == 0) && went_well stored) _ result,
                    last_world ∙ ap₂ (λ w q. (joins ids w q).1) w_same q_same,
                    last_object ∙ ap₂ (λ w q. (joins ids w q).2) w_same q_same,
                    subst₂ (λ w q. HasHandles (joins ids w q).2) w_same q_same last_handles,
                  ))

  -- What follows the release in join: the threads are joined, then the conditions and the mutex are
  -- destroyed and freed, and the two arrays and the structure freed.
  abbrev pub Dismantled :
      List ℕ
      → Pointer
      → Pointer
      → Pointer
      → ℤ
      → State (PoolWorld W) InternalQueue
      → ℤ × Option Pointer
      → State (PoolWorld W) InternalQueue
      → Type 0
  Dismantled ids threads_array values_array thread_pool drained s r t =
      let (joined_ok, w, q) = joins ids s.world s.object in
      let (freed_ok, w') = all_removed p q w in
      (t.world
        ≡ p.memory_free thread_pool (p.memory_free values_array (p.memory_free threads_array w')))
      × (r ≡ (result_of (joined_ok && freed_ok) drained, some null))

  pub dismantle_lem :
      (ids : List ℕ) (threads_array values_array thread_pool : Pointer) (drained : ℤ)
      (s : State (PoolWorld W) InternalQueue)
      → p.edeadlk ≢ 0
      → Stays ids
      → HasThreads ids s.world.members
      → HasHandles s.object
      → Post ⊥
          (Dismantled ids threads_array values_array thread_pool drained s)
          (dismantle p threads_array values_array thread_pool drained s)
  unfolding dismantle release_memory
  dismantle_lem ids threads_array values_array thread_pool drained s deadlock stays (array, number)
        handles =
      let Q = Dismantled ids threads_array values_array thread_pool drained s in
      Post-bind ⊥ (AllJoined ids drained s) Q
        (join_threads p s.world.members.number_of_threads 0 drained s) _
        (subst (λ n. Post ⊥ (AllJoined ids drained s) (join_threads p n 0 drained s)) (sym number)
          (join_threads_lem [] ids 0 drained s deadlock stays refl array handles))
        λ r t (same, world, object, handles').
          Post-bind ⊥ (HandlesFreed p r t) Q (free_handles p r t) _
            (free_handles_lem p r t (subst HasHandles (sym object) handles'))
            λ r' u (world', result). (
              ap
                  (λ w.
                    p.memory_free thread_pool
                      (p.memory_free values_array (p.memory_free threads_array w)))
                  (world' ∙ ap₂ (λ o w. (all_removed p o w).1) object world),
              ap (λ (x : ℤ). (x, some null))
                  (result
                    ∙ ap₂ (λ o w. result_of (all_removed p o w).0 r) object world
                    ∙ ap (result_of _) same
                    ∙ result_of_rest (joins ids s.world s.object).0 _ drained),
            )
