-- ===== src/Queue/Teardown.antt =====
-- The handles of a queue, freed one after the other.
use libcthreads.Common.{◌≡◌, refl, ap, ◌∙◌, Bool, true, false, ◌&&◌, ℤ, arith}
use libcthreads.Handle.Members.{
  HandleFreed, after_handle, free_handle, free_handle_lem, removed, result_of,
}
use libcthreads.Machine.{Platform, State}
use libcthreads.Machine.Post.{Post, Post-bind, Post-weaken}
use libcthreads.Mutex
use libcthreads.Mutex.Laws as MutexLaws
use libcthreads.Condition
use libcthreads.Condition.Laws as ConditionLaws
use libcthreads.Queue.{InternalQueue}
use libcthreads.Queue.Steps.{HasHandles}
use libcthreads.Queue.Lifetime.{
  free_handles, put_condition_mutex, put_empty_condition, put_full_condition,
}

result_of_three :
    (a b c : Bool) (result : ℤ)
    → result_of c (result_of b (result_of a result)) ≡ result_of (a && b && c) result
result_of_three true true c result = refl
result_of_three true false c result = ground arith
result_of_three false b c result = ground arith

module _ {W : Type 0} (p : Platform W InternalQueue) where
  -- The conditions and the mutex of a queue destroyed and freed: whether that went well, the world.
  abbrev pub all_removed : InternalQueue → W → Bool × W
  all_removed q w =
      let (full_ok, w') = removed p p.pthread_cond_destroy q.full_condition w in
      let (empty_ok, w'') = removed p p.pthread_cond_destroy q.empty_condition w' in
      let (mutex_ok, w''') = removed p p.pthread_mutex_destroy q.condition_mutex w'' in
      (full_ok && empty_ok && mutex_ok, w''')

  -- A call that has freed both conditions and the mutex.
  abbrev pub HandlesFreed : ℤ → State W InternalQueue → ℤ → State W InternalQueue → Type 0
  HandlesFreed result s r t =
      let (ok, w) = all_removed s.object s.world in (t.world ≡ w) × (r ≡ result_of ok result)

  pub free_handles_lem :
      (r : ℤ) (t : State W InternalQueue)
      → HasHandles t.object
      → Post ⊥ (HandlesFreed r t) (free_handles p r t)
  unfolding free_handles
  free_handles_lem r t handles =
      let destroy = p.pthread_cond_destroy in
      Post-bind ⊥ (HandleFreed p destroy t.object.full_condition put_full_condition r t)
        (HandlesFreed r t)
        (free_handle p (Condition.free p) (λ q. q.full_condition) put_full_condition r t) _
        (free_handle_lem p destroy (Condition.free p) (λ q. q.full_condition) put_full_condition r t
          (ConditionLaws.condition_free-Freed p t.object.full_condition t handles.full))
        λ r2 t2 (same2, world2, result2).
          let empty_same : t2.object.empty_condition ≡ t.object.empty_condition =
            ap (λ (o : InternalQueue). o.empty_condition) same2 in
          Post-bind ⊥ (HandleFreed p destroy t2.object.empty_condition put_empty_condition r2 t2)
            (HandlesFreed r t)
            (free_handle p (Condition.free p) (λ q. q.empty_condition) put_empty_condition r2 t2) _
            (free_handle_lem p destroy (Condition.free p) (λ q. q.empty_condition)
              put_empty_condition r2 t2
              (ConditionLaws.condition_free-Freed p t2.object.empty_condition t2
                (rw empty_same handles.empty)))
            λ r3 t3 (same3, world3, result3).
              let mutex_same : t3.object.condition_mutex ≡ t.object.condition_mutex =
                ap (λ (o : InternalQueue). o.condition_mutex) same3
                ∙ ap (λ (o : InternalQueue). o.condition_mutex) same2 in
              Post-weaken ⊥
                (HandleFreed p p.pthread_mutex_destroy t3.object.condition_mutex put_condition_mutex
                  r3 t3)
                (HandlesFreed r t)
                (free_handle p (Mutex.free p) (λ q. q.condition_mutex) put_condition_mutex r3 t3)
                (free_handle_lem p p.pthread_mutex_destroy (Mutex.free p) (λ q. q.condition_mutex)
                  put_condition_mutex r3 t3
                  (MutexLaws.mutex_free-Freed p t3.object.condition_mutex t3
                    (rw mutex_same handles.mutex)))
                λ r4 t4 (same4, world4, result4).
                  let (w3, a3) =
                    after_handle p destroy _ _ _ _ r2 r3 t3.world empty_same world2 world3
                      result3 in
                  let (w4, a4) =
                    after_handle p p.pthread_mutex_destroy _ _ _ _ r3 r4 t4.world mutex_same w3
                      world4 result4 in
                  (
                    w4,
                    a4
                        ∙ ap (result_of _) (a3 ∙ ap (result_of _) result2)
                        ∙ result_of_three (removed p destroy t.object.full_condition t.world).0
                            (removed p destroy t.object.empty_condition
                              (removed p destroy t.object.full_condition t.world).1).0
                            _ r,
                  )
