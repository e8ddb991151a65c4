-- ===== src/Queue/Disposal.antt =====
-- libcthreads_queue_free: all that it frees, in which order, and its result.
use libcthreads.Common.{
  ◌≡◌, ◌≢◌, refl, sym, ap, ap₂, subst, ◌∙◌, Bool, true, false, ◌&&◌, Option, some, List, [], ℤ,
  ◌==◌, arith, length,
}
use libcthreads.Handle.Members.{release_memory, result_of}
use libcthreads.Machine.{Pointer, null, Platform, State, call, success}
use libcthreads.Machine.Post.{Post, Post-bind}
use libcthreads.Queue.{InternalQueue}
use libcthreads.Queue.Steps.{HasHandles}
use libcthreads.Queue.Lifetime.{free_values, free_handles, free}
use libcthreads.Queue.Teardown.{all_removed, HandlesFreed, free_handles_lem}
use libcthreads.Queue.Freed.{Release, freed, AllFreed, free_values_lem}

result_of_and :
    (a b : Bool) (result : ℤ) → result_of b (result_of a result) ≡ result_of (a && b) result
result_of_and true b result = refl
result_of_and false b result = ground arith

module _ {W : Type 0} (p : Platform W InternalQueue) where
  -- The world after the values are freed, and whether that went well.
  abbrev pub emptied : Release W → Pointer → List Pointer → W → Bool × W
  emptied g values_array values w =
      let (ys, ok, w') = freed g values w in (ok, p.memory_free values_array w')

  -- What a call of free leaves: each slot of the array is freed, then the array, the conditions, the
  -- mutex and the structure are, whether or not one fails, which makes the result -1.
  abbrev pub Disposed :
      Release W
      → Pointer
      → List Pointer
      → Pointer
      → State W InternalQueue
      → ℤ × Option Pointer
      → State W InternalQueue
      → Type 0
  Disposed g values_array values queue s r t =
      let (values_ok, w) = emptied g values_array values s.world in
      let (handles_ok, w') = all_removed p s.object w in
      (t.world ≡ p.memory_free queue w')
      × (r ≡ (result_of (values_ok && handles_ok) success, some null))

  -- libcthreads_queue_free on a queue that exists: it ends without a fault, frees each slot of the
  -- array once, and then the array, both conditions, the mutex and the structure, each once and
  -- whether or not one before fails; it sets `*queue` to NULL. The result is 1 if nothing failed, else
  -- -1. A free function of values is one that ends and does not change the queue but in its slot.
  pub free-Disposed :
      (g : Release W) (values_array queue : Pointer) (values : List Pointer)
      (s : State W InternalQueue)
      → queue ≢ null
      → HasHandles s.object
      → s.object.values_array ≡ some values
      → length values ≡ s.object.allocated_number_of_values
      → Post ⊥
          (Disposed g values_array values queue s)
          (free p values_array (some (λ v. call (g v))) (some queue) s)
  unfolding free release_memory
  free-Disposed g values_array queue values s queue_set handles array counted =
      let f : (queue == null) ≡ false = ground arith in
      rw f (
        Post-bind ⊥ (AllFreed p g [] values success s) (Disposed g values_array values queue s)
          (free_values p (λ v. call (g v)) s.object.allocated_number_of_values 0 success s) _
          (subst
            (λ n.
              Post ⊥ (AllFreed p g [] values success s)
                (free_values p (λ v. call (g v)) n 0 success s))
            counted (free_values_lem p g values s array))
          λ r t (same, world, result).
            let t1 : State W InternalQueue = record t {
              world = p.memory_free values_array t.world;
            } in
            let handles' : HasHandles t.object =
              subst HasHandles (sym same)
                (record { mutex = handles.mutex; empty = handles.empty; full = handles.full }) in
            Post-bind ⊥ (HandlesFreed p r t1) (Disposed g values_array values queue s)
              (free_handles p r t1) _ (free_handles_lem p r t1 handles')
              λ r2 t2 (world2, result2).
                let torn =
                  λ (o : InternalQueue) (w : W). all_removed p o (p.memory_free values_array w) in
                (
                  ap (p.memory_free queue) (world2 ∙ ap₂ (λ o w. (torn o w).1) same world),
                  ap (λ (x : ℤ). (x, some null))
                      (result2
                        ∙ ap₂ (λ o w. result_of (torn o w).0 r) same world
                        ∙ ap (result_of _) result
                        ∙ result_of_and (emptied g values_array values s.world).0 _ success),
                ))
