-- ===== src/Handle/Members.antt =====
-- The handles that are members of a structure: how the structures' create and free functions make
-- and free them (libcthreads/libcthreads_queue.c, libcthreads_thread_pool.c and
-- libcthreads_repeating_thread.c).
use libcthreads.Common.{
  ℕ, ◌≡◌, ◌≢◌, inl, inr, refl, ap, ap₂, ◌∙◌, Bool, true, false, Option, none, some, ℤ, ◌==ℤ◌, ◌==◌,
  if◌then◌else◌, arith, Bool-cases,
}
use libcthreads.Machine.{
  Pointer, null, Platform, State, M, ◌>>=◌, ◌>>◌, return, success, failure, fail, with_null_error,
  call, access, get_object,
}
use libcthreads.Machine.ErrorCode.{runtime_finalize_failed}
use libcthreads.Machine.Report.{error_set}
use libcthreads.Machine.Post.{Post, Post-bind, Post-null}
use libcthreads.Machine.Answer.{Answered, Made, made, unmade}

-- What a location holds.
abbrev pub address_in : Option Pointer → Pointer
address_in none = null
address_in (some a) = a

-- The result of a step: the one so far, or -1.
abbrev pub result_of : Bool → ℤ → ℤ
result_of ok result = if ok then result else failure

module _ {W Obj : Type 0} (p : Platform W Obj) where
  open p use {memory_free}

  unfoldable pub release_memory : Pointer → M W Obj (Unit {0})
  release_memory address = call (λ w. (tt, memory_free address w))

  -- Frees a handle unless it is NULL; what comes of it is not looked at.
  unfoldable pub discard_handle :
      (Option Pointer → M W Obj (ℤ × Option Pointer)) → Pointer → M W Obj (Unit {0})
  discard_handle free_handle handle =
      if handle == null
      then return tt
      else do with_null_error (free_handle (some handle)); return tt

  -- Creates a handle in its member of the structure, then goes on with `next`.
  unfoldable pub create_handle :
      (Option Pointer → M W Obj (ℤ × Option Pointer))
      → (Pointer → Obj → Obj)
      → M W Obj (ℤ × Option Pointer)
      → M W Obj (ℤ × Option Pointer)
      → M W Obj (ℤ × Option Pointer)
  create_handle create member failed next = do
    created ← create (some null)
    access (λ q. some (tt, member (address_in created.1) q))
    (if created.0 ==ℤ success then next else failed)

  -- Frees a handle of the structure, and goes on to -1 where that fails.
  unfoldable pub free_handle :
      (Option Pointer → M W Obj (ℤ × Option Pointer))
      → (Obj → Pointer)
      → (Pointer → Obj → Obj)
      → ℤ
      → M W Obj ℤ
  free_handle free_one handle member result = do
    q ← get_object
    freed ← free_one (some (handle q))
    access (λ q. some (tt, member (address_in freed.1) q))
    (if freed.0 ==ℤ success then return result else fail (error_set runtime_finalize_failed))

  -- A structure destroyed, then its memory freed: whether the first went well, and the world.
  abbrev pub removed : (Pointer → W → ℕ × W) → Pointer → W → Bool × W
  removed destroy h w = let (code, w') = destroy h w in (code == 0, p.memory_free h w')

  -- The structure's member is freed and set to NULL.
  abbrev pub HandleFreed :
      (Pointer → W → ℕ × W)
      → Pointer
      → (Pointer → Obj → Obj)
      → ℤ
      → State W Obj
      → ℤ
      → State W Obj
      → Type 0
  HandleFreed destroy h member result s r t =
      let (ok, w) = removed destroy h s.world in
      (t.object ≡ member null s.object) × (t.world ≡ w) × (r ≡ result_of ok result)

  pub free_handle_lem :
      (destroy : Pointer → W → ℕ × W) (free_one : Option Pointer → M W Obj (ℤ × Option Pointer))
      (handle : Obj → Pointer) (member : Pointer → Obj → Obj) (result : ℤ) (s : State W Obj)
      → (let (code, w) = destroy (handle s.object) s.world in
          Post ⊥
            (λ r t.
              (r.1 ≡ some null)
              × Answered code (p.memory_free (handle s.object) w) s.object s r.0 t)
            (free_one (some (handle s.object)) s))
      → Post ⊥
          (HandleFreed destroy (handle s.object) member result s)
          (free_handle free_one handle member result s)
  unfolding free_handle
  free_handle_lem destroy free_one handle member result s frees =
      Post-bind ⊥ _ (HandleFreed destroy (handle s.object) member result s)
        (free_one (some (handle s.object)) s) _ frees
        λ r t h. elim (h.1.result) [
          | inl (z, good, same) ↦
              let yes : ((destroy (handle s.object) s.world).0 == 0) ≡ true = ground arith in
              rw good (ap₂ (λ a o. member (address_in a) o) h.0 h.1.object, h.1.world, rw yes refl)
          | inr (nz, bad, e) ↦
              let no : ((destroy (handle s.object) s.world).0 == 0) ≡ false = ground arith in
              rw bad (ap₂ (λ a o. member (address_in a) o) h.0 h.1.object, h.1.world, rw no refl)
        ]

  -- The world and the result after one handle is freed.
  pub after_handle :
      (destroy : Pointer → W → ℕ × W) (h h' : Pointer) (w w' : W) (result t_result : ℤ) (t : W)
      → h ≡ h'
      → w ≡ w'
      → t ≡ (removed destroy h w).1
      → t_result ≡ result_of (removed destroy h w).0 result
      → (t ≡ (removed destroy h' w').1) × (t_result ≡ result_of (removed destroy h' w').0 result)
  after_handle destroy h h' w w' result t_result t same_handle same_world world answer = (
    world ∙ ap₂ (λ a x. (removed destroy a x).1) same_handle same_world,
    answer ∙ ap₂ (λ a x. result_of (removed destroy a x).0 result) same_handle same_world,
  )

  -- Freeing a handle ends without a fault.
  pub discard_handle_lem :
      (free_one : Option Pointer → M W Obj (ℤ × Option Pointer)) (h : Pointer) (s : State W Obj)
      → ((t : State W Obj) → h ≢ null → Post ⊥ (λ r u. Unit {0}) (free_one (some h) t))
      → Post ⊥ (λ r u. Unit {0}) (discard_handle free_one h s)
  unfolding discard_handle
  discard_handle_lem free_one h s frees = elim (Bool-cases (h == null)) [
    | inl y ↦ rw y tt
    | inr n ↦ rw n (
        Post-bind ⊥ (λ r u. Unit {0}) (λ r u. Unit {0}) (with_null_error (free_one (some h)) s) _
          (Post-null ⊥ (λ r u. Unit {0}) (λ r u. Unit {0}) (free_one (some h)) s
            (frees s (ground arith)) (λ r u x. tt))
          (λ r u x. tt))
  ]

  -- A handle is created in its member, or `failed` goes on.
  pub create_handle_lem :
      (Q : ℤ × Option Pointer → State W Obj → Type 0)
      (make : Option Pointer → M W Obj (ℤ × Option Pointer)) (member : Pointer → Obj → Obj)
      (failed next : M W Obj (ℤ × Option Pointer)) (s : State W Obj)
      → Post ⊥ (Made s) (make (some null) s)
      → ((t : State W Obj) → Post ⊥ Q (failed t))
      → ((h : Pointer) (t : State W Obj)
          → h ≢ null
          → t.object ≡ member h s.object
          → Post ⊥ Q (next t))
      → Post ⊥ Q (create_handle make member failed next s)
  unfolding create_handle
  create_handle_lem Q make member failed next s makes fails continues =
      Post-bind ⊥ (Made s) Q (make (some null) s) _ makes λ r t h. after_make r t h
    where
      after_make :
          (r : ℤ × Option Pointer) (t : State W Obj)
          → Made s r t
          → Post ⊥ Q (
              (access (λ q. some (tt, member (address_in r.1) q))
                  >> (if r.0 ==ℤ success then next else failed))
                t)
      after_make r t (made {a = h} set same) = continues h _ set (ap (member h) same)
      after_make r t (unmade same) = fails _
