-- ===== src/Handle/Laws.antt =====
-- What the functions that create and free a handle leave, and how a lock's answer is reported.
use libcthreads.Common.{
  ℕ, ◌≡◌, ◌≢◌, inl, inr, refl, ap, false, Option, some, ℤ, ◌∷◌, ◌==◌, arith, Bool-cases,
  if◌then◌else◌,
}
use libcthreads.Machine.{
  Pointer, null, Platform, M, State, Report, Structure, fail, success, failure, return,
}
use libcthreads.Machine.Post.{Post, Post-bind}
use libcthreads.Machine.Answer.{Made, made, unmade, Answered, Answered-success, Answered-failure}
use libcthreads.Handle.{
  discard, set_up, allocate, unset, make, destroyed, dispose, lock_result, on_handle,
}

module _ {W Obj : Type 0} (p : Platform W Obj) where
  discard-Made :
      (a : Pointer) (e : Report) (s t : State W Obj)
      → t.object ≡ s.object
      → Post ⊥ (Made s) (discard p a e t)
  unfolding discard
  discard-Made a e s t same = unmade same

  set_up-Made :
      (init : Pointer → W → ℕ × W) (a : Pointer) (s t : State W Obj)
      → a ≢ null
      → t.object ≡ s.object
      → Post ⊥ (Made s) (set_up p init a t)
  unfolding set_up
  set_up-Made init a s t set same =
      let code = (init a t.world).0 in
      elim (Bool-cases (code == 0)) [
        | inl z ↦ rw z (made set same)
        | inr nz ↦ rw nz (elim (Bool-cases (code == p.eagain)) [
          | inl y ↦ rw y (discard-Made a _ s (record t { world = _ }) same)
          | inr n ↦ rw n (discard-Made a _ s (record t { world = _ }) same)
        ])
      ]

  -- A structure is allocated and cleared, and `next` goes on, or -1 is returned and NULL is left.
  pub allocate_lem :
      (Q : ℤ × Option Pointer → State W Obj → Type 0) (structure : Structure)
      (next : Pointer → M W Obj (ℤ × Option Pointer)) (s : State W Obj)
      → ((t : State W Obj) → t.object ≡ s.object → Q (failure, some null) t)
      → ((a : Pointer) (t : State W Obj) → a ≢ null → t.object ≡ s.object → Post ⊥ Q (next a t))
      → Post ⊥ Q (allocate p structure next s)
  unfolding allocate discard
  allocate_lem Q structure next s fails goes_on =
      let allocated = p.memory_allocate (p.sizeof structure) s.world in
      let a = allocated.0 in
      elim (Bool-cases (a == null)) [
        | inl y ↦ rw y (fails _ refl)
        | inr n ↦
            let cleared = (p.memory_set a (p.sizeof structure) allocated.1).0 in
            rw n (elim (Bool-cases (cleared == null)) [
              | inl y ↦ rw y (fails _ refl)
              | inr n' ↦ rw n' (goes_on a (record s { world = _ }) (ground arith) refl)
            ])
      ]

  -- Creating with `*handle` NULL returns 1 and leaves a structure in `*handle`, or returns -1 and
  -- leaves NULL there; the shared object stays.
  pub make-Made :
      (structure : Structure) (init : Pointer → W → ℕ × W) (s : State W Obj)
      → Post ⊥ (Made s) (make p structure init (some null) s)
  unfolding make unset
  make-Made structure init s =
      allocate_lem (Made s) structure (set_up p init) s (λ t same. unmade same)
        λ a t set same. set_up-Made init a s t set same

  -- From the state `s`, what creating does with the answers of the allocation, of memset and of
  -- `init`, each asked where those before it went well; a structure that is given up is freed.
  pub data Initialized (structure : Structure) (init : Pointer → W → ℕ × W) (s : State W Obj)
      : ℤ × Option Pointer → State W Obj → Type 0 where
    initialized :
        {a : Pointer} {w w' : W} {n : ℕ}
        → p.memory_allocate (p.sizeof structure) s.world ≡ (a, w)
        → a ≢ null
        → p.memory_set a (p.sizeof structure) w ≡ (n, w')
        → n ≢ null
        → (init a w').0 ≡ 0
        → Initialized structure init s (success, some a) (record s { world = (init a w').1 })
    no_memory :
        {w : W} {e : Report}
        → p.memory_allocate (p.sizeof structure) s.world ≡ (null, w)
        → Initialized structure init s
            (failure, some null)
            (record s { world = w; errors = e ∷ s.errors })
    not_cleared :
        {a : Pointer} {w w' : W} {e : Report}
        → p.memory_allocate (p.sizeof structure) s.world ≡ (a, w)
        → a ≢ null
        → p.memory_set a (p.sizeof structure) w ≡ (null, w')
        → Initialized structure init s
            (failure, some null)
            (record s { world = p.memory_free a w'; errors = e ∷ s.errors })
    init_fails :
        {a : Pointer} {w w' : W} {n : ℕ} {e : Report}
        → p.memory_allocate (p.sizeof structure) s.world ≡ (a, w)
        → a ≢ null
        → p.memory_set a (p.sizeof structure) w ≡ (n, w')
        → n ≢ null
        → (init a w').0 ≢ 0
        → Initialized structure init s
            (failure, some null)
            (record s { world = p.memory_free a (init a w').1; errors = e ∷ s.errors })

  pub make-Initialized :
      (structure : Structure) (init : Pointer → W → ℕ × W) (s : State W Obj)
      → Post ⊥ (Initialized structure init s) (make p structure init (some null) s)
  unfolding make unset allocate set_up discard
  make-Initialized structure init s =
      let (a, w) = p.memory_allocate (p.sizeof structure) s.world in
      let (n, w') = p.memory_set a (p.sizeof structure) w in
      let code = (init a w').0 in
      elim (Bool-cases (a == null)) [
        | inl y ↦ rw y (no_memory (ap (λ x. (x, w)) (ground (arith, y))))
        | inr there ↦ rw there (elim (Bool-cases (n == null)) [
          | inl y ↦
              rw y
                (not_cleared refl (ground (arith, there)) (ap (λ x. (x, w')) (ground (arith, y))))
          | inr set ↦ rw set (elim (Bool-cases (code == 0)) [
            | inl z ↦ rw z (
                initialized refl (ground (arith, there)) refl (ground (arith, set))
                  (ground (arith, z)))
            | inr nz ↦ rw nz (elim (Bool-cases (code == p.eagain)) [
              | inl y ↦ rw y (
                  init_fails refl (ground (arith, there)) refl (ground (arith, set))
                    (ground (arith, nz)))
              | inr y ↦ rw y (
                  init_fails refl (ground (arith, there)) refl (ground (arith, set))
                    (ground (arith, nz)))
            ])
          ])
        ])
      ]

  destroyed-Answered :
      (code : ℕ) (s t : State W Obj)
      → t.errors ≡ s.errors
      → Post ⊥ (Answered code t.world t.object s) (destroyed p code t)
  unfolding destroyed
  destroyed-Answered code s t same = elim (Bool-cases (code == 0)) [
    | inl z ↦ rw z (Answered-success code s t z same)
    | inr nz ↦ rw nz (elim (Bool-cases (code == p.eagain)) [
      | inl y ↦ rw y (Answered-failure code s t _ nz same)
      | inr n ↦ rw n (elim (Bool-cases (code == p.ebusy)) [
        | inl y' ↦ rw y' (Answered-failure code s t _ nz same)
        | inr n' ↦ rw n' (Answered-failure code s t _ nz same)
      ])
    ])
  ]

  -- A call that has destroyed what is at `h` with `destroy`, freed its memory and set `*handle` to
  -- NULL.
  abbrev pub Freed :
      (Pointer → W → ℕ × W) → Pointer → State W Obj → ℤ × Option Pointer → State W Obj → Type 0
  Freed destroy h s reply t =
      let (code, w) = destroy h s.world in
      (reply.1 ≡ some null) × Answered code (p.memory_free h w) s.object s reply.0 t

  pub dispose-Freed :
      (destroy : Pointer → W → ℕ × W) (h : Pointer) (s : State W Obj)
      → h ≢ null
      → Post ⊥ (Freed destroy h s) (dispose p destroy (some h) s)
  unfolding dispose
  dispose-Freed destroy h s set =
      let f : (h == null) ≡ false = ground arith in
      let (code, w) = destroy h s.world in
      let t : State W Obj = record s { world = w } in
      rw f (
        Post-bind ⊥ (Answered code w s.object s) (Freed destroy h s) (destroyed p code t) _
          (destroyed-Answered code s t refl)
          λ r u h'. (
            refl,
            record {
              world = ap (p.memory_free h) h'.world;
              object = h'.object;
              result = h'.result;
            },
          ))

  -- The switch on an answer.
  pub lock_result-Answered :
      (code : ℕ) (s t : State W Obj)
      → t.errors ≡ s.errors
      → Post ⊥ (Answered code t.world t.object s) (lock_result p code t)
  unfolding lock_result
  lock_result-Answered code s t same = elim (Bool-cases (code == 0)) [
    | inl z ↦ rw z (Answered-success code s t z same)
    | inr nz ↦ rw nz (elim (Bool-cases (code == p.eagain)) [
      | inl y ↦ rw y (Answered-failure code s t _ nz same)
      | inr n ↦ rw n (elim (Bool-cases (code == p.edeadlk)) [
        | inl y' ↦ rw y' (Answered-failure code s t _ nz same)
        | inr n' ↦ rw n' (Answered-failure code s t _ nz same)
      ])
    ])
  ]

  -- A test on 0 only.
  pub reported :
      (code : ℕ) (e : Report) (s t : State W Obj)
      → t.errors ≡ s.errors
      → Post ⊥ (Answered code t.world t.object s) ((if code == 0 then return success else fail e) t)
  reported code e s t same = elim (Bool-cases (code == 0)) [
    | inl z ↦ rw z (Answered-success code s t z same)
    | inr nz ↦ rw nz (Answered-failure code s t e nz same)
  ]

  -- On a handle that is set, the guard passes.
  pub on_handle_lem :
      (Q : ℤ → State W Obj → Type 0) (h : Pointer) (body : M W Obj ℤ) (s : State W Obj)
      → h ≢ null
      → Post ⊥ Q (body s)
      → Post ⊥ Q (on_handle p h body s)
  unfolding on_handle
  on_handle_lem Q h body s set holds = let f : (h == null) ≡ false = ground arith in rw f holds
