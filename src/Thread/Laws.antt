-- ===== src/Thread/Laws.antt =====
-- libcthreads_thread_create and libcthreads_thread_join: what they leave, and how the result of the
-- callback function comes back.
use libcthreads.Common.{
  ℕ, ◌≡◌, ◌≢◌, inl, inr, refl, ap, subst, ◌∙◌, false, Option, none, some, ℤ, ◌==ℤ◌, ◌==◌,
  if◌then◌else◌, arith, Bool-cases,
}
use libcthreads.Machine.{Pointer, null, Platform, State, M, Structure, success, failure}
use libcthreads.Machine.Exec.{done}
use libcthreads.Machine.Post.{Post, Post-bind, Post-weaken}
use libcthreads.Handle.{discard, unset}
use libcthreads.Handle.Laws.{allocate_lem}
use libcthreads.Joining.{
  join_result, free_value, stored_value, joined, value_freed, join_result_lem, free_value_lem,
}
use libcthreads.Thread.{InternalThread, callback_function_helper, start, create, join}

module _ {W : Type 0} (p : Platform W InternalThread) where
  -- A call of create with `*thread` NULL: a structure with the callback in it, or NULL.
  pub data Created (function arguments : Pointer)
      : ℤ × Option Pointer → State W InternalThread → Type 0 where
    created :
        {a : Pointer} {t : State W InternalThread}
        → a ≢ null
        → t.object.callback_function ≡ function
        → t.object.callback_function_arguments ≡ arguments
        → Created function arguments (success, some a) t
    not_created : {t : State W InternalThread} → Created function arguments (failure, some null) t

  -- libcthreads_thread_create, with NULL in `*thread` and a callback function, ends without a fault:
  -- it returns 1 and leaves in `*thread` a structure that holds the callback and its argument, or
  -- returns -1 and leaves NULL.
  pub create-Created :
      (attributes function arguments : Pointer) (s : State W InternalThread)
      → function ≢ null
      → Post ⊥ (Created function arguments) (create p (some null) attributes function arguments s)
  unfolding create unset start discard
  create-Created attributes function arguments s set =
      let f : (function == null) ≡ false = ground arith in
      rw f (
        allocate_lem p (Created function arguments) _ _ s (λ t same. not_created)
          λ a t a_set same.
            let code = (p.pthread_create attributes a t.world).0.0 in
            elim (Bool-cases (code == 0)) [
              | inl z ↦ rw z (created a_set refl refl)
              | inr nz ↦ rw nz (elim (Bool-cases (code == p.eagain)) [
                | inl y ↦ rw y not_created
                | inr n ↦ rw n not_created
              ])
            ])

  -- A call that has joined the thread: the result is 1 if the join went well and the thread returned
  -- nothing or 1, else -1; the returned value and the structure are freed.
  abbrev pub Joined :
      Pointer → State W InternalThread → ℤ × Option Pointer → State W InternalThread → Type 0
  Joined thread s r t =
      let ((code, value), w, q) = p.pthread_join s.object.thread s.world s.object in
      (r ≡ (joined code value success, some null))
      × (t.world ≡ p.memory_free thread (value_freed p (stored_value code value) w))

  -- libcthreads_thread_join on a thread, where EDEADLK is not 0: it joins the thread, frees the value
  -- that it returned and the structure, each once, and sets `*thread` to NULL; the result is 1 if
  -- pthread_join answers 0 and the thread returned NULL or 1, else -1.
  pub join-Joined :
      (thread : Pointer) (s : State W InternalThread)
      → thread ≢ null
      → p.edeadlk ≢ 0
      → Post ⊥ (Joined thread s) (join p (some thread) s)
  unfolding join
  join-Joined thread s set deadlock =
      let f : (thread == null) ≡ false = ground arith in
      let answer = p.pthread_join s.object.thread s.world s.object in
      let code = answer.0.0 in
      let value = answer.0.1 in
      let s' : State W InternalThread = record s { world = answer.1; object = answer.2 } in
      rw f (
        Post-bind ⊥ _ (Joined thread s) (join_result p code code value success s') _
          (join_result_lem p code code value success s' deadlock)
          λ r t (same, world, object).
            Post-bind ⊥ _ (Joined thread s) (free_value p (stored_value code value) t) _
              (free_value_lem p (stored_value code value) t)
              λ x u (world', object'). (
                ap (λ (y : ℤ). (y, some null)) same,
                ap (p.memory_free thread)
                    (world' ∙ ap (value_freed p (stored_value code value)) world),
              ))

-- What a join returns for the callback's result `c`, where the memory that the start function asks
-- for is at `a`.
abbrev pub outcome : Pointer → ℤ → ℤ
outcome a c = if a == null then success else (if c ==ℤ success then success else failure)

module _ {W : Type 0} (p : Platform W InternalThread)
    (run : Pointer → Pointer → M W InternalThread ℤ) where
  -- The memory that the start function asks for.
  abbrev pub memory_of : State W InternalThread → Pointer
  memory_of s = (p.memory_allocate (p.sizeof Structure.int_value) s.world).0

  -- The callback function, called with its argument once there is memory, returns `c`.
  abbrev pub Returns : ℤ → State W InternalThread → Type 0
  Returns c s =
      let (a, w) = p.memory_allocate (p.sizeof Structure.int_value) s.world in
      Post ⊥ (λ r u. r ≡ c)
        (run s.object.callback_function s.object.callback_function_arguments
          (record s { world = w }))

  -- What the start function returns: NULL without memory, else the callback's result.
  helper-Delivers :
      (c : ℤ) (arguments : Pointer) (s : State W InternalThread)
      → arguments ≢ null
      → s.object.callback_function ≢ null
      → Returns c s
      → Post ⊥
          (λ v u. v ≡ (if memory_of s == null then none else some (memory_of s, c)))
          (callback_function_helper p run arguments s)
  unfolding callback_function_helper
  helper-Delivers c arguments s set callback returns =
      let f : (arguments == null) ≡ false = ground arith in
      let g : (s.object.callback_function == null) ≡ false = ground arith in
      let (a, w) = p.memory_allocate (p.sizeof Structure.int_value) s.world in
      rw (f, g)
        (elim (Bool-cases (a == null)) [
          | inl y ↦ rw y refl
          | inr there ↦ rw there (
              Post-bind ⊥ (λ r u. r ≡ c) (λ v u. v ≡ some (a, c))
                (run s.object.callback_function s.object.callback_function_arguments
                  (record s { world = w }))
                _ returns λ r u same. ap (λ x. some (a, x)) same)
        ])

  joined-outcome :
      (a : Pointer) (c : ℤ)
      → joined 0 (if a == null then none else some (a, c)) success ≡ outcome a c
  joined-outcome a c = elim (Bool-cases (a == null)) [ inl y ↦ rw y refl | inr n ↦ rw n refl ]

  -- The result of the callback comes back: where the start function of a thread with a callback
  -- function, which returns `c` when it is called with its argument, has ended with `v`, and
  -- pthread_join answers 0 with that `v`, libcthreads_thread_join returns 1 if `c` is 1 and -1 if it
  -- is not; it returns 1 also where there was no memory for the result.
  pub join-helper :
      (c : ℤ) (arguments thread : Pointer) (s s' t : State W InternalThread)
      (v : Option (Pointer × ℤ)) (w : W) (q : InternalThread)
      → arguments ≢ null
      → s.object.callback_function ≢ null
      → Returns c s
      → callback_function_helper p run arguments s ≡ done (v, s')
      → p.pthread_join t.object.thread t.world t.object ≡ ((0, v), w, q)
      → thread ≢ null
      → p.edeadlk ≢ 0
      → Post ⊥ (λ r u. r ≡ (outcome (memory_of s) c, some null)) (join p (some thread) t)
  join-helper c arguments thread s s' t v w q argument callback returns ends answers set deadlock =
      let a = memory_of s in
      let delivers : v ≡ (if a == null then none else some (a, c)) =
        subst (Post ⊥ (λ v u. v ≡ (if a == null then none else some (a, c)))) ends
          (helper-Delivers c arguments s argument callback returns) in
      Post-weaken ⊥ (Joined p thread t) (λ r u. r ≡ (outcome a c, some null)) _
        (join-Joined p thread t set deadlock)
        λ r u (same, world).
          same
          ∙ ap
              (λ (a : (ℕ × Option (Pointer × ℤ)) × W × InternalThread).
                (joined a.0.0 a.0.1 success, some null))
              answers
          ∙ ap (λ (x : ℤ). (x, some null))
              (ap (λ x. joined 0 x success) delivers ∙ joined-outcome a c)
