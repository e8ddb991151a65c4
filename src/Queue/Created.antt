-- ===== src/Queue/Created.antt =====
-- libcthreads_queue_initialize: what it leaves.
use libcthreads.Common.{
  ℕ, zero, suc, ◌<◌, ◌≡◌, ◌≢◌, inl, inr, refl, sym, ap, ◌∙◌, false, Option, some, [], ◌∷◌, ℤ, pos,
  ◌==◌, ltb, arith, Bool-cases, length,
}
use libcthreads.Handle.Members.{discard_handle, discard_handle_lem, create_handle_lem}
use libcthreads.Machine.{Pointer, null, Report, Platform, State, success, failure, Structure}
use libcthreads.Machine.Post.{Post, Post-bind, Post-weaken}
use libcthreads.Mutex
use libcthreads.Mutex.Laws as MutexLaws
use libcthreads.Condition
use libcthreads.Condition.Laws as ConditionLaws
use libcthreads.Queue.{InternalQueue}
use libcthreads.Queue.Window.{slot-zero}
use libcthreads.Queue.Valid.{contents}
use libcthreads.Queue.Steps.{Ready}
use libcthreads.Queue.Lifetime.{
  maximum_of_values, ssize_max, size_of_values, cleared_array, with_array, cleared_queue,
  put_condition_mutex, put_empty_condition, put_full_condition, abandon, create_handles,
  create_values, create, initialize,
}

pub length-cleared_array : (n : ℕ) → length (cleared_array n) ≡ n
length-cleared_array zero = refl
length-cleared_array (suc n) = ap suc (length-cleared_array n)

-- The queue with its array and the first handles.
module _ {W : Type 0} (p : Platform W InternalQueue) (n : ℕ) (n_set : n ≢ 0) where
  -- What a call of initialize leaves with `*queue` NULL: a queue that exists, is empty and has room
  -- for `n` values; or NULL.
  pub data Created : ℤ × Option Pointer → State W InternalQueue → Type 0 where
    created :
        {a : Pointer} {t : State W InternalQueue}
        → a ≢ null
        → Ready t.object
        → contents t.object ≡ []
        → t.object.allocated_number_of_values ≡ n
        → Created (success, some a) t
    not_created : {t : State W InternalQueue} → Created (failure, some null) t

  abbrev pub with_handles : Pointer → Pointer → Pointer → InternalQueue
  with_handles m e f = record (with_array n cleared_queue) {
    condition_mutex = m;
    empty_condition = e;
    full_condition = f;
  }

  pub with_handles-Ready :
      (m e f : Pointer) → m ≢ null → e ≢ null → f ≢ null → Ready (with_handles m e f)
  with_handles-Ready m e f hm he hf = record {
    valid = record {
      array = refl;
      allocated = length-cleared_array n;
      counted = omega arith;
      pop_in = omega arith;
      push_at = sym (slot-zero n 0 (omega arith));
    };
    handles = record { mutex = hm; empty = he; full = hf };
  }

  -- `on_error` ends without a fault, and `*queue` stays NULL.
  abandon-Created :
      (a values : Pointer) (e : Report) (s : State W InternalQueue)
      → Post ⊥ Created (abandon p a values e s)
  unfolding abandon
  abandon-Created a values e s =
      Post-bind ⊥ (λ r u. Unit {0}) Created
        (discard_handle p (Condition.free p) s.object.empty_condition
          (record s { errors = e ∷ s.errors }))
        _
        (discard_handle_lem p (Condition.free p) _ _ λ t h.
          Post-weaken ⊥ _ (λ r u. Unit {0}) _ (ConditionLaws.condition_free-Freed p _ t h)
            (λ r u x. tt))
        λ r u x.
          Post-bind ⊥ (λ r u. Unit {0}) Created
            (discard_handle p (Mutex.free p) s.object.condition_mutex u) _
            (discard_handle_lem p (Mutex.free p) _ _ λ t h.
              Post-weaken ⊥ _ (λ r u. Unit {0}) _ (MutexLaws.mutex_free-Freed p _ t h)
                (λ r u x. tt))
            λ r' u' x'. elim (Bool-cases (values == null)) [
              | inl y ↦ rw y not_created
              | inr n ↦ rw n not_created
            ]

  create_handles-Created :
      (a values : Pointer) (s : State W InternalQueue)
      → a ≢ null
      → s.object ≡ with_array n cleared_queue
      → Post ⊥ Created (create_handles p a values s)
  unfolding create_handles
  create_handles-Created a values s set same =
      create_handle_lem p Created _ _ _ _ s (MutexLaws.mutex_initialize-Made p s)
        (λ x. abandon-Created a values _ x)
        λ m t m_set t_same.
          create_handle_lem p Created _ _ _ _ t (ConditionLaws.condition_initialize-Made p t)
            (λ x. abandon-Created a values _ x)
            λ e u e_set u_same.
              create_handle_lem p Created _ _ _ _ u (ConditionLaws.condition_initialize-Made p u)
                (λ x. abandon-Created a values _ x)
                λ f v f_set v_same.
                  let is : v.object ≡ with_handles m e f =
                    v_same
                    ∙ ap (put_full_condition f) (
                        u_same
                        ∙ ap (put_empty_condition e) (t_same ∙ ap (put_condition_mutex m) same)) in
                  rw is (created set (with_handles-Ready m e f m_set e_set f_set) refl refl)

  create_values-Created :
      (a : Pointer) (s : State W InternalQueue)
      → a ≢ null
      → s.object ≡ cleared_queue
      → Post ⊥ Created (create_values p a n s)
  unfolding create_values
  create_values-Created a s set same =
      let allocated = p.memory_allocate (size_of_values n) s.world in
      elim (Bool-cases (allocated.0 == null)) [
        | inl y ↦ rw y (abandon-Created a null _ _)
        | inr y ↦
            let cleared = p.memory_set allocated.0 (size_of_values n) allocated.1 in
            rw y (elim (Bool-cases (cleared.0 == null)) [
              | inl z ↦ rw z (abandon-Created a allocated.0 _ _)
              | inr z ↦ rw z (create_handles-Created a allocated.0 _ set (ap (with_array n) same))
            ])
      ]

  create-Created : (s : State W InternalQueue) → Post ⊥ Created (create p n s)
  unfolding create
  create-Created s =
      let allocated = p.memory_allocate (p.sizeof Structure.internal_queue) s.world in
      elim (Bool-cases (allocated.0 == null)) [
        | inl y ↦ rw y not_created
        | inr y ↦
            let cleared =
              p.memory_set allocated.0 (p.sizeof Structure.internal_queue) allocated.1 in
            rw y (elim (Bool-cases (cleared.0 == null)) [
              | inl z ↦ rw z not_created
              | inr z ↦ rw z (create_values-Created allocated.0 _ (ground arith) refl)
            ])
      ]

  -- libcthreads_queue_initialize with `*queue` NULL and a maximum that is not 0 and fits in 31 bits:
  -- it ends without a fault, and leaves in `*queue` a queue that is well formed, empty, and as large
  -- as asked, or returns -1 and leaves NULL.
  pub initialize-Created :
      (s : State W InternalQueue)
      → n < 0x80000000
      → Post ⊥ Created (initialize p (some null) (pos n) s)
  unfolding initialize
  initialize-Created s small =
      let fits : ltb maximum_of_values n ≡ false = ground arith in
      let fits' : ltb ssize_max (size_of_values n) ≡ false = ground arith in
      rw (fits, fits') (create-Created s)
