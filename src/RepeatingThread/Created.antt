-- ===== src/RepeatingThread/Created.antt =====
-- libcthreads_repeating_thread_create: what it leaves.
use libcthreads.Common.{
  ◌≡◌, ◌≢◌, inl, inr, refl, ap, ◌∙◌, subst, sym, false, Option, some, ◌∷◌, ℤ, ◌==◌, arith,
  Bool-cases,
}
use libcthreads.Machine.{Pointer, null, Report, Platform, State, success, failure}
use libcthreads.Machine.Post.{Post, Post-bind, Post-weaken}
use libcthreads.Mutex
use libcthreads.Mutex.Laws as MutexLaws
use libcthreads.Condition
use libcthreads.Condition.Laws as ConditionLaws
use libcthreads.Handle.{unset}
use libcthreads.Handle.Laws.{allocate_lem}
use libcthreads.Handle.Members.{
  discard_handle, release_memory, discard_handle_lem, create_handle_lem,
}
use libcthreads.RepeatingThread.{InternalRepeatingThread}
use libcthreads.RepeatingThread.Serves.{HasHandles}
use libcthreads.RepeatingThread.Lifetime.{
  cleared_thread, put_status_condition, abandon, start, prepare, create,
}

-- A thread that has its handles and its callback and no task yet.
pub record Fresh (function arguments : Pointer) (t : InternalRepeatingThread) : Type 0 where
  pub handles : HasHandles t
  pub callback_function : t.callback_function ≡ function
  pub callback_function_arguments : t.callback_function_arguments ≡ arguments
  pub status : t.status ≡ 0
  pub active_tasks : t.active_tasks ≡ 0
  pub total_tasks : t.total_tasks ≡ 0

module _ {W : Type 0} (p : Platform W InternalRepeatingThread)
    (function arguments attributes : Pointer) where
  -- What a call of create leaves with `*repeating_thread` NULL: a structure whose thread is the one
  -- that pthread_create has started for it, or NULL.
  pub data RepeatingCreated : ℤ × Option Pointer → State W InternalRepeatingThread → Type 0 where
    created :
        {a : Pointer} {w : W} {t : State W InternalRepeatingThread}
        → a ≢ null
        → p.pthread_create attributes a w ≡ ((0, t.object.thread), t.world)
        → Fresh function arguments t.object
        → RepeatingCreated (success, some a) t
    not_created : {t : State W InternalRepeatingThread} → RepeatingCreated (failure, some null) t

  -- `on_error` ends without a fault, and `*repeating_thread` stays NULL.
  abandon-RepeatingCreated :
      (a : Pointer) (e : Report) (s : State W InternalRepeatingThread)
      → Post ⊥ RepeatingCreated (abandon p a e s)
  unfolding abandon release_memory
  abandon-RepeatingCreated a e s =
      let s1 : State W InternalRepeatingThread = record s { errors = e ∷ s.errors } in
      Post-bind ⊥ (λ r u. Unit {0}) RepeatingCreated
        (discard_handle p (Condition.free p) s.object.status_condition s1) _
        (discard_handle_lem p (Condition.free p) _ s1 λ t set.
          Post-weaken ⊥ _ (λ r u. Unit {0}) _ (ConditionLaws.condition_free-Freed p _ t set)
            (λ r u x. tt))
        λ r t x.
          Post-bind ⊥ (λ r u. Unit {0}) RepeatingCreated
            (discard_handle p (Mutex.free p) s.object.condition_mutex t) _
            (discard_handle_lem p (Mutex.free p) _ t λ u set.
              Post-weaken ⊥ _ (λ r u. Unit {0}) _ (MutexLaws.mutex_free-Freed p _ u set)
                (λ r u x. tt))
            λ r' u y. not_created

  start-RepeatingCreated :
      (a : Pointer) (s : State W InternalRepeatingThread)
      → a ≢ null
      → HasHandles s.object
      → (s.object.status ≡ 0) × (s.object.active_tasks ≡ 0) × (s.object.total_tasks ≡ 0)
      → Post ⊥ RepeatingCreated (start p attributes function arguments a s)
  unfolding start
  start-RepeatingCreated a s a_set handles (status, active, total) =
      let ((code, id), w) = p.pthread_create attributes a s.world in
      elim (Bool-cases (code == 0)) [
        | inl y ↦ rw y (
            created a_set (ap (λ c. ((c, id), w)) (ground (arith, y))) (record {
              handles = handles;
              callback_function = refl;
              callback_function_arguments = refl;
              status = status;
              active_tasks = active;
              total_tasks = total;
            }))
        | inr other ↦ rw other (elim (Bool-cases (code == p.eagain)) [
          | inl y ↦ rw y (abandon-RepeatingCreated a _ _)
          | inr other' ↦ rw other' (abandon-RepeatingCreated a _ _)
        ])
      ]

  -- libcthreads_repeating_thread_create, with NULL in `*repeating_thread` and a callback function,
  -- ends without a fault: it returns 1 and leaves a structure with a mutex, a condition, the callback
  -- and its argument, no task, no exit status and the thread that a pthread_create for this structure
  -- has answered 0 with, or returns -1 and leaves NULL.
  pub create-RepeatingCreated :
      (s : State W InternalRepeatingThread)
      → function ≢ null
      → Post ⊥ RepeatingCreated (create p (some null) attributes function arguments s)
  unfolding create unset prepare
  create-RepeatingCreated s set =
      let f : (function == null) ≡ false = ground arith in
      rw f (
        allocate_lem p RepeatingCreated _ _ s (λ t same. not_created)
          λ a t a_set same.
            create_handle_lem p RepeatingCreated _ _ _ _ (record t { object = cleared_thread })
              (MutexLaws.mutex_initialize-Made p (record t { object = cleared_thread }))
              (λ x. abandon-RepeatingCreated a _ x)
              λ m u m_set u_same.
                create_handle_lem p RepeatingCreated _ _ _ _ u
                  (ConditionLaws.condition_initialize-Made p u)
                  (λ x. abandon-RepeatingCreated a _ x)
                  λ c v c_set v_same.
                    let is = v_same ∙ ap (put_status_condition c) u_same in
                    start-RepeatingCreated a v a_set (subst HasHandles (sym is) (m_set, c_set)) (
                      ap (λ (o : InternalRepeatingThread). o.status) is,
                      ap (λ (o : InternalRepeatingThread). o.active_tasks) is,
                      ap (λ (o : InternalRepeatingThread). o.total_tasks) is,
                    ))
