-- ===== src/Machine/Post.antt =====
-- Postconditions of machine calls.
use libcthreads.Common.{◌≡◌, refl, sym, subst, Option, some}
use libcthreads.Machine.{State, Exec, M, with_null_error, access}
use libcthreads.Machine.Exec.{done, fault, waiting}

-- The call does not fault; if it ends, `Q` holds of its result and state; where it is still
-- waiting, `T` holds: `⊥` says that this does not happen, `Unit` that nothing is said of it.
abbrev pub Post :
    {W Obj A : Type 0} → Type 0 → (A → State W Obj → Type 0) → Exec (A × State W Obj) → Type 0
Post T Q (done (a, s)) = Q a s
Post T Q fault = ⊥
Post T Q waiting = T

pub Post-bind :
    {W Obj A B : Type 0} (T : Type 0) (P : A → State W Obj → Type 0) (Q : B → State W Obj → Type 0)
    (r : Exec (A × State W Obj)) (f : A → M W Obj B)
    → Post T P r
    → ((a : A) (t : State W Obj) → P a t → Post T Q (f a t))
    → Post T Q (elim r [ done (a, t) ↦ f a t | fault ↦ fault | waiting ↦ waiting ])
Post-bind T P Q (done (a, t)) f h k = k a t h
Post-bind T P Q fault f h k = h
Post-bind T P Q waiting f h k = h

pub Post-weaken :
    {W Obj A : Type 0} (T : Type 0) (P Q : A → State W Obj → Type 0) (r : Exec (A × State W Obj))
    → Post T P r
    → ((a : A) (t : State W Obj) → P a t → Q a t)
    → Post T Q r
Post-weaken T P Q (done (a, t)) h k = k a t h
Post-weaken T P Q fault h k = h
Post-weaken T P Q waiting h k = h

-- The same, and the rest may use how the call ended.
pub Post-run :
    {W Obj A B : Type 0} (T : Type 0) (P : A → State W Obj → Type 0) (Q : B → State W Obj → Type 0)
    (r : Exec (A × State W Obj)) (f : A → M W Obj B)
    → Post T P r
    → ((a : A) (t : State W Obj) → r ≡ done (a, t) → P a t → Post T Q (f a t))
    → Post T Q (elim r [ done (a, t) ↦ f a t | fault ↦ fault | waiting ↦ waiting ])
Post-run T P Q (done (a, t)) f h k = k a t refl h
Post-run T P Q fault f h k = h
Post-run T P Q waiting f h k = h

-- A call whose `error` argument is NULL does what it does otherwise, but for the reports.
pub Post-null :
    {W Obj A : Type 0} (T : Type 0) (P Q : A → State W Obj → Type 0) (m : M W Obj A)
    (s : State W Obj)
    → Post T P (m s)
    → ((a : A) (t : State W Obj) → P a t → Q a (record t { errors = s.errors }))
    → Post T Q (with_null_error m s)
Post-null {W} {Obj} {A} T P Q m s h k = Post-map (m s) h k
  where
    Post-map :
        (r : Exec (A × State W Obj))
        → Post T P r
        → ((a : A) (t : State W Obj) → P a t → Q a (record t { errors = s.errors }))
        → Post T Q (elim r [
          | done (a, t) ↦ done (a, record t { errors = s.errors })
          | fault ↦ fault
          | waiting ↦ waiting
        ])
    Post-map (done (a, t)) h k = k a t h
    Post-map fault h k = h
    Post-map waiting h k = h

-- A call that always ends.
pub Post-total :
    {W Obj A : Type 0} (T : Type 0) (Q : A → State W Obj → Type 0) (r : Exec (A × State W Obj))
    → Post ⊥ Q r
    → Post T Q r
Post-total T Q (done (a, t)) h = h
Post-total T Q fault h = h
Post-total T Q waiting h = absurd h

-- The call after one whose outcome is known.
pub Post-step :
    {W Obj A B : Type 0} (T : Type 0) (Q : B → State W Obj → Type 0) (r : Exec (A × State W Obj))
    (a : A) (t : State W Obj) (f : A → M W Obj B)
    → r ≡ done (a, t)
    → Post T Q (f a t)
    → Post T Q (elim r [ done (a, t) ↦ f a t | fault ↦ fault | waiting ↦ waiting ])
Post-step {W} {Obj} T Q r a t f e h =
    subst (λ x. Post T Q (elim x [ done (a, t) ↦ f a t | fault ↦ fault | waiting ↦ waiting ]))
      (sym e) h

pub access_lem :
    {W Obj A : Type 0} (f : Obj → Option (A × Obj)) (s : State W Obj) (a : A) (q : Obj)
    → f s.object ≡ some (a, q)
    → access f s ≡ done (a, record s { object = q })
access_lem f s a q e = rw (access, e)

pub Post-done :
    {W Obj A : Type 0} (Q : A → State W Obj → Type 0) (r : Exec (A × State W Obj))
    → Post ⊥ Q r
    → (a : A) × (t : State W Obj) × (r ≡ done (a, t)) × Q a t
Post-done Q (done (a, t)) h = (a, t, refl, h)
Post-done Q fault h = absurd h
Post-done Q waiting h = absurd h
