-- ===== src/Queue/Freed.antt =====
-- libcthreads_queue_free: what it frees, in which order, and its result.
use libcthreads.Common.{
  ℕ, ◌+◌, ◌≡◌, inl, inr, refl, sym, ap, ap₂, ◌∙◌, Bool, true, false, ◌&&◌, Option, some, List, [],
  ◌∷◌, ◌++◌, ℤ, ◌==ℤ◌, arith, Bool-cases, length, append_assoc, length-append, get_elem?, set?,
}
use libcthreads.Handle.Members.{result_of}
use libcthreads.Machine.{Pointer, Platform, State, access, call, success, failure}
use libcthreads.Machine.Post.{Post, Post-step, Post-weaken, access_lem}
use libcthreads.Queue.{InternalQueue}
use libcthreads.Queue.Ring.{read, write}
use libcthreads.Queue.Calls.{store}
use mathlib.Core.Option
use libcthreads.Queue.Lifetime.{free_values}

-- A free function that ends: it gives a result and what it leaves in the slot, and changes the
-- world.
abbrev pub Release : Type 0 → Type 0
Release W = Pointer → W → (ℤ × Pointer) × W

result_of_both :
    (a b : Bool) (result : ℤ) → result_of b (result_of a result) ≡ result_of (a && b) result
result_of_both true b result = refl
result_of_both false true result = refl
result_of_both false false result = refl

get_elem?-append :
    (before xs : List Pointer) (x : Pointer) → get_elem? (before ++ x ∷ xs) (length before) ≡ some x
get_elem?-append [] xs x = refl
get_elem?-append (b ∷ before) xs x = get_elem?-append before xs x

set?-append :
    (before xs : List Pointer) (x y : Pointer)
    → set? (before ++ x ∷ xs) (length before) y ≡ some (before ++ y ∷ xs)
set?-append [] xs x y = refl
set?-append (b ∷ before) xs x y = rw (set?-append before xs x y)

abbrev pub put_values : Option (List Pointer) → InternalQueue → InternalQueue
put_values vs q = record q { values_array = vs }

read-append :
    (q : InternalQueue) (before xs : List Pointer) (x : Pointer) (index : ℕ)
    → index ≡ length before
    → q.values_array ≡ some (before ++ x ∷ xs)
    → read q index ≡ some x
unfolding read
read-append q before xs x index at array = rw (array, at) (get_elem?-append before xs x)

write-append :
    (q : InternalQueue) (before xs : List Pointer) (x y : Pointer) (index : ℕ)
    → index ≡ length before
    → q.values_array ≡ some (before ++ x ∷ xs)
    → write q index y ≡ some (put_values (some (before ++ y ∷ xs)) q)
unfolding write
write-append q before xs x y index at array = rw (array, at, set?-append before xs x y)

module _ {W : Type 0} where
  -- The values in order, each freed once: what is left in the slots, whether all went well, and the
  -- world.
  pub freed : Release W → List Pointer → W → List Pointer × Bool × W
  freed g [] w = ([], true, w)
  freed g (x ∷ xs) w =
      let (answer, w') = g x w in
      let (ys, ok, w'') = freed g xs w' in (answer.1 ∷ ys, (answer.0 ==ℤ success) && ok, w'')

  module _ (p : Platform W InternalQueue) where
    abbrev pub AllFreed :
        Release W
        → List Pointer
        → List Pointer
        → ℤ
        → State W InternalQueue
        → ℤ
        → State W InternalQueue
        → Type 0
    AllFreed g before values result s r t =
        let (ys, ok, w) = freed g values s.world in
        (t.object ≡ record s.object { values_array = some (before ++ ys) })
        × (t.world ≡ w)
        × (r ≡ result_of ok result)

    -- The rest of the loop, after one value.
    rest_freed :
        (g : Release W) (before : List Pointer) (x : Pointer) (xs : List Pointer) (result next : ℤ)
        (s t : State W InternalQueue) (r : ℤ) (u : State W InternalQueue)
        → t.world ≡ (g x s.world).1
        → t.object ≡ put_values (some (before ++ (g x s.world).0.1 ∷ xs)) s.object
        → next ≡ result_of ((g x s.world).0.0 ==ℤ success) result
        → AllFreed g (before ++ (g x s.world).0.1 ∷ []) xs next t r u
        → AllFreed g before (x ∷ xs) result s r u
    unfolding freed
    rest_freed g before x xs result next s t r u world object same (object', world', result') = (
      object'
          ∙ ap₂
              (λ w (o : InternalQueue).
                put_values (some ((before ++ (g x s.world).0.1 ∷ []) ++ (freed g xs w).0)) o)
              world object
          ∙ ap (λ (vs : List Pointer). put_values (some vs) s.object)
              (append_assoc before ((g x s.world).0.1 ∷ []) (freed g xs (g x s.world).1).0),
      world' ∙ ap (λ w. (freed g xs w).2) world,
      result'
          ∙ ap₂ (λ w n. result_of (freed g xs w).1 n) world same
          ∙ result_of_both ((g x s.world).0.0 ==ℤ success) (freed g xs (g x s.world).1).1 result,
    )

    -- From the slot after `before` on.
    free_values_from :
        (g : Release W) (before values : List Pointer) (index : ℕ) (result : ℤ)
        (s : State W InternalQueue)
        → index ≡ length before
        → s.object.values_array ≡ some (before ++ values)
        → Post ⊥
            (AllFreed g before values result s)
            (free_values p (λ v. call (g v)) (length values) index result s)
    unfolding free_values freed
    free_values_from g before [] index result s at array =
        (ap (λ (vs : Option (List Pointer)). put_values vs s.object) array, refl, refl)
    free_values_from g before (x ∷ xs) index result s at array =
        let again : Rest = λ result' t at' array'.
          free_values_from g (before ++ y ∷ []) xs (index + 1) result' t at' array' in
        Post-step ⊥ (AllFreed g before (x ∷ xs) result s) (access get s) x s _
          (access_lem get s x s.object (
            ap (Option.map (λ v. (v, s.object))) (read-append s.object before xs x index at array)))
          (Post-step ⊥ (AllFreed g before (x ∷ xs) result s) (access put s1) tt
            (record s1 { object = q }) _
            (access_lem put s1 tt q (ap store (write-append s.object before xs x y index at array)))
            (elim (Bool-cases (r ==ℤ success)) [
              | inl good ↦
                  rw good (next again result (record s1 { object = q }) refl refl (rw good refl))
              | inr bad ↦ rw bad (next again failure _ refl refl (rw bad refl))
            ]))
      where
        r : ℤ
        r = (g x s.world).0.0

        y : Pointer
        y = (g x s.world).0.1

        q : InternalQueue
        q = put_values (some (before ++ y ∷ xs)) s.object

        s1 : State W InternalQueue
        s1 = record s { world = (g x s.world).1 }

        Rest : Type 0
        Rest =
            (result' : ℤ) (t : State W InternalQueue)
            → index + 1 ≡ length (before ++ y ∷ [])
            → t.object.values_array ≡ some ((before ++ y ∷ []) ++ xs)
            → Post ⊥ (AllFreed g (before ++ y ∷ []) xs result' t)
                (free_values p (λ v. call (g v)) (length xs) (index + 1) result' t)

        get : InternalQueue → Option (Pointer × InternalQueue)
        get o = Option.map (λ v. (v, o)) (read o index)

        put : InternalQueue → Option (Unit {0} × InternalQueue)
        put o = store (write o index y)

        next :
            Rest
            → (result' : ℤ) (t : State W InternalQueue) → t.world ≡ (g x s.world).1
            → t.object ≡ q
            → result' ≡ result_of (r ==ℤ success) result
            → Post ⊥
                (AllFreed g before (x ∷ xs) result s)
                (free_values p (λ v. call (g v)) (length xs) (index + 1) result' t)
        next again result' t world object same =
            Post-weaken ⊥ (AllFreed g (before ++ y ∷ []) xs result' t) _ _
              (again result' t (omega (arith, length-append before (y ∷ []))) (
                ap (λ (o : InternalQueue). o.values_array) object
                ∙ ap some (sym (append_assoc before (y ∷ []) xs))))
              λ r u h. rest_freed g before x xs result result' s t r u world object same h

    -- What the loop of libcthreads_queue_free leaves: every slot of the array has been freed once, in
    -- order, whether it holds a value of the queue or not; a failure makes the result -1 and the loop
    -- goes on.
    pub free_values_lem :
        (g : Release W) (values : List Pointer) (s : State W InternalQueue)
        → s.object.values_array ≡ some values
        → Post ⊥
            (AllFreed g [] values success s)
            (free_values p (λ v. call (g v)) (length values) 0 success s)
    free_values_lem g values s array = free_values_from g [] values 0 success s refl array
