-- ===== src/Queue/Room.antt =====
-- The loop of push_sorted that moves values one place on.
use libcthreads.Common.{
  ℕ, zero, suc, ◌-◌, ◌≤◌, ◌<◌, ◌≡◌, ◌≢◌, refl, sym, ap, ◌∙◌, Option, some, List, arith, length,
  get_or, set, length-set, get_or-set_ne, get_or-set_self, ℤ, pos, sub_ℕ, leb, ltb, ◌==◌, ◌&&◌,
  false, if◌then◌else◌,
}
use native.Mathlib.Decide.{ℕ_discrete}
use libcthreads.Machine.{Pointer, null}
use libcthreads.Queue.{InternalQueue}
use libcthreads.Queue.Ring.{make_room, wrap_previous}
use libcthreads.Queue.Window.{slot, slot-lt, slot-injective}
use libcthreads.Queue.Valid.{cells}
use libcthreads.Queue.Fifo.{write-eq-set, read-eq-get_or}

-- Going one place back from the slot after `i` gives slot `i`.
slot-previous :
    (q : InternalQueue) (start i : ℕ)
    → start < q.allocated_number_of_values
    → suc i < q.allocated_number_of_values
    → wrap_previous q (sub_ℕ (slot q.allocated_number_of_values start (suc i)) 1)
      ≡ pos (slot q.allocated_number_of_values start i)
slot-previous q start i h k = ground arith

-- The cell of place `i` after the values at places `k` to `j - 1` have moved one place on.
abbrev pub moved : List Pointer → ℕ → ℕ → ℕ → ℕ → ℕ → Pointer
moved values cap start k j i =
    if ltb k i && leb i j
    then get_or values (slot cap start (i - 1)) null
    else get_or values (slot cap start i) null

-- `values'` has the length of `values`, and the cells that `moved` says.
pub record HasRoom (cap start k j : ℕ) (values values' : List Pointer) : Type 0 where
  pub same_length : length values' ≡ length values
  pub cell :
      (i : ℕ) → i < cap → get_or values' (slot cap start i) null ≡ moved values cap start k j i

-- What one round and the rounds after it do together.
HasRoom-step :
    (cap start k j : ℕ) (values values' : List Pointer)
    → start < cap
    → suc j < cap
    → k ≤ j
    → length values ≡ cap
    → HasRoom cap start k j
        (set values (slot cap start (suc j)) (get_or values (slot cap start j) null))
        values'
    → HasRoom cap start k (suc j) values values'
HasRoom-step cap start k j values values' hs hj hk hl r = record {
  same_length = r.same_length ∙ length-set values (slot cap start (suc j)) _;
  cell = λ i lt. ground (
    arith,
    r.cell i lt,
    slot-lt cap start (suc j) hs hj,
    get_or-set_self values (slot cap start (suc j)) (get_or values (slot cap start j) null) null,
    get_or-set_ne values (slot cap start (suc j)) (slot cap start i)
        (get_or values (slot cap start j) null) null,
    get_or-set_ne values (slot cap start (suc j)) (slot cap start (i - 1))
        (get_or values (slot cap start j) null) null,
    slot-injective cap start (suc j) i hs hj,
    slot-injective cap start (suc j) (i - 1) hs hj,
  );
}

abbrev pub with_values : InternalQueue → List Pointer → InternalQueue
with_values q values = record q { values_array = some values }

pub HasRoom-refl : (cap start k : ℕ) (values : List Pointer) → HasRoom cap start k k values values
HasRoom-refl cap start k values = record { same_length = refl; cell = λ i lt. ground arith }

-- The round that ends the loop.
make_room-here :
    (fuel : ℕ) (q : InternalQueue) (place : ℕ) (previous : ℤ)
    → make_room (suc fuel) place q place previous ≡ some (place, q)
unfolding make_room
make_room-here fuel q place previous = ground arith

-- A round that moves one value.
make_room-there :
    (fuel : ℕ) (q : InternalQueue) (place push from : ℕ) (previous : ℤ)
    → push ≢ place
    → q.values_array ≡ some (cells q)
    → push < length (cells q)
    → from < length (cells q)
    → wrap_previous q previous ≡ pos from
    → make_room (suc fuel) place q push previous
      ≡ make_room fuel place
          (with_values q (set (cells q) push (get_or (cells q) from null)))
          from
          (sub_ℕ from 1)
unfolding make_room
make_room-there fuel q place push from previous ne a hp hf e =
    let differ : (push == place) ≡ false = ground arith in
    rw (
      make_room,
      differ,
      e,
      read-eq-get_or q from a hf,
      write-eq-set q push (get_or (cells q) from null) a hp,
    )

-- A loop that ends at once leaves the array as it was.
make_room-done :
    (fuel : ℕ) (q : InternalQueue) (start j : ℕ)
    → q.values_array ≡ some (cells q)
    → let cap = q.allocated_number_of_values in
      (values : List Pointer) × (make_room
          (suc fuel)
          (slot cap start j)
          q
          (slot cap start j)
          (sub_ℕ (slot cap start j) 1)
        ≡ some (slot cap start j, with_values q values))
      × HasRoom cap start j j (cells q) values
make_room-done fuel q start j a = (
  cells q,
  make_room-here fuel q _ _
      ∙ ap
          (λ (vs : Option (List Pointer)).
            some (slot q.allocated_number_of_values start j, record q { values_array = vs }))
          a,
  HasRoom-refl q.allocated_number_of_values start j (cells q),
)

-- With fuel for each place between `k` and `j`, the loop ends at place `k`, in bounds, with each
-- value between one place on.
pub make_room_lem :
    (fuel : ℕ) (q : InternalQueue) (start k j : ℕ)
    → q.values_array ≡ some (cells q)
    → length (cells q) ≡ q.allocated_number_of_values
    → start < q.allocated_number_of_values
    → k ≤ j
    → j < q.allocated_number_of_values
    → j - k < fuel
    → let cap = q.allocated_number_of_values in
      (values : List Pointer) × (make_room fuel
          (slot cap start k)
          q
          (slot cap start j)
          (sub_ℕ (slot cap start j) 1)
        ≡ some (slot cap start k, with_values q values))
      × HasRoom cap start k j (cells q) values
make_room_lem zero q start k j a hl hs hk hj hf = absurd (omega arith)
make_room_lem (suc fuel) q start k zero a hl hs hk hj hf =
    let e : k ≡ 0 = omega arith in rw e (make_room-done fuel q start zero a)
make_room_lem (suc fuel) q start k (suc j) a hl hs hk hj hf = elim (ℕ_discrete k (suc j)) [
  | yes e ↦ rw e (make_room-done fuel q start (suc j) a)
  | no ne ↦
      let lt = λ (i : ℕ) (h : i < q.allocated_number_of_values).
        slot-lt q.allocated_number_of_values start i hs h in
      let (values, runs, room) =
        make_room_lem fuel
          (with_values q (
            set (cells q) (slot q.allocated_number_of_values start (suc j))
              (get_or (cells q) (slot q.allocated_number_of_values start j) null)))
          start k j refl (length-set (cells q) _ _ ∙ hl) hs (omega arith) (omega arith)
          (omega arith) in
      (
        values,
        make_room-there fuel q (slot q.allocated_number_of_values start k)
              (slot q.allocated_number_of_values start (suc j))
              (slot q.allocated_number_of_values start j)
              (sub_ℕ (slot q.allocated_number_of_values start (suc j)) 1)
              (λ e. ne (
                slot-injective q.allocated_number_of_values start k (suc j) hs (omega arith) hj
                  (sym e)))
              a (omega (arith, lt (suc j) hj)) (omega (arith, lt j (omega arith)))
              (slot-previous q start j hs hj)
            ∙ runs,
        HasRoom-step q.allocated_number_of_values start k j (cells q) values hs hj (omega arith) hl
            room,
      )
]
