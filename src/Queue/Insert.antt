-- ===== src/Queue/Insert.antt =====
-- The insertion of libcthreads_queue_push_sorted, against `place` on the list of values.
use libcthreads.Common.{
  ℕ, suc, ◌-◌, ◌≤◌, ◌<◌, ◌≡◌, ◌≢◌, ◌⊎◌, inl, inr, refl, sym, ap, subst, ◌∙◌, Bool, Option, some,
  List, arith, length, set, length-set, ℤ, pos, sub_ℕ, ◌==ℤ◌, Bool-cases,
}
use libcthreads.Machine.{Pointer}
use libcthreads.Queue.{InternalQueue}
use libcthreads.Queue.Ring.{
  Compare, compare_less, Search, stopped, failed, next_index, pushed, search, make_room, room_for,
  insert_at, settle, insert_sorted, Insertion, rejected, duplicate, inserted,
}
use libcthreads.Queue.Window.{slot, slot-lt, slot-zero, slot-next, window}
use libcthreads.Queue.Valid.{cells, contents, IsValid, Keeps, length-contents}
use libcthreads.Queue.Fifo.{write-eq-set}
use libcthreads.Queue.Room.{make_room_lem, with_values, HasRoom, HasRoom-refl}
use libcthreads.Queue.Order.{
  Placement, refused, present, placed, place, insert_nth, locate, Agrees, locate-Agrees,
}
use libcthreads.Queue.Search.{at_slots, search-eq-locate}
use libcthreads.Queue.Place.{window-insert}

-- The queue after an insertion at place `j`.
abbrev with_inserted : ℕ → Pointer → InternalQueue → List Pointer → InternalQueue
with_inserted j v q values =
    pushed (with_values q (set values (slot q.allocated_number_of_values q.pop_index j) v))

module _ {q : InternalQueue} (ok : IsValid q)
    (has_room : q.number_of_values ≢ q.allocated_number_of_values) where
  lt : q.number_of_values < q.allocated_number_of_values
  lt = omega (arith, ok.counted)

  -- Room is made at place `j`, where the search stopped.
  room_for_lem :
      (j : ℕ) (c : ℤ)
      → j ≤ q.number_of_values
      → (c ≡ compare_less) ⊎ (j ≡ q.number_of_values)
      → (values : List Pointer) × (room_for q (slot q.allocated_number_of_values q.pop_index j) c
          ≡ some (slot q.allocated_number_of_values q.pop_index j, with_values q values))
        × HasRoom q.allocated_number_of_values q.pop_index j q.number_of_values (cells q) values
  unfolding room_for
  room_for_lem j c hj h = elim (Bool-cases (c ==ℤ compare_less)) [
    | inl less ↦
        let (values, runs, room) =
          make_room_lem (suc cap) q q.pop_index j q.number_of_values ok.array ok.allocated ok.pop_in
            hj lt (omega (arith, lt)) in
        (
          values,
          rw less (
              ap (λ i. make_room (suc cap) (slot cap q.pop_index j) q i (sub_ℕ i 1)) ok.push_at
              ∙ runs),
          room,
        )
    | inr not_less ↦
        let last : q.number_of_values ≡ j = ground arith in
        (
          cells q,
          rw not_less (
              ap (λ i. some (i, q)) (ok.push_at ∙ ap (slot cap q.pop_index) last)
              ∙ ap
                  (λ (vs : Option (List Pointer)).
                    some (slot cap q.pop_index j, record q { values_array = vs }))
                  ok.array),
          subst (λ n. HasRoom cap q.pop_index j n (cells q) (cells q)) (sym last)
              (HasRoom-refl cap q.pop_index j (cells q)),
        )
  ]
    where
      cap : ℕ
      cap = q.allocated_number_of_values

  -- The write at place `j`.
  insert_at_lem :
      (v : Pointer) (j : ℕ) (c : ℤ)
      → j ≤ q.number_of_values
      → (c ≡ compare_less) ⊎ (j ≡ q.number_of_values)
      → (q' : InternalQueue) × (insert_at v q (slot q.allocated_number_of_values q.pop_index j) c
          ≡ some q')
        × IsValid q'
        × Keeps q q'
        × (contents q' ≡ insert_nth j v (contents q))
  unfolding insert_at pushed
  insert_at_lem v j c hj h =
      let (values, runs, room) = room_for_lem j c hj h in
      let at : slot q.allocated_number_of_values q.pop_index j < length values = omega (
        arith,
        room.same_length,
        ok.allocated,
        slot-lt q.allocated_number_of_values q.pop_index j ok.pop_in (omega (arith, lt)),
      ) in
      (
        with_inserted j v q values,
        rw (insert_at, runs, write-eq-set (with_values q values) _ v refl at),
        record {
          array = refl;
          allocated = length-set values _ v ∙ room.same_length ∙ ok.allocated;
          counted = omega (arith, lt);
          pop_in = ok.pop_in;
          push_at =
              ap (next_index q.allocated_number_of_values) ok.push_at
              ∙ slot-next q.allocated_number_of_values q.pop_index q.number_of_values ok.pop_in lt;
        },
        omega arith,
        ap
              (window (set values (slot q.allocated_number_of_values q.pop_index j) v)
                q.allocated_number_of_values q.pop_index)
              {y = suc q.number_of_values} (omega arith)
            ∙ window-insert q.allocated_number_of_values q.pop_index j q.number_of_values (cells q)
                values v room ok.pop_in hj lt ok.allocated,
      )

-- What an insertion on `q` makes of a placement in its list.
abbrev pub Inserts : InternalQueue → Option Insertion → Placement → Type 0
Inserts q result (refused e) = result ≡ some (rejected e)
Inserts q result present = result ≡ some duplicate
Inserts q result (placed xs) =
    (q' : InternalQueue) × (result ≡ some (inserted q'))
    × IsValid q'
    × Keeps q q'
    × (contents q' ≡ xs)

module _ {q : InternalQueue} (ok : IsValid q)
    (has_room : q.number_of_values ≢ q.allocated_number_of_values) where
  settle_lem :
      (v : Pointer) (s : Search) (r : Placement)
      → Agrees v (contents q) 0 s r
      → Inserts q (settle v q (at_slots q.allocated_number_of_values q.pop_index s)) r
  unfolding settle
  settle_lem v (failed e) r h = rw h refl
  settle_lem v (stopped j c result) r (inl h) = rw (h.1, h.0) refl
  settle_lem v (stopped j c result) r (inr (one, is_placed, low, high, side)) =
      let at : j - 0 ≡ j = omega arith in
      let end : length (contents q) ≡ q.number_of_values = length-contents q in
      let (q', runs, ok', kept, same) =
        insert_at_lem ok has_room v j c (omega arith) (ground (arith, end)) in
      rw (is_placed, one, at, runs) (q', refl, ok', kept, same)

  -- On a valid queue with room, insert_sorted stays in bounds and does what `place` does on the list
  -- of values; the queue stays valid.
  pub insert_sorted_lem :
      (compare : Compare) (unique : Bool) (v : Pointer)
      → Inserts q (insert_sorted compare unique v q) (place compare unique v (contents q))
  unfolding insert_sorted
  insert_sorted_lem compare unique v =
      rw found (settle_lem v _ _ (locate-Agrees compare unique v (contents q) 0 (pos 0)))
    where
      found :
          search compare unique v q q.number_of_values q.pop_index (pos 0)
          ≡ some (
              at_slots q.allocated_number_of_values q.pop_index
                (locate compare unique v (contents q) 0 (pos 0)))
      found =
          subst
            (λ i.
              search compare unique v q q.number_of_values i (pos 0)
              ≡ some (
                  at_slots q.allocated_number_of_values q.pop_index (
                    locate compare unique v
                      (window (cells q) q.allocated_number_of_values i q.number_of_values) 0
                      (pos 0))))
            (slot-zero q.allocated_number_of_values q.pop_index ok.pop_in)
            (search-eq-locate compare unique v q q.pop_index q.number_of_values 0 (pos 0) ok.array
              ok.allocated ok.pop_in (omega (arith, ok.counted)))
