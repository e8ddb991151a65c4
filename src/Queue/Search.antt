-- ===== src/Queue/Search.antt =====
-- The search of libcthreads_queue_push_sorted, in the array and in the list of values.
use libcthreads.Common.{
  ℕ, zero, suc, ◌+◌, ◌≤◌, ◌<◌, ◌≡◌, refl, sym, subst, Bool, Option, some, arith, length, get_or, ℤ,
}
use libcthreads.Machine.{Pointer, null}
use libcthreads.Queue.{InternalQueue}
use libcthreads.Queue.Ring.{Compare, Search, stopped, failed, judge, search}
use libcthreads.Queue.Window.{slot, slot-lt, slot-next, window}
use libcthreads.Queue.Valid.{cells}
use libcthreads.Queue.Fifo.{read-eq-get_or}
use libcthreads.Queue.Order.{locate, locate_by}

-- A search over places as one over array indices.
abbrev pub at_slots : ℕ → ℕ → Search → Search
at_slots cap start (stopped k c result) = stopped (slot cap start k) c result
at_slots cap start (failed e) = failed e

judge-eq-locate_by :
    (c : ℤ) (unique : Bool) (cap start k : ℕ) (next : Option Search) (s : Search)
    → next ≡ some (at_slots cap start s)
    → judge c unique (slot cap start k) next ≡ some (at_slots cap start (locate_by c unique k s))
judge-eq-locate_by c unique cap start k next s h = ground arith

-- In the array the search stays in bounds, and finds what it finds in the list.
pub search-eq-locate :
    (compare : Compare) (unique : Bool) (v : Pointer) (q : InternalQueue) (start rounds k : ℕ)
    (c : ℤ)
    → q.values_array ≡ some (cells q)
    → length (cells q) ≡ q.allocated_number_of_values
    → start < q.allocated_number_of_values
    → k + rounds ≤ q.allocated_number_of_values
    → let cap = q.allocated_number_of_values in
      search compare unique v q rounds (slot cap start k) c
      ≡ some (
          at_slots cap start
            (locate compare unique v (window (cells q) cap (slot cap start k) rounds) k c))
unfolding search locate
search-eq-locate compare unique v q start zero k c a hl hs hk = refl
search-eq-locate compare unique v q start (suc rounds) k c a hl hs hk =
    rw (search, read-eq-get_or q (slot cap start k) a (omega (arith, slot-lt cap start k hs lt)))
      (judge-eq-locate_by other unique cap start k _ _ (
        subst
          (λ i.
            search compare unique v q rounds i other
            ≡ some (
                at_slots cap start
                  (locate compare unique v (window (cells q) cap i rounds) (k + 1) other)))
          (sym (slot-next cap start k hs lt))
          (search-eq-locate compare unique v q start rounds (k + 1) other a hl hs (omega arith))))
  where
    cap : ℕ
    cap = q.allocated_number_of_values

    other : ℤ
    other = compare v (get_or (cells q) (slot cap start k) null)

    lt : k < cap
    lt = omega arith
