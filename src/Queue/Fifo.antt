-- ===== src/Queue/Fifo.antt =====
-- Appending at the push index and taking at the pop index, as operations on a list.
use libcthreads.Common.{
  ℕ, zero, suc, ◌+◌, ◌-◌, ◌≤◌, ◌<◌, ◌≡◌, ◌≢◌, refl, ◌∙◌, some, List, [], ◌∷◌, ◌++◌, ap, ap₂, arith,
  length, get_or, set, length-set, set?-eq-set, get_elem?-eq-get_or,
}
use libcthreads.Machine.{Pointer, null}
use libcthreads.Queue.{InternalQueue}
use libcthreads.Queue.Ring.{next_index, read, write, pushed, enqueue, dequeue}
use libcthreads.Queue.Window.{slot, slot-lt, slot-next, window, window-set, next_index-lt}
use libcthreads.Queue.Valid.{cells, contents, IsValid, Keeps}

-- In bounds, `write` replaces one cell and changes nothing else.
pub write-eq-set :
    (q : InternalQueue) (index : ℕ) (v : Pointer)
    → q.values_array ≡ some (cells q)
    → index < length (cells q)
    → write q index v ≡ some (record q { values_array = some (set (cells q) index v) })
unfolding write
write-eq-set q index v a h = ground (arith, set?-eq-set (cells q) index v h)

pub read-eq-get_or :
    (q : InternalQueue) (index : ℕ)
    → q.values_array ≡ some (cells q)
    → index < length (cells q)
    → read q index ≡ some (get_or (cells q) index null)
unfolding read
read-eq-get_or q index a h = ground (arith, get_elem?-eq-get_or (cells q) index null h)

-- The queue after `enqueue`.
abbrev appended : Pointer → InternalQueue → InternalQueue
appended v q = record q {
  values_array = some (set (cells q) q.push_index v);
  push_index = next_index q.allocated_number_of_values q.push_index;
  number_of_values = q.number_of_values + 1;
}

module _ {q : InternalQueue} (ok : IsValid q)
    (room : q.number_of_values ≢ q.allocated_number_of_values) where
  push_index-lt : q.push_index < length (cells q)
  push_index-lt = omega (
    arith,
    ok.counted,
    slot-lt q.allocated_number_of_values q.pop_index q.number_of_values ok.pop_in (omega arith),
  )

  enqueue-eq : (v : Pointer) → enqueue v q ≡ some (appended v q)
  unfolding enqueue pushed
  enqueue-eq v = rw (write-eq-set q q.push_index v ok.array push_index-lt)

  appended-IsValid : (v : Pointer) → IsValid (appended v q)
  appended-IsValid v = record {
    array = refl;
    allocated = length-set (cells q) q.push_index v ∙ ok.allocated;
    counted = omega (arith, ok.counted);
    pop_in = ok.pop_in;
    push_at =
        ap (next_index q.allocated_number_of_values) ok.push_at
        ∙ slot-next q.allocated_number_of_values q.pop_index q.number_of_values ok.pop_in
            (omega (arith, ok.counted));
  }

  contents-appended : (v : Pointer) → contents (appended v q) ≡ contents q ++ v ∷ []
  contents-appended v =
      ap₂ (λ n i. window (set (cells q) i v) q.allocated_number_of_values q.pop_index n)
        {y = suc q.number_of_values} (omega arith) ok.push_at
      ∙ window-set (cells q) q.allocated_number_of_values q.pop_index q.number_of_values v
          (omega (arith, ok.allocated)) ok.pop_in (omega (arith, ok.counted))

  -- On a valid queue with room, `enqueue` stays in bounds, appends the value and keeps the queue
  -- valid.
  pub enqueue_lem :
      (v : Pointer)
      → (q' : InternalQueue) × (enqueue v q ≡ some q')
        × IsValid q'
        × Keeps q q'
        × (contents q' ≡ contents q ++ v ∷ [])
  enqueue_lem v = (appended v q, enqueue-eq v, appended-IsValid v, omega arith, contents-appended v)

-- The queue after `dequeue`.
abbrev taken : InternalQueue → InternalQueue
taken q = record q {
  pop_index = next_index q.allocated_number_of_values q.pop_index;
  number_of_values = q.number_of_values - 1;
}

window_of_ne_zero :
    (values : List Pointer) (cap start n : ℕ)
    → n ≢ 0
    → window values cap start n
      ≡ get_or values start null ∷ window values cap (next_index cap start) (n - 1)
window_of_ne_zero values cap start zero p = absurd (p refl)
window_of_ne_zero values cap start (suc n) p =
    ap (λ k. get_or values start null ∷ window values cap (next_index cap start) k) (omega arith)

slot-taken :
    (cap start n : ℕ)
    → start < cap
    → n ≤ cap
    → n ≢ 0
    → slot cap start n ≡ slot cap (next_index cap start) (n - 1)
slot-taken cap start n hs hn ne = ground arith

-- On a valid queue with a value, `dequeue` stays in bounds, takes the oldest value off and keeps
-- the queue valid.
pub dequeue_lem :
    {q : InternalQueue}
    → IsValid q
    → q.number_of_values ≢ 0
    → (v : Pointer) × (q' : InternalQueue) × (dequeue q ≡ some (v, q'))
      × IsValid q'
      × Keeps q q'
      × (contents q ≡ v ∷ contents q')
unfolding dequeue
dequeue_lem {q} ok some_value = (
  get_or (cells q) q.pop_index null,
  taken q,
  rw (read-eq-get_or q q.pop_index ok.array (omega (arith, ok.allocated, ok.pop_in))),
  record {
    array = ok.array;
    allocated = ok.allocated;
    counted = omega (arith, ok.counted);
    pop_in = next_index-lt q.allocated_number_of_values q.pop_index ok.pop_in;
    push_at =
        ok.push_at
        ∙ slot-taken q.allocated_number_of_values q.pop_index q.number_of_values ok.pop_in
            ok.counted some_value;
  },
  omega arith,
  window_of_ne_zero (cells q) q.allocated_number_of_values q.pop_index q.number_of_values
      some_value,
)
