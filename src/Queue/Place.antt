-- ===== src/Queue/Place.antt =====
-- Writing a value where room was made for it, in the list of values.
use libcthreads.Common.{
  ℕ, zero, suc, ◌-◌, ◌≤◌, ◌<◌, ◌≡◌, ◌≢◌, refl, ap, ◌∙◌, List, [], ◌∷◌, arith, length, get_or, set,
  get_or-set_self, get_or-set_ne, get_or-ext, ltb, ◌==◌, if◌then◌else◌,
}
use libcthreads.Machine.{Pointer, null}
use libcthreads.Queue.Window.{slot, slot-lt, slot-injective, window, length-window, get_or-window}
use libcthreads.Queue.Room.{HasRoom}
use libcthreads.Queue.Order.{insert_nth}

length-insert_nth :
    (n : ℕ) (v : Pointer) (xs : List Pointer) → length (insert_nth n v xs) ≡ suc (length xs)
length-insert_nth zero v xs = refl
length-insert_nth (suc n) v [] = refl
length-insert_nth (suc n) v (x ∷ xs) = ap suc (length-insert_nth n v xs)

get_or-cons :
    (x : Pointer) (xs : List Pointer) (i : ℕ)
    → i ≢ 0
    → get_or (x ∷ xs) i null ≡ get_or xs (i - 1) null
get_or-cons x xs zero h = absurd (h refl)
get_or-cons x xs (suc i) h = ap (λ k. get_or xs k null) (omega arith)

get_or-insert_nth :
    (n : ℕ) (v : Pointer) (xs : List Pointer) (i : ℕ)
    → n ≤ length xs
    → get_or (insert_nth n v xs) i null
      ≡ (if ltb i n then get_or xs i null else if i == n then v else get_or xs (i - 1) null)
get_or-insert_nth zero v xs zero h = ground arith
get_or-insert_nth zero v xs (suc i) h = let e : suc i - 1 ≡ i = omega arith in ground (arith, e)
get_or-insert_nth (suc n) v [] i h = absurd (omega arith)
get_or-insert_nth (suc n) v (x ∷ xs) zero h = ground arith
get_or-insert_nth (suc n) v (x ∷ xs) (suc i) h =
    ground (arith, get_or-insert_nth n v xs i, get_or-cons x xs i)

-- The value of place `i` once the new one is written where room was made for it.
cell-insert :
    (cap start j n : ℕ) (values values' : List Pointer) (v : Pointer)
    → HasRoom cap start j n values values'
    → start < cap
    → j ≤ n
    → n < cap
    → length values ≡ cap
    → (i : ℕ) → i ≤ n
    → get_or (set values' (slot cap start j) v) (slot cap start i) null ≡ (
        if ltb i j
        then get_or values (slot cap start i) null
        else if i == j
        then v
        else get_or values (slot cap start (i - 1)) null)
cell-insert cap start j n values values' v room hs hj hn hl i hi = ground (
  arith,
  room.same_length,
  room.cell i (omega arith),
  slot-lt cap start j hs,
  slot-injective cap start j i hs,
  get_or-set_self values' (slot cap start j) v null,
  get_or-set_ne values' (slot cap start j) (slot cap start i) v null,
)

pub window-insert :
    (cap start j n : ℕ) (values values' : List Pointer) (v : Pointer)
    → HasRoom cap start j n values values'
    → start < cap
    → j ≤ n
    → n < cap
    → length values ≡ cap
    → window (set values' (slot cap start j) v) cap start (suc n)
      ≡ insert_nth j v (window values cap start n)
window-insert cap start j n values values' v room hs hj hn hl = get_or-ext _ _ null same λ i lt.
    let le : i ≤ n = omega (arith, length-window after cap start (suc n)) in
    get_or-window after cap start (suc n) i hs hn (omega arith)
    ∙ cell-insert cap start j n values values' v room hs hj hn hl i le
    ∙ ground (
      arith,
      get_or-insert_nth j v (window values cap start n) i,
      length-window values cap start n,
      get_or-window values cap start n i,
      get_or-window values cap start n (i - 1),
    )
  where
    after : List Pointer
    after = set values' (slot cap start j) v

    same :
        length (window after cap start (suc n))
        ≡ length (insert_nth j v (window values cap start n))
    same = omega (
      arith,
      length-window after cap start (suc n),
      length-window values cap start n,
      length-insert_nth j v (window values cap start n),
    )
