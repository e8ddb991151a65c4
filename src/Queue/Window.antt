-- ===== src/Queue/Window.antt =====
-- The values between the pop and the push index of a ring of cells, oldest first.
use libcthreads.Common.{
  ℕ, zero, suc, ◌+◌, ◌-◌, ◌≤◌, ◌<◌, ◌≡◌, refl, sym, ap, ap₂, ◌∙◌, List, [], ◌∷◌, ◌++◌, arith,
  length, get_or, set, leb, if◌then◌else◌, get_or-set_ne, get_or-set_self, get_or-ext,
}
use libcthreads.Machine.{Pointer, null}
use libcthreads.Queue.Ring.{next_index}

-- The index `i` places after `start`, going round at `cap`.
abbrev pub slot : ℕ → ℕ → ℕ → ℕ
slot cap start i = if leb cap (start + i) then start + i - cap else start + i

pub slot-lt : (cap start i : ℕ) → start < cap → i < cap → slot cap start i < cap
slot-lt cap start i h k = ground arith

pub slot-zero : (cap start : ℕ) → start < cap → slot cap start 0 ≡ start
slot-zero cap start h = ground arith

pub slot-next :
    (cap start i : ℕ)
    → start < cap
    → i < cap
    → next_index cap (slot cap start i) ≡ slot cap start (i + 1)
slot-next cap start i h k = ground arith

pub slot-suc :
    (cap start i : ℕ)
    → start < cap
    → i < cap
    → slot cap (next_index cap start) i ≡ slot cap start (suc i)
slot-suc cap start i h k = ground arith

pub slot-injective :
    (cap start i j : ℕ)
    → start < cap
    → i < cap
    → j < cap
    → slot cap start i ≡ slot cap start j
    → i ≡ j
slot-injective cap start i j h ki kj e = ground arith

pub next_index-lt : (cap i : ℕ) → i < cap → next_index cap i < cap
next_index-lt cap i h = ground arith

module _ (cells : List Pointer) (cap : ℕ) where
  -- The `n` values from index `start` on.
  abbrev pub window : ℕ → ℕ → List Pointer
  window start zero = []
  window start (suc n) = get_or cells start null ∷ window (next_index cap start) n

  pub length-window : (start n : ℕ) → length (window start n) ≡ n
  length-window start zero = refl
  length-window start (suc n) = ap suc (length-window (next_index cap start) n)

  pub get_or-window :
      (start n i : ℕ)
      → start < cap
      → n ≤ cap
      → i < n
      → get_or (window start n) i null ≡ get_or cells (slot cap start i) null
  get_or-window start zero i hs hn hi = absurd (omega arith)
  get_or-window start (suc n) zero hs hn hi =
      ap (λ k. get_or cells k null) (sym (slot-zero cap start hs))
  get_or-window start (suc n) (suc i) hs hn hi =
      get_or-window (next_index cap start) n i (next_index-lt cap start hs) (omega arith)
        (omega arith)
      ∙ ap (λ k. get_or cells k null) (slot-suc cap start i hs (omega arith))

-- Windows over two arrays that agree on the slots are equal.
pub window-ext :
    (cells cells' : List Pointer) (cap start n : ℕ)
    → start < cap
    → n ≤ cap
    → ((i : ℕ)
        → i < n
        → get_or cells' (slot cap start i) null ≡ get_or cells (slot cap start i) null)
    → window cells' cap start n ≡ window cells cap start n
window-ext cells cells' cap start n hs hn h =
    get_or-ext _ _ null (length-window cells' cap start n ∙ sym (length-window cells cap start n))
      λ i lt.
        let k : i < n = omega (arith, length-window cells' cap start n) in
        get_or-window cells' cap start n i hs hn k
        ∙ h i k
        ∙ sym (get_or-window cells cap start n i hs hn k)

pub window-snoc :
    (cells : List Pointer) (cap start n : ℕ)
    → start < cap
    → n < cap
    → window cells cap start (suc n)
      ≡ window cells cap start n ++ get_or cells (slot cap start n) null ∷ []
window-snoc cells cap start zero hs hn =
    ap (λ k. get_or cells k null ∷ []) (sym (slot-zero cap start hs))
window-snoc cells cap start (suc n) hs hn = ap (◌∷◌ (get_or cells start null)) (
    window-snoc cells cap (next_index cap start) n (next_index-lt cap start hs) (omega arith)
    ∙ ap (λ k. window cells cap (next_index cap start) n ++ get_or cells k null ∷ [])
        (slot-suc cap start n hs (omega arith)))

-- A write at the slot after the window extends it by the value.
pub window-set :
    (cells : List Pointer) (cap start n : ℕ) (v : Pointer)
    → cap ≤ length cells
    → start < cap
    → n < cap
    → window (set cells (slot cap start n) v) cap start (suc n) ≡ window cells cap start n ++ v ∷ []
window-set cells cap start n v hl hs hn =
    window-snoc (set cells (slot cap start n) v) cap start n hs hn
    ∙ ap₂ (λ xs x. xs ++ x ∷ [])
        (window-ext cells (set cells (slot cap start n) v) cap start n hs (omega arith) λ i lt.
          get_or-set_ne cells (slot cap start n) (slot cap start i) v null
            λ e. absurd (omega (arith, slot-injective cap start n i hs hn (omega arith) e)))
        (get_or-set_self cells (slot cap start n) v null (omega (arith, slot-lt cap start n hs hn)))
