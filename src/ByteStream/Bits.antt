-- ===== src/ByteStream/Bits.antt =====
-- The C operators `|` and `&` on unsigned integers, as arithmetic.
use Prim.Native.Nat.{min, max, bit_or, digits, bit_and-bitwise, bit_or-bitwise}
use native.Mathlib.Nat.{pow-suc, mul_assoc}
use libcthreads.Common.{
  ℕ, zero, suc, ◌+◌, ◌*◌, ◌/◌, ◌%◌, ◌^◌, ◌≤◌, ◌<◌, ◌≡◌, refl, ◌∙◌, ap, sym, arith, bit_and,
  Bool-cases, inl, inr, ◌==◌,
}

-- An operator that combines binary digits: `f` those that both numbers have, and `rest` the digits
-- of the second that are left. The library's definition has the first number for its fuel.
module _ (rest : ℕ → ℕ) (f : ℕ → ℕ → ℕ) where
  -- One more round than the number itself is not used.
  one_more : (fuel a b : ℕ) → a ≤ fuel → digits rest f (suc fuel) a b ≡ digits rest f fuel a b
  one_more zero zero b h = refl
  one_more zero (suc a) b h = absurd (omega arith)
  one_more (suc fuel) zero b h = refl
  one_more (suc fuel) (suc a) b h =
      ap (λ t. t * 2 + f (suc a % 2) (b % 2)) (one_more fuel (suc a / 2) (b / 2) (omega arith))

  least_fuel : (fuel a b : ℕ) → a ≤ fuel → digits rest f fuel a b ≡ digits rest f a a b
  least_fuel zero a b h = let e : a ≡ 0 = omega arith in rw e
  least_fuel (suc fuel) a b h = elim (Bool-cases (a == suc fuel)) [
    | inl all ↦ let e : a ≡ suc fuel = ground arith in rw e
    | inr fewer ↦ one_more fuel a b (ground arith) ∙ least_fuel fuel a b (ground arith)
  ]

  module _ (op : ℕ → ℕ → ℕ) (means : (a b : ℕ) → op a b ≡ digits rest f a a b)
      (rest_step : (b : ℕ) → rest b ≡ rest (b / 2) * 2 + f 0 (b % 2)) where
    -- One binary digit.
    lowest_digit : (a b : ℕ) → op a b ≡ op (a / 2) (b / 2) * 2 + f (a % 2) (b % 2)
    lowest_digit zero b = means 0 b ∙ rest_step b ∙ omega (arith, means 0 (b / 2))
    lowest_digit (suc a) b =
        means (suc a) b
        ∙ omega (arith, least_fuel a (suc a / 2) (b / 2) (omega arith), means (suc a / 2) (b / 2))

bit_or_step : (a b : ℕ) → bit_or a b ≡ bit_or (a / 2) (b / 2) * 2 + max (a % 2) (b % 2)
bit_or_step = lowest_digit (λ b. b) max bit_or (λ a b. bit_or-bitwise a b) (λ b. omega arith)

bit_and_step : (a b : ℕ) → bit_and a b ≡ bit_and (a / 2) (b / 2) * 2 + min (a % 2) (b % 2)
bit_and_step = lowest_digit (λ b. 0) min bit_and (λ a b. bit_and-bitwise a b) (λ b. omega arith)

pub zero-bit_or : (b : ℕ) → bit_or 0 b ≡ b
zero-bit_or b = bit_or-bitwise 0 b

-- With no digits in the second number, by induction on a bound for the first.
bit_or-zero_below : (bound a : ℕ) → a ≤ bound → bit_or a 0 ≡ a
bit_or-zero_below zero a h = let e : a ≡ 0 = omega arith in rw e
bit_or-zero_below (suc bound) a h = elim (Bool-cases (a == 0)) [
  | inl nothing ↦ let e : a ≡ 0 = ground arith in rw e
  | inr some_bit ↦
      let half = bit_or-zero_below bound (a / 2) (ground arith) in
      omega (arith, bit_or_step a 0, half)
]

bit_and-zero_below : (bound a : ℕ) → a ≤ bound → bit_and a 0 ≡ 0
bit_and-zero_below zero a h = let e : a ≡ 0 = omega arith in rw e
bit_and-zero_below (suc bound) a h = elim (Bool-cases (a == 0)) [
  | inl nothing ↦ let e : a ≡ 0 = ground arith in rw e
  | inr some_bit ↦
      let half = bit_and-zero_below bound (a / 2) (ground arith) in
      omega (arith, bit_and_step a 0, half)
]

double_power : (q k : ℕ) → q * 2 ^ suc k ≡ q * 2 ^ k * 2
double_power q k = ap (λ t. q * t) (pow-suc 2 k) ∙ sym (mul_assoc q (2 ^ k) 2)

-- An even number has no lowest digit.
bit_or-double : (m r : ℕ) → bit_or m (r / 2) ≡ m + r / 2 → bit_or (m * 2) r ≡ m * 2 + r
bit_or-double m r h =
    let half : m * 2 / 2 ≡ m = omega arith in
    omega (arith, bit_or_step (m * 2) r, ap (λ t. bit_or t (r / 2)) half)

double-bit_or : (m r : ℕ) → bit_or (r / 2) m ≡ r / 2 + m → bit_or r (m * 2) ≡ r + m * 2
double-bit_or m r h =
    let half : m * 2 / 2 ≡ m = omega arith in
    omega (arith, bit_or_step r (m * 2), ap (λ t. bit_or (r / 2) t) half)

half-lt : (k r : ℕ) → r < 2 ^ suc k → r / 2 < 2 ^ k
half-lt k r h = omega (arith, pow-suc 2 k)

-- The digits of a multiple of 2 ^ k and of a number below 2 ^ k do not overlap.
pub bit_or-add : (k q r : ℕ) → r < 2 ^ k → bit_or (q * 2 ^ k) r ≡ q * 2 ^ k + r
bit_or-add zero q r h =
    let none_left : r ≡ 0 = omega arith in
    rw none_left (bit_or-zero_below (q * 1) (q * 1) (omega arith) ∙ omega arith)
bit_or-add (suc k) q r h =
    rw (double_power q k) (bit_or-double (q * 2 ^ k) r (bit_or-add k q (r / 2) (half-lt k r h)))

pub add-bit_or : (k q r : ℕ) → r < 2 ^ k → bit_or r (q * 2 ^ k) ≡ r + q * 2 ^ k
add-bit_or zero q r h =
    let none_left : r ≡ 0 = omega arith in rw none_left (zero-bit_or (q * 1) ∙ omega arith)
add-bit_or (suc k) q r h =
    rw (double_power q k) (double-bit_or (q * 2 ^ k) r (add-bit_or k q (r / 2) (half-lt k r h)))

-- `|` sets bits and clears none.
le-bit_or_below : (bound a b : ℕ) → a ≤ bound → a ≤ bit_or a b
le-bit_or_below zero a b h = omega arith
le-bit_or_below (suc bound) a b h = elim (Bool-cases (a == 0)) [
  | inl nothing ↦ ground arith
  | inr some_bit ↦
      let half = le-bit_or_below bound (a / 2) (b / 2) (ground arith) in
      omega (arith, bit_or_step a b, half)
]

pub le-bit_or : (a b : ℕ) → a ≤ bit_or a b
le-bit_or a b = le-bit_or_below a a b (omega arith)

-- `|` needs no more bits than its arguments.
pub bit_or-lt : (k a b : ℕ) → a < 2 ^ k → b < 2 ^ k → bit_or a b < 2 ^ k
bit_or-lt zero a b h g =
    let first : a ≡ 0 = omega arith in
    let second : b ≡ 0 = omega arith in rw (first, second) (omega arith)
bit_or-lt (suc k) a b h g = omega (
  arith,
  pow-suc 2 k,
  bit_or_step a b,
  bit_or-lt k (a / 2) (b / 2) (half-lt k a h) (half-lt k b g),
)

-- A mask of one more digit keeps one more.
wider_mask :
    (mask m a : ℕ)
    → ((b : ℕ) → bit_and b mask ≡ b % m)
    → (mask * 2 + 1) / 2 ≡ mask
    → bit_and a (mask * 2 + 1) ≡ a / 2 % m * 2 + a % 2
wider_mask mask m a narrower half =
    bit_and_step a (mask * 2 + 1) ∙ omega (arith, ap (bit_and (a / 2)) half, narrower (a / 2))

mask_1 : (a : ℕ) → bit_and a 1 ≡ a % 2
mask_1 a = omega (arith, bit_and_step a 1, bit_and-zero_below (a / 2) (a / 2) (omega arith))

mask_3 : (a : ℕ) → bit_and a 3 ≡ a % 4
mask_3 a = wider_mask 1 2 a mask_1 refl ∙ omega arith

mask_7 : (a : ℕ) → bit_and a 7 ≡ a % 8
mask_7 a = wider_mask 3 4 a mask_3 refl ∙ omega arith

mask_15 : (a : ℕ) → bit_and a 15 ≡ a % 16
mask_15 a = wider_mask 7 8 a mask_7 refl ∙ omega arith

mask_31 : (a : ℕ) → bit_and a 31 ≡ a % 32
mask_31 a = wider_mask 15 16 a mask_15 refl ∙ omega arith

mask_63 : (a : ℕ) → bit_and a 63 ≡ a % 64
mask_63 a = wider_mask 31 32 a mask_31 refl ∙ omega arith

mask_127 : (a : ℕ) → bit_and a 127 ≡ a % 128
mask_127 a = wider_mask 63 64 a mask_63 refl ∙ omega arith

-- `& 0x0ff` keeps the lowest byte.
pub bit_and_byte : (a : ℕ) → bit_and a 0x0ff ≡ a % 256
bit_and_byte a = wider_mask 127 128 a mask_127 refl ∙ omega arith
