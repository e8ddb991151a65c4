-- ===== src/ByteStream/Rotations.antt =====
-- The rotation macros as arithmetic: the value's high part and its low part change places.
use native.Mathlib.Nat.{pow-le-pow_right, one-le-pow, div-add-mod', mod-eq_of_lt, mul-le-mul}
use libcthreads.Common.{
  ℕ, ◌+◌, ◌-◌, ◌*◌, ◌/◌, ◌%◌, ◌^◌, ◌≤◌, ◌<◌, ◌≡◌, refl, ◌∙◌, ap, sym, Option, none, some, arith,
  ltb, leb, true, false, Bool-cases, inl, inr,
}
use libcthreads.ByteStream.Bits.{bit_or-add, add-bit_or}
use libcthreads.ByteStream.Turned.{
  pow_add, rest-lt, low-lt, shifted, joined, turned-div, turned-mod, turned,
}
use libcthreads.ByteStream.Rotate.{
  promoted, shift_left, shift_right, byte_stream_bit_rotate_left, byte_stream_bit_rotate_right,
}

-- The widths of the macros' values.
pub data Word : Type 0 where
  uint8_t uint16_t uint32_t uint64_t : Word

abbrev pub bits_of : Word → ℕ
bits_of uint8_t = 8
bits_of uint16_t = 16
bits_of uint32_t = 32
bits_of uint64_t = 64

narrow_le : (w : Word) → bits_of w < 32 → bits_of w ≤ 16
narrow_le uint8_t h = omega arith
narrow_le uint16_t h = omega arith
narrow_le uint32_t h = absurd (omega arith)
narrow_le uint64_t h = absurd (omega arith)

narrow_lt : (w : Word) (x : ℕ) → bits_of w < 32 → x < 2 ^ bits_of w → x < 65536
narrow_lt uint8_t x h g = omega arith
narrow_lt uint16_t x h g = omega arith
narrow_lt uint32_t x h g = absurd (omega arith)
narrow_lt uint64_t x h g = absurd (omega arith)

module _ (w : Word) (n m : ℕ) (hn : 0 < n) (hm : 0 < m) (whole : m + n ≡ bits_of w) (x : ℕ)
    (h : x < 2 ^ bits_of w) where
  whole_power : 2 ^ m * 2 ^ n ≡ 2 ^ bits_of w
  whole_power = sym (pow_add m n) ∙ ap (λ t. 2 ^ t) whole

  turned-lt : turned m n x < 2 ^ bits_of w
  turned-lt = omega (
    arith,
    whole_power,
    low-lt (2 ^ m) (2 ^ n) x (one-le-pow m 2 (omega arith)) (one-le-pow n 2 (omega arith))
        (omega (arith, whole_power)),
  )

  shift_left-wide : 32 ≤ bits_of w → shift_left (bits_of w) x n ≡ some (x % 2 ^ m * 2 ^ n)
  unfolding shift_left
  shift_left-wide wide =
      let short : ltb (bits_of w) 32 ≡ false = ground arith in
      let inside : ltb n (bits_of w) ≡ true = ground arith in
      rw (short, inside)
        (ap some (
          ap (λ t. x * 2 ^ n % t) (sym whole_power)
          ∙ shifted (2 ^ m) (2 ^ n) x (one-le-pow m 2 (omega arith)) (one-le-pow n 2 (omega arith))
              (omega (arith, whole_power))))

  small-lt : bits_of w < 32 → x * 2 ^ n < 2 ^ 31
  small-lt narrow = omega (
    arith,
    mul-le-mul {n₁ = x} {m₁ = 2 ^ n} {n₂ = 65535} {m₂ = 2 ^ 15}
        (omega (arith, narrow_lt w x narrow h))
        (pow-le-pow_right {n = 2} (omega arith) {i = n} {j = 15}
          (omega (arith, narrow_le w narrow))),
  )

  shift_left-narrow : bits_of w < 32 → shift_left (bits_of w) x n ≡ some (x * 2 ^ n)
  unfolding shift_left
  shift_left-narrow narrow =
      let short : ltb (bits_of w) 32 ≡ true = ground arith in
      let inside : ltb n 32 ≡ true = ground arith in
      let fits : ltb (x * 2 ^ n) (2 ^ 31) ≡ true = ground (arith, small-lt narrow) in
      rw (short, inside, fits) refl

  shift_right-eq : shift_right (bits_of w) x m ≡ some (x / 2 ^ m)
  unfolding shift_right promoted
  shift_right-eq = elim (Bool-cases (ltb (bits_of w) 32)) [
    | inl narrow ↦ let inside : ltb m 32 ≡ true = ground arith in rw (narrow, inside) refl
    | inr wide ↦ let inside : ltb m (bits_of w) ≡ true = ground arith in rw (wide, inside) refl
  ]

  low_part-lt : x / 2 ^ m < 2 ^ n
  low_part-lt =
      rest-lt (2 ^ m) (2 ^ n) x (one-le-pow m 2 (omega arith)) (one-le-pow n 2 (omega arith))
        (omega (arith, whole_power))

  -- What `<<` leaves above the other bits, and what becomes of it in the variable.
  shift_left_lem :
      (q : ℕ) × (shift_left (bits_of w) x n ≡ some (q * 2 ^ n))
      × ((q * 2 ^ n + x / 2 ^ m) % 2 ^ bits_of w ≡ turned m n x)
      × (32 ≤ bits_of w → q * 2 ^ n + x / 2 ^ m < 2 ^ bits_of w)
  shift_left_lem = elim (Bool-cases (ltb (bits_of w) 32)) [
    | inl narrow ↦ (
      x,
      shift_left-narrow (ground arith),
      ap (λ t. (x * 2 ^ n + x / 2 ^ m) % t) (sym whole_power)
          ∙ joined (2 ^ m) (2 ^ n) x (one-le-pow m 2 (omega arith)) (one-le-pow n 2 (omega arith))
              (omega (arith, whole_power)),
      λ wide. ground arith,
    )
    | inr wide ↦ (x % 2 ^ m, shift_left-wide (ground arith), mod-eq_of_lt turned-lt, λ g. turned-lt)
  ]

module _ (w : Word) (x n : ℕ) (h : x < 2 ^ bits_of w) (hn : 0 < n) (inside : n < bits_of w) where
  -- What a rotation leaves: cut to the width it is `z`, and a wide one needs no cut.
  abbrev pub Gives : Option ℕ → ℕ → Type 0
  Gives r z =
      (y : ℕ) × (r ≡ some y) × (y % 2 ^ bits_of w ≡ z) × (32 ≤ bits_of w → y < 2 ^ bits_of w)

  -- In the range where C defines both shifts, a rotation to the left moves the upper `n` bits below
  -- the others.
  byte_stream_bit_rotate_left_lem :
      Gives (byte_stream_bit_rotate_left (bits_of w) x n) (turned (bits_of w - n) n x)
  unfolding byte_stream_bit_rotate_left
  byte_stream_bit_rotate_left_lem =
      let m = bits_of w - n in
      let fits : leb n (bits_of w) ≡ true = ground arith in
      let (q, runs, is_turned, within) = shift_left_lem w n m hn (omega arith) (omega arith) x h in
      rw
        (
          fits,
          runs,
          shift_right-eq w n m hn (omega arith) (omega arith) x h,
          bit_or-add n q (x / 2 ^ m) (low_part-lt w n m hn (omega arith) (omega arith) x h),
        )
        (q * 2 ^ n + x / 2 ^ m, refl, is_turned, within)

  -- A rotation to the right moves the lower `n` bits above the others.
  byte_stream_bit_rotate_right_lem :
      Gives (byte_stream_bit_rotate_right (bits_of w) x n) (turned n (bits_of w - n) x)
  unfolding byte_stream_bit_rotate_right
  byte_stream_bit_rotate_right_lem =
      let m = bits_of w - n in
      let fits : leb n (bits_of w) ≡ true = ground arith in
      let (q, runs, is_turned, within) = shift_left_lem w m n (omega arith) hn (omega arith) x h in
      rw
        (
          fits,
          runs,
          shift_right-eq w m n (omega arith) hn (omega arith) x h,
          add-bit_or m q (x / 2 ^ n) (low_part-lt w m n (omega arith) hn (omega arith) x h),
        )
        (
          x / 2 ^ n + q * 2 ^ m,
          refl,
          ap (λ t. t % 2 ^ bits_of w) {y = q * 2 ^ m + x / 2 ^ n} (omega arith) ∙ is_turned,
          λ wide. omega (arith, within wide),
        )

  turned-turned : turned n (bits_of w - n) (turned (bits_of w - n) n x) ≡ x
  turned-turned =
      let m = bits_of w - n in
      let below : x < 2 ^ m * 2 ^ n =
        omega (arith, whole_power w n m hn (omega arith) (omega arith) x h) in
      rw
        (
          turned-div (2 ^ m) (2 ^ n) x (one-le-pow m 2 (omega arith)) (one-le-pow n 2 (omega arith))
              below,
          turned-mod (2 ^ m) (2 ^ n) x (one-le-pow m 2 (omega arith)) (one-le-pow n 2 (omega arith))
              below,
        )
        (div-add-mod' x (2 ^ m))

-- Where 0 < n and n is below the width, both rotations of a value of 8, 16, 32 or 64 bits are
-- defined. Stored in a variable of the value's type, the one to the left has the upper `n` bits below
-- the others, and the one to the right by `n` of that gives back the value. A rotation of 32 or 64
-- bits stays within the width also where it is not stored.
pub rotate_right-rotate_left :
    (w : Word) (x n : ℕ)
    → x < 2 ^ bits_of w
    → 0 < n
    → n < bits_of w
    → (y z : ℕ) × (byte_stream_bit_rotate_left (bits_of w) x n ≡ some y)
      × (y % 2 ^ bits_of w ≡ turned (bits_of w - n) n x)
      × (byte_stream_bit_rotate_right (bits_of w) (y % 2 ^ bits_of w) n ≡ some z)
      × (z % 2 ^ bits_of w ≡ x)
      × (32 ≤ bits_of w → (y < 2 ^ bits_of w) × (z < 2 ^ bits_of w))
rotate_right-rotate_left w x n h hn inside =
    let m = bits_of w - n in
    let y_lt = turned-lt w n m hn (omega arith) (omega arith) x h in
    let (y, left, stored, y_within) = byte_stream_bit_rotate_left_lem w x n h hn inside in
    let (z, right, back, z_within) =
      byte_stream_bit_rotate_right_lem w (turned m n x) n y_lt hn inside in
    (
      y,
      z,
      left,
      stored,
      ap (λ t. byte_stream_bit_rotate_right (bits_of w) t n) stored ∙ right,
      back ∙ turned-turned w x n h hn inside,
      λ wide. (y_within wide, z_within wide),
    )

-- A 32 or a 64-bit value cannot be rotated by 0: the other shift is by the whole width.
pub byte_stream_bit_rotate-zero :
    (w : Word) (x : ℕ)
    → 32 ≤ bits_of w
    → (byte_stream_bit_rotate_left (bits_of w) x 0 ≡ none)
      × (byte_stream_bit_rotate_right (bits_of w) x 0 ≡ none)
unfolding byte_stream_bit_rotate_left byte_stream_bit_rotate_right shift_left shift_right promoted
byte_stream_bit_rotate-zero uint8_t x wide = absurd (omega arith)
byte_stream_bit_rotate-zero uint16_t x wide = absurd (omega arith)
byte_stream_bit_rotate-zero uint32_t x wide = (refl, refl)
byte_stream_bit_rotate-zero uint64_t x wide = (refl, refl)
