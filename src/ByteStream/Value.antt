-- ===== src/ByteStream/Value.antt =====
-- What the copy_to macros compute, as the positional value of the bytes.
use Prim.Native.Nat.{bit_or}
use native.Mathlib.Nat.{div-add-mod', add-mul-mod_self_right}
use mathlib.Core.Option.{some-injective}
use libcthreads.Common.{
  ℕ, zero, suc, ◌+◌, ◌-◌, ◌*◌, ◌/◌, ◌%◌, ◌^◌, ◌≤◌, ◌<◌, ◌≡◌, ◌≢◌, refl, ◌∙◌, ap, sym, some, List,
  [], ◌∷◌, arith, length, get_or, get_elem?-eq-get_or,
}
use libcthreads.ByteStream.Bits.{bit_or-add, zero-bit_or, le-bit_or, bit_or-lt}
use libcthreads.ByteStream.Copy.{
  shift_in, shift_all, assign, combine, Size, uint16, uint24, uint32, uint48, uint64, Order, big,
  little, copy_to, size, StartsClean, copy_to_uint16_big_endian, copy_to_uint16_little_endian,
  copy_to_uint24_big_endian, copy_to_uint24_little_endian, copy_to_uint32_big_endian,
  copy_to_uint32_little_endian, copy_to_uint48_big_endian, copy_to_uint48_little_endian,
  copy_to_uint64_big_endian, copy_to_uint64_little_endian,
}

-- The elements of a stream are bytes.
abbrev pub AllBytes : List ℕ → Type 0
AllBytes [] = Unit {0}
AllBytes (b ∷ bs) = (b < 256) × AllBytes bs

-- The exponent of 256 at byte `i` of `n`.
abbrev pub weight : Order → ℕ → ℕ → ℕ
weight big n i = n - 1 - i
weight little n i = i

-- The first `k` of the `n` bytes of a number, each times its power of 256, added up.
abbrev sum_of : Order → ℕ → List ℕ → ℕ → ℕ
sum_of o n bytes zero = 0
sum_of o n bytes (suc k) = sum_of o n bytes k + get_or bytes k 0 * 256 ^ weight o n k

-- The number whose digits to the base 256 are the first `n` bytes.
abbrev pub value_of : Order → ℕ → List ℕ → ℕ
value_of o n bytes = sum_of o n bytes n

abbrev InBounds : List ℕ → ℕ → Type 0
InBounds [] n = Unit {0}
InBounds (i ∷ is) n = (i < n) × InBounds is n

-- Multiply by 256 and add, for each index in turn.
abbrev horner : List ℕ → List ℕ → ℕ → ℕ
horner bytes [] a = a
horner bytes (i ∷ is) a = horner bytes is (a * 256 + get_or bytes i 0)

get_or-lt : (bytes : List ℕ) → AllBytes bytes → (i : ℕ) → get_or bytes i 0 < 256
get_or-lt [] h i = omega arith
get_or-lt (b ∷ bs) h zero = h.0
get_or-lt (b ∷ bs) h (suc i) = get_or-lt bs h.1 i

mod_step : (m a b : ℕ) → (a % m * 256 + b) % m ≡ (a * 256 + b) % m
mod_step m a b =
    sym (add-mul-mod_self_right (a % m * 256 + b) (a / m * 256) m)
    ∙ ap (λ t. t % m) (grind (arith, div-add-mod' a m))

module _ (width : ℕ)
    (step : (a b : ℕ) → b < 256 → shift_in width a b ≡ (a * 256 + b) % 2 ^ width) where
  -- In a variable that wraps around, shifting in computes the value modulo 2 ^ width.
  shift_all-horner :
      (bytes : List ℕ) (is : List ℕ) (a : ℕ)
      → InBounds is (length bytes)
      → AllBytes bytes
      → shift_all width bytes is (a % 2 ^ width) ≡ some (horner bytes is a % 2 ^ width)
  unfolding shift_all
  shift_all-horner bytes [] a h all = refl
  shift_all-horner bytes (i ∷ is) a h all =
      let b = get_or bytes i 0 in
      rw
        (
          get_elem?-eq-get_or bytes i 0 h.0,
          step (a % 2 ^ width) b (get_or-lt bytes all i),
          mod_step (2 ^ width) a b,
        )
        (shift_all-horner bytes is (a * 256 + b) h.1 all)

  shift_all-cons :
      (bytes : List ℕ) (i : ℕ) (is : List ℕ) (a : ℕ)
      → InBounds (i ∷ is) (length bytes)
      → AllBytes bytes
      → shift_all width bytes (i ∷ is) a ≡ some (horner bytes (i ∷ is) a % 2 ^ width)
  unfolding shift_all
  shift_all-cons bytes i is a h all =
      rw (get_elem?-eq-get_or bytes i 0 h.0, step a (get_or bytes i 0) (get_or-lt bytes all i))
        (shift_all-horner bytes is (a * 256 + get_or bytes i 0) h.1 all)

  assign-horner :
      (bytes : List ℕ) (i j : ℕ) (is : List ℕ)
      → InBounds (i ∷ j ∷ is) (length bytes)
      → AllBytes bytes
      → assign width bytes i (j ∷ is) ≡ some (horner bytes (j ∷ is) (get_or bytes i 0) % 2 ^ width)
  unfolding assign
  assign-horner bytes i j is h all =
      rw (get_elem?-eq-get_or bytes i 0 h.0) (shift_all-cons bytes j is (get_or bytes i 0) h.1 all)

  combine-horner :
      (bytes : List ℕ) (i j : ℕ) (is : List ℕ) (value : ℕ)
      → InBounds (i ∷ j ∷ is) (length bytes)
      → AllBytes bytes
      → combine width bytes i (j ∷ is) value
        ≡ some (horner bytes (j ∷ is) (bit_or value (get_or bytes i 0)) % 2 ^ width)
  unfolding combine
  combine-horner bytes i j is value h all =
      rw (get_elem?-eq-get_or bytes i 0 h.0)
        (shift_all-cons bytes j is (bit_or value (get_or bytes i 0)) h.1 all)

-- The three widths of variables.
step_16 : (a b : ℕ) → b < 256 → shift_in 16 a b ≡ (a * 256 + b) % 2 ^ 16
unfolding shift_in
step_16 a b h =
    ap (λ t. bit_or t b) {y = (a % 256) * 2 ^ 8} (omega arith)
    ∙ bit_or-add 8 (a % 256) b h
    ∙ omega arith

step_32 : (a b : ℕ) → b < 256 → shift_in 32 a b ≡ (a * 256 + b) % 2 ^ 32
unfolding shift_in
step_32 a b h =
    ap (λ t. bit_or t b) {y = (a % 2 ^ 24) * 2 ^ 8} (omega arith)
    ∙ bit_or-add 8 (a % 2 ^ 24) b h
    ∙ omega arith

step_64 : (a b : ℕ) → b < 256 → shift_in 64 a b ≡ (a * 256 + b) % 2 ^ 64
unfolding shift_in
step_64 a b h =
    ap (λ t. bit_or t b) {y = (a % 2 ^ 56) * 2 ^ 8} (omega arith)
    ∙ bit_or-add 8 (a % 2 ^ 56) b h
    ∙ omega arith

-- Each copy_to macro gives the number whose base-256 digits are the first bytes of the stream, in
-- the order that the macro names, wherever the stream is long enough; the little-endian 48-bit
-- macro does so where the variable holds 0 before.
pub copy_to-eq-value_of :
    (s : Size) (o : Order) (bytes : List ℕ) (value : ℕ)
    → AllBytes bytes
    → size s ≤ length bytes
    → StartsClean s o value
    → copy_to s o bytes value ≡ some (value_of o (size s) bytes)
unfolding copy_to_uint16_big_endian copy_to_uint16_little_endian copy_to_uint24_big_endian
    copy_to_uint24_little_endian copy_to_uint32_big_endian copy_to_uint32_little_endian
    copy_to_uint48_big_endian copy_to_uint48_little_endian copy_to_uint64_big_endian
    copy_to_uint64_little_endian
copy_to-eq-value_of uint16 big bytes value all long clean =
    assign-horner 16 step_16 bytes 0 1 [] (omega arith) all
    ∙ ap some (omega (arith, get_or-lt bytes all))
copy_to-eq-value_of uint16 little bytes value all long clean =
    assign-horner 16 step_16 bytes 1 0 [] (omega arith) all
    ∙ ap some (omega (arith, get_or-lt bytes all))
copy_to-eq-value_of uint24 big bytes value all long clean =
    assign-horner 32 step_32 bytes 0 1 (2 ∷ []) (omega arith) all
    ∙ ap some (omega (arith, get_or-lt bytes all))
copy_to-eq-value_of uint24 little bytes value all long clean =
    assign-horner 32 step_32 bytes 2 1 (0 ∷ []) (omega arith) all
    ∙ ap some (omega (arith, get_or-lt bytes all))
copy_to-eq-value_of uint32 big bytes value all long clean =
    assign-horner 32 step_32 bytes 0 1 (2 ∷ 3 ∷ []) (omega arith) all
    ∙ ap some (omega (arith, get_or-lt bytes all))
copy_to-eq-value_of uint32 little bytes value all long clean =
    assign-horner 32 step_32 bytes 3 2 (1 ∷ 0 ∷ []) (omega arith) all
    ∙ ap some (omega (arith, get_or-lt bytes all))
copy_to-eq-value_of uint48 big bytes value all long clean =
    assign-horner 64 step_64 bytes 0 1 (2 ∷ 3 ∷ 4 ∷ 5 ∷ []) (omega arith) all
    ∙ ap some (omega (arith, get_or-lt bytes all))
copy_to-eq-value_of uint48 little bytes value all long clean =
    combine-horner 64 step_64 bytes 5 4 (3 ∷ 2 ∷ 1 ∷ 0 ∷ []) value (omega arith) all
    ∙ rw (clean, zero-bit_or (get_or bytes 5 0)) (ap some (omega (arith, get_or-lt bytes all)))
copy_to-eq-value_of uint64 big bytes value all long clean =
    assign-horner 64 step_64 bytes 0 1 (2 ∷ 3 ∷ 4 ∷ 5 ∷ 6 ∷ 7 ∷ []) (omega arith) all
    ∙ ap some (omega (arith, get_or-lt bytes all))
copy_to-eq-value_of uint64 little bytes value all long clean =
    assign-horner 64 step_64 bytes 7 6 (5 ∷ 4 ∷ 3 ∷ 2 ∷ 1 ∷ 0 ∷ []) (omega arith) all
    ∙ ap some (omega (arith, get_or-lt bytes all))

-- The first step of byte_stream_copy_to_uint48_little_endian is `|=`: where the variable holds a
-- number from 256 on and below 2 ^ 24 before, the result is not the number that the bytes stand for.
pub copy_to_uint48_little_endian-keeps :
    (bytes : List ℕ) (value : ℕ)
    → AllBytes bytes
    → 6 ≤ length bytes
    → 256 ≤ value
    → value < 2 ^ 24
    → copy_to_uint48_little_endian bytes value ≢ some (value_of little 6 bytes)
unfolding copy_to_uint48_little_endian
copy_to_uint48_little_endian-keeps bytes value all long from_256 to_24 same =
    let top = get_or bytes 5 0 in
    let wrong = some-injective _ _ (
      sym (combine-horner 64 step_64 bytes 5 4 (3 ∷ 2 ∷ 1 ∷ 0 ∷ []) value (omega arith) all)
      ∙ same) in
    omega (
      arith,
      get_or-lt bytes all,
      le-bit_or value top,
      bit_or-lt 24 value top to_24 (omega (arith, get_or-lt bytes all 5)),
      wrong,
    )
