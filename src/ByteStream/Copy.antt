-- ===== src/ByteStream/Copy.antt =====
-- common/byte_stream.h: the copy macros. A stream is the bytes that a pointer leads to; a read or a
-- write outside of them is undefined in C and `none` here. A macro that names a 16, 24, 32, 48 or
-- 64-bit value is taken with a variable of 16, 32, 32, 64 or 64 bits.
use Prim.Native.Nat.{bit_or}
use libcthreads.Common.{
  ℕ, ◌*◌, ◌/◌, ◌%◌, ◌^◌, ◌≡◌, Option, none, some, List, [], ◌∷◌, bit_and, get_elem?, set?,
}

infixl 5 ◌>>=◌
abbrev pub ◌>>=◌ {ℓ κ} : {A : Type ℓ} {B : Type κ} → Option A → (A → Option B) → Option B
none >>= f = none
some a >>= f = f a

-- `value <<= 8; value |= byte`, in a variable of `width` bits.
unfoldable pub shift_in : ℕ → ℕ → ℕ → ℕ
shift_in width value byte = bit_or (value * 256 % 2 ^ width) byte

-- `value <<= 8; value |= byte_stream[ i ]` for each index in turn.
unfoldable pub shift_all : ℕ → List ℕ → List ℕ → ℕ → Option ℕ
shift_all width bytes [] value = some value
shift_all width bytes (i ∷ is) value = do
  byte ← get_elem? bytes i
  shift_all width bytes is (shift_in width value byte)

-- `value = byte_stream[ i ]`, then the other indices are shifted in.
unfoldable pub assign : ℕ → List ℕ → ℕ → List ℕ → Option ℕ
assign width bytes i is = do byte ← get_elem? bytes i; shift_all width bytes is byte

-- `value |= byte_stream[ i ]`, then the other indices are shifted in.
unfoldable pub combine : ℕ → List ℕ → ℕ → List ℕ → ℕ → Option ℕ
combine width bytes i is value = do
  byte ← get_elem? bytes i
  shift_all width bytes is (bit_or value byte)

-- Each macro takes the stream and the value that the variable holds before.
unfoldable pub copy_to_uint16_big_endian : List ℕ → ℕ → Option ℕ
copy_to_uint16_big_endian bytes value = assign 16 bytes 0 (1 ∷ [])

unfoldable pub copy_to_uint16_little_endian : List ℕ → ℕ → Option ℕ
copy_to_uint16_little_endian bytes value = assign 16 bytes 1 (0 ∷ [])

unfoldable pub copy_to_uint24_big_endian : List ℕ → ℕ → Option ℕ
copy_to_uint24_big_endian bytes value = assign 32 bytes 0 (1 ∷ 2 ∷ [])

unfoldable pub copy_to_uint24_little_endian : List ℕ → ℕ → Option ℕ
copy_to_uint24_little_endian bytes value = assign 32 bytes 2 (1 ∷ 0 ∷ [])

unfoldable pub copy_to_uint32_big_endian : List ℕ → ℕ → Option ℕ
copy_to_uint32_big_endian bytes value = assign 32 bytes 0 (1 ∷ 2 ∷ 3 ∷ [])

unfoldable pub copy_to_uint32_little_endian : List ℕ → ℕ → Option ℕ
copy_to_uint32_little_endian bytes value = assign 32 bytes 3 (2 ∷ 1 ∷ 0 ∷ [])

unfoldable pub copy_to_uint48_big_endian : List ℕ → ℕ → Option ℕ
copy_to_uint48_big_endian bytes value = assign 64 bytes 0 (1 ∷ 2 ∷ 3 ∷ 4 ∷ 5 ∷ [])

-- The one macro whose first step is `|=`.
unfoldable pub copy_to_uint48_little_endian : List ℕ → ℕ → Option ℕ
copy_to_uint48_little_endian bytes value = combine 64 bytes 5 (4 ∷ 3 ∷ 2 ∷ 1 ∷ 0 ∷ []) value

unfoldable pub copy_to_uint64_big_endian : List ℕ → ℕ → Option ℕ
copy_to_uint64_big_endian bytes value = assign 64 bytes 0 (1 ∷ 2 ∷ 3 ∷ 4 ∷ 5 ∷ 6 ∷ 7 ∷ [])

unfoldable pub copy_to_uint64_little_endian : List ℕ → ℕ → Option ℕ
copy_to_uint64_little_endian bytes value = assign 64 bytes 7 (6 ∷ 5 ∷ 4 ∷ 3 ∷ 2 ∷ 1 ∷ 0 ∷ [])

-- `byte_stream[ i ] = (uint8_t) ( ( value >> shift ) & 0x0ff )` for each index and shift in turn.
unfoldable pub stores : List ℕ → ℕ → List (ℕ × ℕ) → Option (List ℕ)
stores bytes value [] = some bytes
stores bytes value ((i, shift) ∷ rest) = do
  written ← set? bytes i (bit_and (value / 2 ^ shift) 0x0ff % 256)
  stores written value rest

unfoldable pub copy_from_uint16_big_endian : List ℕ → ℕ → Option (List ℕ)
copy_from_uint16_big_endian bytes value = stores bytes value ((0, 8) ∷ (1, 0) ∷ [])

unfoldable pub copy_from_uint16_little_endian : List ℕ → ℕ → Option (List ℕ)
copy_from_uint16_little_endian bytes value = stores bytes value ((1, 8) ∷ (0, 0) ∷ [])

unfoldable pub copy_from_uint24_big_endian : List ℕ → ℕ → Option (List ℕ)
copy_from_uint24_big_endian bytes value = stores bytes value ((0, 16) ∷ (1, 8) ∷ (2, 0) ∷ [])

unfoldable pub copy_from_uint24_little_endian : List ℕ → ℕ → Option (List ℕ)
copy_from_uint24_little_endian bytes value = stores bytes value ((2, 16) ∷ (1, 8) ∷ (0, 0) ∷ [])

unfoldable pub copy_from_uint32_big_endian : List ℕ → ℕ → Option (List ℕ)
copy_from_uint32_big_endian bytes value =
    stores bytes value ((0, 24) ∷ (1, 16) ∷ (2, 8) ∷ (3, 0) ∷ [])

unfoldable pub copy_from_uint32_little_endian : List ℕ → ℕ → Option (List ℕ)
copy_from_uint32_little_endian bytes value =
    stores bytes value ((3, 24) ∷ (2, 16) ∷ (1, 8) ∷ (0, 0) ∷ [])

unfoldable pub copy_from_uint48_big_endian : List ℕ → ℕ → Option (List ℕ)
copy_from_uint48_big_endian bytes value =
    stores bytes value ((0, 40) ∷ (1, 32) ∷ (2, 24) ∷ (3, 16) ∷ (4, 8) ∷ (5, 0) ∷ [])

unfoldable pub copy_from_uint48_little_endian : List ℕ → ℕ → Option (List ℕ)
copy_from_uint48_little_endian bytes value =
    stores bytes value ((5, 40) ∷ (4, 32) ∷ (3, 24) ∷ (2, 16) ∷ (1, 8) ∷ (0, 0) ∷ [])

unfoldable pub copy_from_uint64_big_endian : List ℕ → ℕ → Option (List ℕ)
copy_from_uint64_big_endian bytes value =
    stores bytes value
      ((0, 56) ∷ (1, 48) ∷ (2, 40) ∷ (3, 32) ∷ (4, 24) ∷ (5, 16) ∷ (6, 8) ∷ (7, 0) ∷ [])

unfoldable pub copy_from_uint64_little_endian : List ℕ → ℕ → Option (List ℕ)
copy_from_uint64_little_endian bytes value =
    stores bytes value
      ((7, 56) ∷ (6, 48) ∷ (5, 40) ∷ (4, 32) ∷ (3, 24) ∷ (2, 16) ∷ (1, 8) ∷ (0, 0) ∷ [])

-- The macros by the size and the byte order in their names.
pub data Size : Type 0 where
  uint16 uint24 uint32 uint48 uint64 : Size

pub data Order : Type 0 where
  big little : Order

abbrev pub copy_to : Size → Order → List ℕ → ℕ → Option ℕ
copy_to uint16 big = copy_to_uint16_big_endian
copy_to uint16 little = copy_to_uint16_little_endian
copy_to uint24 big = copy_to_uint24_big_endian
copy_to uint24 little = copy_to_uint24_little_endian
copy_to uint32 big = copy_to_uint32_big_endian
copy_to uint32 little = copy_to_uint32_little_endian
copy_to uint48 big = copy_to_uint48_big_endian
copy_to uint48 little = copy_to_uint48_little_endian
copy_to uint64 big = copy_to_uint64_big_endian
copy_to uint64 little = copy_to_uint64_little_endian

abbrev pub copy_from : Size → Order → List ℕ → ℕ → Option (List ℕ)
copy_from uint16 big = copy_from_uint16_big_endian
copy_from uint16 little = copy_from_uint16_little_endian
copy_from uint24 big = copy_from_uint24_big_endian
copy_from uint24 little = copy_from_uint24_little_endian
copy_from uint32 big = copy_from_uint32_big_endian
copy_from uint32 little = copy_from_uint32_little_endian
copy_from uint48 big = copy_from_uint48_big_endian
copy_from uint48 little = copy_from_uint48_little_endian
copy_from uint64 big = copy_from_uint64_big_endian
copy_from uint64 little = copy_from_uint64_little_endian

abbrev pub size : Size → ℕ
size uint16 = 2
size uint24 = 3
size uint32 = 4
size uint48 = 6
size uint64 = 8

-- The macro that starts with `|=` starts from 0.
abbrev pub StartsClean : Size → Order → ℕ → Type 0
StartsClean uint48 little value = value ≡ 0
StartsClean _ _ _ = Unit {0}
