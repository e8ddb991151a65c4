-- ===== src/ByteStream/Rotate.antt =====
-- common/byte_stream.h: the bit rotation macros. C computes a shift of an 8 or a 16-bit value in
-- `int`, of 32 bits, and one of a 32 or a 64-bit value in its own width. A shift by the width or
-- more, and an `int` shifted past 2 ^ 31, are undefined and `none` here. The macros do not cut an
-- 8 or a 16-bit result: that is for who stores it.
use Prim.Native.Nat.{bit_or}
use libcthreads.Common.{
  ℕ, ◌-◌, ◌*◌, ◌/◌, ◌%◌, ◌^◌, Option, none, some, ◌&&◌, ltb, leb, if◌then◌else◌,
}
use libcthreads.ByteStream.Copy.{◌>>=◌}

-- The width in which C computes a shift.
unfoldable pub promoted : ℕ → ℕ
promoted width = if ltb width 32 then 32 else width

-- `value << bits`
unfoldable pub shift_left : ℕ → ℕ → ℕ → Option ℕ
shift_left width value bits =
    if ltb width 32
    then (if ltb bits 32 && ltb (value * 2 ^ bits) (2 ^ 31) then some (value * 2 ^ bits) else none)
    else (if ltb bits width then some (value * 2 ^ bits % 2 ^ width) else none)

-- `value >> bits`
unfoldable pub shift_right : ℕ → ℕ → ℕ → Option ℕ
shift_right width value bits = if ltb bits (promoted width) then some (value / 2 ^ bits) else none

-- `( value << bits ) | ( value >> ( width - bits ) )`, in the type in which C computes it.
unfoldable pub byte_stream_bit_rotate_left : ℕ → ℕ → ℕ → Option ℕ
byte_stream_bit_rotate_left width value bits =
    if leb bits width
    then (do
      high ← shift_left width value bits
      low ← shift_right width value (width - bits)
      some (bit_or high low))
    else none

-- `( value >> bits ) | ( value << ( width - bits ) )`, in the type in which C computes it.
unfoldable pub byte_stream_bit_rotate_right : ℕ → ℕ → ℕ → Option ℕ
byte_stream_bit_rotate_right width value bits =
    if leb bits width
    then (do
      low ← shift_right width value bits
      high ← shift_left width value (width - bits)
      some (bit_or low high))
    else none

unfoldable pub byte_stream_bit_rotate_left_8bit : ℕ → ℕ → Option ℕ
byte_stream_bit_rotate_left_8bit = byte_stream_bit_rotate_left 8

unfoldable pub byte_stream_bit_rotate_right_8bit : ℕ → ℕ → Option ℕ
byte_stream_bit_rotate_right_8bit = byte_stream_bit_rotate_right 8

unfoldable pub byte_stream_bit_rotate_left_16bit : ℕ → ℕ → Option ℕ
byte_stream_bit_rotate_left_16bit = byte_stream_bit_rotate_left 16

unfoldable pub byte_stream_bit_rotate_right_16bit : ℕ → ℕ → Option ℕ
byte_stream_bit_rotate_right_16bit = byte_stream_bit_rotate_right 16

unfoldable pub byte_stream_bit_rotate_left_32bit : ℕ → ℕ → Option ℕ
byte_stream_bit_rotate_left_32bit = byte_stream_bit_rotate_left 32

unfoldable pub byte_stream_bit_rotate_right_32bit : ℕ → ℕ → Option ℕ
byte_stream_bit_rotate_right_32bit = byte_stream_bit_rotate_right 32

unfoldable pub byte_stream_bit_rotate_left_64bit : ℕ → ℕ → Option ℕ
byte_stream_bit_rotate_left_64bit = byte_stream_bit_rotate_left 64

unfoldable pub byte_stream_bit_rotate_right_64bit : ℕ → ℕ → Option ℕ
byte_stream_bit_rotate_right_64bit = byte_stream_bit_rotate_right 64
