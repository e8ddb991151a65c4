-- ===== src/Tests/Bytes.antt =====
-- The statements on byte streams, on a stream of seven bytes and on words.
use libcthreads.Common.{
  ◌%◌, ◌-◌, ◌≤◌, ℕ, ◌≡◌, ◌≢◌, ◌≤◌, ◌<◌, ◌^◌, refl, arith, some, List, [], ◌∷◌, length, get_or,
}
use libcthreads.ByteStream.Copy.{
  uint48, little, copy_to, copy_from, copy_to_uint24_big_endian, copy_to_uint48_little_endian,
  copy_from_uint48_big_endian, assign, shift_all, shift_in, stores,
}
use libcthreads.ByteStream.Value.{value_of, copy_to-eq-value_of, copy_to_uint48_little_endian-keeps}
use libcthreads.ByteStream.RoundTrip.{copy_to-copy_from}
use libcthreads.ByteStream.Rotate.{
  byte_stream_bit_rotate_left, byte_stream_bit_rotate_right, byte_stream_bit_rotate_left_8bit,
  shift_left, shift_right, promoted,
}
use libcthreads.ByteStream.Rotations.{bits_of, uint16_t, rotate_right-rotate_left}
use libcthreads.ByteStream.Turned.{turned}

abbrev stream : List ℕ
stream = 0x12 ∷ 0x34 ∷ 0x56 ∷ 0x78 ∷ 0x9a ∷ 0xbc ∷ 0xde ∷ []

read_24 : copy_to_uint24_big_endian stream 7 ≡ some 0x12_3456
unfolding copy_to_uint24_big_endian assign shift_all shift_in
read_24 = refl

write_48 : copy_from_uint48_big_endian stream 0x1 ≡ some (0 ∷ 0 ∷ 0 ∷ 0 ∷ 0 ∷ 1 ∷ 0xde ∷ [])
unfolding copy_from_uint48_big_endian stores
write_48 = refl

turn_8 : byte_stream_bit_rotate_left_8bit 0x81 1 ≡ some 0x103
unfolding byte_stream_bit_rotate_left_8bit byte_stream_bit_rotate_left shift_left shift_right
    promoted
turn_8 = refl

copy_to-eq-value_of_example : copy_to uint48 little stream 0 ≡ some (value_of little 6 stream)
copy_to-eq-value_of_example =
    copy_to-eq-value_of uint48 little stream 0 (omega arith) (omega arith) refl

copy_to_uint48_little_endian-keeps_example :
    copy_to_uint48_little_endian stream 0x100 ≢ some (value_of little 6 stream)
copy_to_uint48_little_endian-keeps_example =
    copy_to_uint48_little_endian-keeps stream 0x100 (omega arith) (omega arith) (omega arith)
      (omega arith)

copy_to-copy_from_example :
    (bytes' : List ℕ) × (copy_from uint48 little stream 0x1234_5678_9abc ≡ some bytes')
    × (copy_to uint48 little bytes' 0 ≡ some 0x1234_5678_9abc)
    × (length bytes' ≡ 7)
    × ((j : ℕ) → 6 ≤ j → get_or bytes' j 0 ≡ get_or stream j 0)
copy_to-copy_from_example =
    copy_to-copy_from uint48 little stream 0x1234_5678_9abc 0 (omega arith) (omega arith)
      (omega arith) refl

rotate_right-rotate_left_example :
    (y z : ℕ) × (byte_stream_bit_rotate_left (bits_of uint16_t) 0x8001 4 ≡ some y)
    × (y % 2 ^ bits_of uint16_t ≡ turned (bits_of uint16_t - 4) 4 0x8001)
    × (byte_stream_bit_rotate_right (bits_of uint16_t) (y % 2 ^ bits_of uint16_t) 4 ≡ some z)
    × (z % 2 ^ bits_of uint16_t ≡ 0x8001)
    × (32 ≤ bits_of uint16_t → (y < 2 ^ bits_of uint16_t) × (z < 2 ^ bits_of uint16_t))
rotate_right-rotate_left_example =
    rotate_right-rotate_left uint16_t 0x8001 4 (omega arith) (omega arith) (omega arith)
