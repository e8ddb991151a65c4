-- ===== src/ByteStream/RoundTrip.antt =====
-- A number that a copy_from macro writes is the one that the copy_to macro of its name reads.
use libcthreads.Common.{
  ℕ, zero, suc, ◌/◌, ◌%◌, ◌^◌, ◌≤◌, ◌<◌, ◌≡◌, ◌≢◌, refl, ◌∙◌, ap, sym, subst, some, List, [], ◌∷◌,
  arith, length, get_or, set, set?-eq-set, length-set, get_or-set_self, get_or-set_ne, bit_and,
}
use libcthreads.ByteStream.Bits.{bit_and_byte}
use libcthreads.ByteStream.Copy.{
  stores, Size, uint16, uint24, uint32, uint48, uint64, Order, big, little, copy_to, copy_from,
  size, StartsClean, copy_from_uint16_big_endian, copy_from_uint16_little_endian,
  copy_from_uint24_big_endian, copy_from_uint24_little_endian, copy_from_uint32_big_endian,
  copy_from_uint32_little_endian, copy_from_uint48_big_endian, copy_from_uint48_little_endian,
  copy_from_uint64_big_endian, copy_from_uint64_little_endian,
}
use libcthreads.ByteStream.Value.{AllBytes, value_of, copy_to-eq-value_of}

-- No store is at `j`.
abbrev Absent : ℕ → List (ℕ × ℕ) → Type 0
Absent j [] = Unit {0}
Absent j ((i, shift) ∷ rest) = (i ≢ j) × Absent j rest

-- Each store is in bounds and at an index of its own.
abbrev Separate : List (ℕ × ℕ) → ℕ → Type 0
Separate [] n = Unit {0}
Separate ((i, shift) ∷ rest) n = (i < n) × Absent i rest × Separate rest n

-- The bytes of `value` stand where the stores put them.
abbrev Holds : ℕ → List (ℕ × ℕ) → List ℕ → Type 0
Holds value [] bytes = Unit {0}
Holds value ((i, shift) ∷ rest) bytes =
    (get_or bytes i 0 ≡ value / 2 ^ shift % 256) × Holds value rest bytes

record Written (bytes : List ℕ) (value : ℕ) (list : List (ℕ × ℕ)) (bytes' : List ℕ) : Type 0 where
  same_length : length bytes' ≡ length bytes
  all_bytes : AllBytes bytes → AllBytes bytes'
  holds : Holds value list bytes'
  elsewhere : (j : ℕ) → Absent j list → get_or bytes' j 0 ≡ get_or bytes j 0

set-AllBytes : (bytes : List ℕ) (i b : ℕ) → b < 256 → AllBytes bytes → AllBytes (set bytes i b)
set-AllBytes [] i b h all = all
set-AllBytes (x ∷ xs) zero b h all = (h, all.1)
set-AllBytes (x ∷ xs) (suc i) b h all = (all.0, set-AllBytes xs i b h all.1)

stores_lem :
    (bytes : List ℕ) (value : ℕ) (list : List (ℕ × ℕ))
    → Separate list (length bytes)
    → (bytes' : List ℕ) × (stores bytes value list ≡ some bytes') × Written bytes value list bytes'
unfolding stores
stores_lem bytes value [] h = (
  bytes,
  refl,
  record { same_length = refl; all_bytes = λ all. all; holds = h; elsewhere = λ j g. refl },
)
stores_lem bytes value ((i, shift) ∷ rest) (inside, apart, later) =
    let b = bit_and (value / 2 ^ shift) 0x0ff % 256 in
    let byte : b ≡ value / 2 ^ shift % 256 = omega (arith, bit_and_byte (value / 2 ^ shift)) in
    let (bytes', runs, w) =
      stores_lem (set bytes i b) value rest
        (subst (λ n. Separate rest n) (sym (length-set bytes i b)) later) in
    (
      bytes',
      rw (set?-eq-set bytes i b inside) runs,
      record {
        same_length = w.same_length ∙ length-set bytes i b;
        all_bytes = λ all. w.all_bytes (set-AllBytes bytes i b (omega arith) all);
        holds = (w.elsewhere i apart ∙ get_or-set_self bytes i b 0 inside ∙ byte, w.holds);
        elsewhere = λ j absent. w.elsewhere j absent.1 ∙ get_or-set_ne bytes i j b 0 absent.0;
      },
    )

-- What a copy_from macro leaves: `n` bytes that stand for the value, and the others as they were.
record Stored (o : Order) (n : ℕ) (bytes : List ℕ) (value : ℕ) (bytes' : List ℕ) : Type 0 where
  length_kept : length bytes' ≡ length bytes
  bytes_kept : AllBytes bytes → AllBytes bytes'
  stands_for : value_of o n bytes' ≡ value
  others_kept : (j : ℕ) → n ≤ j → get_or bytes' j 0 ≡ get_or bytes j 0

module _ (o : Order) (n : ℕ) (bytes : List ℕ) (value : ℕ) (list : List (ℕ × ℕ)) where
  stores-Stored :
      Separate list (length bytes)
      → ((bytes' : List ℕ) → Holds value list bytes' → value_of o n bytes' ≡ value)
      → ((j : ℕ) → n ≤ j → Absent j list)
      → (bytes' : List ℕ) × (stores bytes value list ≡ some bytes') × Stored o n bytes value bytes'
  stores-Stored separate digits apart =
      let (bytes', runs, w) = stores_lem bytes value list separate in
      (
        bytes',
        runs,
        record {
          length_kept = w.same_length;
          bytes_kept = w.all_bytes;
          stands_for = digits bytes' w.holds;
          others_kept = λ j h. w.elsewhere j (apart j h);
        },
      )

-- Each copy_from macro stays in bounds and leaves bytes that stand for the value.
copy_from-Stored :
    (s : Size) (o : Order) (bytes : List ℕ) (value : ℕ)
    → size s ≤ length bytes
    → value < 256 ^ size s
    → (bytes' : List ℕ) × (copy_from s o bytes value ≡ some bytes')
      × Stored o (size s) bytes value bytes'
unfolding copy_from_uint16_big_endian copy_from_uint16_little_endian copy_from_uint24_big_endian
    copy_from_uint24_little_endian copy_from_uint32_big_endian copy_from_uint32_little_endian
    copy_from_uint48_big_endian copy_from_uint48_little_endian copy_from_uint64_big_endian
    copy_from_uint64_little_endian
copy_from-Stored uint16 big bytes value long fits =
    stores-Stored big 2 bytes value _ (omega arith) (λ b h. omega arith) (λ j h. omega arith)
copy_from-Stored uint16 little bytes value long fits =
    stores-Stored little 2 bytes value _ (omega arith) (λ b h. omega arith) (λ j h. omega arith)
copy_from-Stored uint24 big bytes value long fits =
    stores-Stored big 3 bytes value _ (omega arith) (λ b h. omega arith) (λ j h. omega arith)
copy_from-Stored uint24 little bytes value long fits =
    stores-Stored little 3 bytes value _ (omega arith) (λ b h. omega arith) (λ j h. omega arith)
copy_from-Stored uint32 big bytes value long fits =
    stores-Stored big 4 bytes value _ (omega arith) (λ b h. omega arith) (λ j h. omega arith)
copy_from-Stored uint32 little bytes value long fits =
    stores-Stored little 4 bytes value _ (omega arith) (λ b h. omega arith) (λ j h. omega arith)
copy_from-Stored uint48 big bytes value long fits =
    stores-Stored big 6 bytes value _ (omega arith) (λ b h. omega arith) (λ j h. omega arith)
copy_from-Stored uint48 little bytes value long fits =
    stores-Stored little 6 bytes value _ (omega arith) (λ b h. omega arith) (λ j h. omega arith)
copy_from-Stored uint64 big bytes value long fits =
    stores-Stored big 8 bytes value _ (omega arith) (λ b h. omega arith) (λ j h. omega arith)
copy_from-Stored uint64 little bytes value long fits =
    stores-Stored little 8 bytes value _ (omega arith) (λ b h. omega arith) (λ j h. omega arith)

-- Where the stream is long enough and the number fits the macro's size, copy_from succeeds, keeps
-- the stream's length and each byte from the macro's size on, and the copy_to macro of the same
-- name reads the number back; the little-endian 48-bit one into a variable that holds 0.
pub copy_to-copy_from :
    (s : Size) (o : Order) (bytes : List ℕ) (value old : ℕ)
    → AllBytes bytes
    → size s ≤ length bytes
    → value < 256 ^ size s
    → StartsClean s o old
    → (bytes' : List ℕ) × (copy_from s o bytes value ≡ some bytes')
      × (copy_to s o bytes' old ≡ some value)
      × (length bytes' ≡ length bytes)
      × ((j : ℕ) → size s ≤ j → get_or bytes' j 0 ≡ get_or bytes j 0)
copy_to-copy_from s o bytes value old all long fits clean =
    let (bytes', runs, w) = copy_from-Stored s o bytes value long fits in
    (
      bytes',
      runs,
      copy_to-eq-value_of s o bytes' old (w.bytes_kept all) (omega (arith, w.length_kept)) clean
          ∙ ap some w.stands_for,
      w.length_kept,
      w.others_kept,
    )
