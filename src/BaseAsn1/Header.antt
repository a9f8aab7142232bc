-- ===== src/BaseAsn1/Header.antt =====
-- Safe_transmission/ServerSeckey/ServerSeckey/BaseASN1.cpp: the tag and the length in front of every
-- element, read and written. A pointer into a block is the list of the bytes from there on.
pub mod RoundTrip
pub mod Bounds
pub mod Suffix
pub mod Sizes
pub mod Element
use safe_transmission.Common.{
  ℕ, zero, suc, ◌+◌, ◌-◌, ◌*◌, ◌/◌, ◌%◌, ◌^◌, List, [], ◌∷◌, ltb, leb, ◌==◌, not, if◌then◌else◌,
  u64, Result, ok, err, fault, ◌>>=◌, ◌>>◌, guard, need,
}
use safe_transmission.BaseAsn1.Memory.{
  Allocator, memory_err, length_err, ulong_size, top_bit, alloc,
}

-- The loop of the long form, at the byte that `++pMidData` reaches. It ends at a byte with the top
-- bit set, whose seven low bits are in `value` by then, and the whole byte is or-ed in below them.
-- Each `|` meets a low byte that is zero, so it is `+`.
long_tag : List ℕ → ℕ → ℕ → Result (ℕ × ℕ × List ℕ)
long_tag [] value size = fault
long_tag (c ∷ p) value size =
    let value' = (value + c % 128) * 256 % 2 ^ 64 in
    let more = long_tag p value' (size + 1) in
    if top_bit c then ok (value' + c, size + 2, p) else more

-- The tag, its size, and the pointer behind it.
tag_info : List ℕ → Result (ℕ × ℕ × List ℕ)
unfolding long_tag
tag_info [] = fault
tag_info (b ∷ p) =
    if b % 32 == 31 then long_tag p 0 0 else if top_bit b then ok (b, 1, p) else ok (b % 32, 1, p)

-- Both requests for an `unsigned long` are tested.
unfoldable pub get_tag_info : Allocator → List ℕ → Result (ℕ × ℕ × List ℕ)
unfolding tag_info
get_tag_info malloc p = do guard (malloc ulong_size) memory_err; tag_info p

-- How many bytes a length takes; 201, the error code, where it needs more than four.
unfoldable pub count_length_of_size : ℕ → ℕ
count_length_of_size n =
    if leb n 0x7F
    then 1
    else if leb n 0xFF
    then 2
    else if ltb n 0xFFFF
    then 3
    else if leb n 0xFFFFFF
    then 4
    else if leb n 0xFFFFFFFF
    then 5
    else length_err

-- `for (i = 1; i < n; i++) { l |= *p++; l <<= 8; } l |= *p++;` with `n - 1` rounds of the loop.
unfoldable pub read_big_endian : ℕ → List ℕ → ℕ → Result (ℕ × List ℕ)
read_big_endian rounds [] acc = fault
read_big_endian zero (b ∷ p) acc = ok (acc + b, p)
read_big_endian (suc rounds) (b ∷ p) acc = read_big_endian rounds p ((acc + b) * 256 % 2 ^ 64)

-- The length, the size of its field, and the pointer behind it. No byte of length (0x80) reads one.
unfoldable pub length_info : List ℕ → Result (ℕ × ℕ × List ℕ)
unfolding read_big_endian
length_info [] = fault
length_info (b ∷ p) =
    if top_bit b
    then (do
      guard (leb (b % 128) 4) length_err
      (value, rest) ← read_big_endian (b % 128 - 1) p 0
      ok (value, b % 128 + 1, rest))
    else ok (b % 128, 1, p)

-- Its two requests are not tested, and a null answer is written through at the end.
unfoldable pub get_length_info : Allocator → List ℕ → Result (ℕ × ℕ × List ℕ)
unfolding length_info
get_length_info malloc p = do
  (value, size, rest) ← length_info p
  alloc malloc ulong_size
  ok (value, size, rest)

-- `for (i = n; i > 0; i--) *p++ = (UINT8)(value >> 8 * (i - 1));`
unfoldable pub length_bytes : ℕ → ℕ → List ℕ
length_bytes zero value = []
length_bytes (suc k) value = value / 2 ^ (8 * k) % 256 ∷ length_bytes k value

-- The length field of `size` bytes, for a size up to 9.
unfoldable pub length_field : ℕ → ℕ → List ℕ
unfolding length_bytes
length_field size value =
    if size == 1 then value % 256 ∷ [] else (128 + (size - 1)) ∷ length_bytes (size - 1) value
