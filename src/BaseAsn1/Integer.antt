-- ===== src/BaseAsn1/Integer.antt =====
-- Safe_transmission/ServerSeckey/ServerSeckey/BaseASN1.cpp: integers to bytes and back.
pub mod RoundTrip
pub mod Shortest
use safe_transmission.Common.{
  ℕ, ◌+◌, ◌-◌, ◌/◌, ◌%◌, Bool, List, [], ◌∷◌, ◌++◌, ltb, leb, ◌==◌, ◌&&◌, if◌then◌else◌, length,
  Result, ok, err, fault, ◌>>=◌, ◌>>◌,
}
use safe_transmission.BaseAsn1.Memory.{
  Allocator, AnyBuf, data_range_err, malloc_memory, ulong_size, anybuf_size, identifier, alloc,
}
use safe_transmission.BaseAsn1.Tag
use safe_transmission.BaseAsn1.Header.{get_tag_info, get_length_info, read_big_endian}

-- The bytes written, most significant first. A leading zero keeps the sign bit clear. The length that
-- the code hands out beside them is the list's.
unfoldable pub int_to_char : Allocator → ℕ → Result (List ℕ)
int_to_char malloc v =
    let b3 = v / 16777216 % 256 in
    let b2 = v / 65536 % 256 in
    let b1 = v / 256 % 256 in
    let b0 = v % 256 in
    let filled =
      λ (bytes : List ℕ). (do alloc malloc ulong_size; alloc malloc (length bytes); ok bytes) in
    if ltb 0xFFFFFFFF v
    then err data_range_err
    else if ltb 0xFFFFFF v
    then (if leb 0x80000000 v
        then filled (0 ∷ b3 ∷ b2 ∷ b1 ∷ b0 ∷ [])
        else filled (b3 ∷ b2 ∷ b1 ∷ b0 ∷ []))
    else if ltb 0xFFFF v
    then (if leb 0x800000 v then filled (0 ∷ b2 ∷ b1 ∷ b0 ∷ []) else filled (b2 ∷ b1 ∷ b0 ∷ []))
    else if ltb 0xFF v
    then (if leb 0x8000 v then filled (0 ∷ b1 ∷ b0 ∷ []) else filled (b1 ∷ b0 ∷ []))
    else if leb 0x80 v
    then filled (0 ∷ b0 ∷ [])
    else filled (b0 ∷ [])

-- One leading zero is skipped if more bytes follow; a length of 0 reads a byte all the same.
char_value : List ℕ → ℕ → Result (ℕ × List ℕ)
unfolding read_big_endian
char_value [] len = fault
char_value (b ∷ p) len =
    if (b == 0) && ltb 1 len
    then read_big_endian (len - 1 - 1) p 0
    else read_big_endian (len - 1) (b ∷ p) 0

unfoldable pub char_to_int : Allocator → List ℕ → ℕ → Result ℕ
unfolding char_value
char_to_int malloc p len = do (value, rest) ← char_value p len; alloc malloc ulong_size; ok value

unfoldable pub write_integer : Allocator → ℕ → Result AnyBuf
write_integer malloc v = do
  bytes ← int_to_char malloc v
  alloc malloc (length bytes + 2)
  alloc malloc anybuf_size
  ok (record {
    p_data = Tag.integer ∷ length bytes % 256 ∷ bytes;
    data_len = length bytes + 2;
    unused_bits = 0;
    memory_type = malloc_memory;
    data_type = identifier Tag.integer;
  })

-- The tag is read and not compared.
unfoldable pub read_integer : Allocator → AnyBuf → Result ℕ
read_integer malloc buf = do
  (tag, tag_size, p) ← get_tag_info malloc buf.p_data
  (len, len_size, q) ← get_length_info malloc p
  char_to_int malloc q len
