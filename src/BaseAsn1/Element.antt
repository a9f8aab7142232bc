-- ===== src/BaseAsn1/Element.antt =====
-- Safe_transmission/ServerSeckey/ServerSeckey/BaseASN1.cpp: DER_ItAsn1_Low_WriteTagAndLength,
-- DER_ItAsn1_Low_ReadTagAndLength and the strings built on them.
pub mod RoundTrip
use safe_transmission.Common.{
  ℕ, ◌+◌, ◌-◌, ◌%◌, ◌^◌, Bool, true, false, List, [], ◌∷◌, ◌++◌, ltb, leb, ◌==◌, ◌&&◌,
  if◌then◌else◌, length, drop, u64, Result, ok, err, fault, ◌>>=◌, ◌>>◌, guard, need, or_fault,
}
use safe_transmission.BaseAsn1.Memory.{
  Allocator, AnyBuf, memory_err, length_err, length_not_equal, malloc_memory, anybuf_size,
  identifier, top_bit, alloc, read_bytes, copy_in,
}
use safe_transmission.BaseAsn1.Tag
use safe_transmission.BaseAsn1.Header.{
  get_tag_info, get_length_info, count_length_of_size, length_field,
}

-- `*p & 0x80`
top_bit_at : List ℕ → Result Bool
top_bit_at [] = fault
top_bit_at (b ∷ p) = ok (top_bit b)

content_size : AnyBuf → ℕ → Result ℕ
unfolding top_bit_at
content_size any tag =
    if tag == Tag.bitstring
    then ok (u64 (any.data_len + 1))
    else if tag == Tag.integer
    then (do
      negative ← top_bit_at any.p_data
      ok (if negative then u64 (any.data_len + 1) else any.data_len))
    else ok any.data_len

-- The bytes between the length and the content: the unused bits, or a zero above a set sign bit.
content_prefix : AnyBuf → ℕ → Result (List ℕ)
unfolding top_bit_at
content_prefix any id =
    if id == Tag.bitstring
    then ok (any.unused_bits % 256 ∷ [])
    else if id == Tag.integer
    then (do negative ← top_bit_at any.p_data; ok (if negative then 0 ∷ [] else []))
    else ok []

-- The node with its header written, and the room that is left behind it.
unfoldable pub write_tag_and_length : Allocator → AnyBuf → ℕ → Result (AnyBuf × ℕ)
unfolding content_size content_prefix
write_tag_and_length malloc any tag = do
  size ← content_size any tag
  let size_of = count_length_of_size size
  guard (leb size_of 5) length_err
  let total = u64 (size + (1 + size_of))
  alloc malloc anybuf_size
  alloc malloc total
  let id = if top_bit tag then tag else identifier tag
  prefix ← content_prefix any id
  let written = tag ∷ (length_field size_of size ++ prefix)
  need (leb (length written) total)
  ok (
    record {
      p_data = written;
      data_len = total;
      unused_bits = if id == Tag.bitstring then any.unused_bits else 0;
      memory_type = malloc_memory;
      data_type = id;
    },
    total - length written,
  )

-- `p[0] == 0 && p[1] & 0x80`
is_padded : List ℕ → Result Bool
unfolding top_bit_at
is_padded [] = fault
is_padded (b ∷ p) = if b == 0 then top_bit_at p else ok false

-- The pointer and the length left for the content.
content_start : AnyBuf → ℕ → List ℕ → ℕ → Result (List ℕ × ℕ)
unfolding is_padded
content_start any tag p len =
    let (p', len') =
      if any.data_type == Tag.bitstring then (drop 1 p, u64 (len + (2 ^ 64 - 1))) else (p, len) in
    if tag == Tag.integer
    then (do
      padded ← is_padded p'
      ok (if padded then (drop 1 p', u64 (len' + (2 ^ 64 - 1))) else (p', len')))
    else ok (p', len')

-- The node without its content, which the caller copies, and the pointer to the content. The codes of
-- the two calls are not looked at. Pointers are compared with nothing, so one past the block is kept
-- as the empty list.
unfoldable pub read_tag_and_length : Allocator → AnyBuf → Result (AnyBuf × List ℕ)
unfolding content_start
read_tag_and_length malloc any = do
  alloc malloc anybuf_size
  (tag, tag_size, p) ← or_fault (get_tag_info malloc any.p_data)
  (len, len_size, q) ← or_fault (get_length_info malloc p)
  guard (u64 (tag_size + (len + len_size)) == any.data_len) length_not_equal
  (content, size) ← content_start any tag q len
  guard (if size == 0 then true else malloc size) memory_err
  ok (
    record {
      p_data = [];
      data_len = size;
      unused_bits = if any.data_type == Tag.bitstring then any.unused_bits else 0;
      memory_type = malloc_memory;
      data_type = tag;
    },
    content,
  )
