-- ===== src/BaseAsn1/Sequence.antt =====
-- Safe_transmission/ServerSeckey/ServerSeckey/BaseASN1.cpp: sequences, and the null element. A chain
-- of nodes is a list, and a null pointer to a chain is the empty one.
pub mod RoundTrip
pub mod Exact
pub mod Termination
pub mod DoubleFree
use safe_transmission.Common.{
  ℕ, zero, suc, ◌+◌, ◌-◌, ◌%◌, ◌^◌, Bool, false, List, [], ◌∷◌, ◌++◌, ltb, leb, ◌==◌, ◌&&◌,
  if◌then◌else◌, length, drop, u64, to_int, is_positive, Result, ok, err, fault, stuck, ◌>>=◌, ◌>>◌,
  guard, need, on_error,
}
use safe_transmission.BaseAsn1.Memory.{
  Allocator, AnyBuf, memory_err, length_err, length_not_equal, invalid_tag, malloc_memory,
  anybuf_size, identifier, alloc, read_bytes,
}
use safe_transmission.BaseAsn1.Tag
use safe_transmission.BaseAsn1.Header.{
  get_tag_info, get_length_info, count_length_of_size, length_field,
}

-- The sum of the lengths, in an `unsigned long`.
unfoldable pub total_length : List AnyBuf → ℕ
total_length [] = 0
total_length (n ∷ ns) = u64 (n.data_len + total_length ns)

-- The copies, one node after the other.
unfoldable pub copy_nodes : List AnyBuf → Result (List ℕ)
copy_nodes [] = ok []
copy_nodes (n ∷ ns) = do
  bytes ← read_bytes n.data_len n.p_data
  more ← copy_nodes ns
  ok (bytes ++ more)

-- The size of the length field is not tested. Above 9 the first shift is by 64 bits or more.
unfoldable pub write_sequence : Allocator → List AnyBuf → Result AnyBuf
write_sequence malloc nodes = do
  let total = total_length nodes
  let size_of = count_length_of_size total
  alloc malloc (u64 (total + 1 + size_of))
  need (leb size_of 9)
  bytes ← copy_nodes nodes
  need (leb (length bytes) total)
  alloc malloc anybuf_size
  ok (record {
    p_data = Tag.sequence ∷ (length_field size_of total ++ bytes);
    data_len = u64 (total + 1 + size_of);
    unused_bits = 0;
    memory_type = malloc_memory;
    data_type = identifier Tag.sequence;
  })

-- A pointer to an `unsigned long` of the heap: null, to a number, or to one that is freed.
pub data Pointer : Type 0 where
  null_pointer : Pointer
  to_number : Pointer
  dangling : Pointer

-- DER_ITCAST_Free, which calls free; the pointer keeps its address.
abbrev pub release : Pointer → Result Pointer
release null_pointer = ok null_pointer
release to_number = ok dangling
release dangling = fault

-- pTagValue, pTagSize, pLengthValue and pLengthSize.
pub record Numbers : Type 0 where
  pub tag_value : Pointer
  pub tag_size : Pointer
  pub length_value : Pointer
  pub length_size : Pointer

abbrev pub no_numbers : Numbers
no_numbers = record {
  tag_value = null_pointer;
  tag_size = null_pointer;
  length_value = null_pointer;
  length_size = null_pointer;
}

-- What DER_ItAsn1_Low_GetTagInfo and DER_ItAsn1_Low_GetLengthInfo make of them where they succeed.
abbrev pub with_tag : Numbers → Numbers
with_tag n = record n { tag_value = to_number; tag_size = to_number }

abbrev pub with_length : Numbers → Numbers
with_length n = record n { length_value = to_number; length_size = to_number }

abbrev pub release_tag : Numbers → Result Numbers
release_tag n = do
  value ← release n.tag_value
  size ← release n.tag_size
  ok (record n { tag_value = value; tag_size = size })

abbrev pub release_length : Numbers → Result Numbers
release_length n = do
  value ← release n.length_value
  size ← release n.length_size
  ok (record n { length_value = value; length_size = size })

-- The four pointers at the head of the loop: each points to a number that is freed.
abbrev pub all_freed : Numbers
all_freed = record {
  tag_value = dangling;
  tag_size = dangling;
  length_value = dangling;
  length_size = dangling;
}

-- One round of the loop: the next element whole, the pointer behind it, and the four pointers at the end.
-- A call that fails leaves the pointers to its outputs as they were.
unfoldable pub read_item : Allocator → Numbers → List ℕ → Result (AnyBuf × List ℕ × Numbers)
read_item malloc old p = do
  (tag, tag_size, q) ← on_error (release_tag old) (get_tag_info malloc p)
  let tagged = with_tag old
  (len, len_size, _) ← on_error (release_length tagged >>= release_tag) (get_length_info malloc q)
  let both = with_length tagged
  let size = u64 (tag_size + len_size + len)
  on_error (release_length both >>= release_tag) (guard (malloc size) memory_err)
  bytes ← read_bytes size p
  alloc malloc anybuf_size
  numbers ← release_tag both >>= release_length
  ok (
    record {
      p_data = bytes;
      data_len = size;
      unused_bits = 0;
      memory_type = malloc_memory;
      data_type = tag;
    },
    drop size p,
    numbers,
  )

-- `while (lTotalLength > 0)`, where `left` is that `int`. The nodes read, and what is left at the end.
unfoldable pub read_items : Allocator → ℕ → Numbers → List ℕ → ℕ → Result (List AnyBuf × ℕ)
read_items malloc zero old p left = if is_positive left then stuck else ok ([], left)
read_items malloc (suc fuel) old p left =
    let rounds = (do
      (node, p', numbers) ← read_item malloc old p
      (nodes, left') ← read_items malloc fuel numbers p' (to_int (left + 2 ^ 64 - node.data_len))
      ok (node ∷ nodes, left')) in
    if is_positive left then rounds else ok ([], left)

-- A round takes two bytes at least from the block, so its length and one more is fuel enough. The
-- errors before the loop free only what the calls before them have made.
unfoldable pub read_sequence : Allocator → AnyBuf → Result (List AnyBuf)
read_sequence malloc any = do
  (tag, tag_size, p) ← get_tag_info malloc any.p_data
  let tagged = with_tag no_numbers
  on_error (release_tag tagged) (guard (tag % 256 == Tag.sequence_id) invalid_tag)
  (len, len_size, q) ← on_error (release_tag tagged) (get_length_info malloc p)
  let both = with_length tagged
  on_error (release_length both >>= release_tag)
      (guard (any.data_len == u64 (tag_size + len_size + len)) length_not_equal)
  numbers ← release_tag both >>= release_length
  (nodes, left) ← read_items malloc (suc (length q)) numbers q (to_int len)
  guard (left == 0) length_err
  ok nodes

unfoldable pub write_null : Allocator → Result AnyBuf
write_null malloc = do
  alloc malloc 2
  alloc malloc anybuf_size
  ok (record {
    p_data = Tag.null ∷ 0 ∷ [];
    data_len = 2;
    unused_bits = 0;
    memory_type = malloc_memory;
    data_type = identifier Tag.null;
  })

-- `memcmp` with the bytes 5 and 0.
is_null : List ℕ → Bool
is_null (a ∷ b ∷ []) = (a == Tag.null) && (b == 0)
is_null _ = false

-- `*pInt` is 5, or 0 with the code 1.
unfoldable pub read_null : AnyBuf → Result ℕ
unfolding is_null
read_null any = do bytes ← read_bytes 2 any.p_data; guard (is_null bytes) 1; ok Tag.null

-- A null result of the writer, which answers -1 in the code, is not possible for `write_sequence`.
unfoldable pub write_null_sequence : Allocator → Result AnyBuf
write_null_sequence malloc = do null ← write_null malloc; write_sequence malloc (null ∷ [])
