-- ===== src/BaseAsn1/Sequence/RoundTrip.antt =====
-- Sequences written and read back.
use safe_transmission.Common.{
  ℕ, zero, suc, ◌+◌, ◌^◌, ◌≤◌, ◌<◌, ◌≡◌, refl, ap, arith, List, [], ◌∷◌, ◌++◌, ok, length,
  append-nil, append_assoc, length-append, take-append, drop-append, All,
}
use mathlib.Core.List.{map}
use safe_transmission.BaseAsn1.Memory.{
  Allocator, AnyBuf, Grants, anybuf_size, malloc_memory, read_bytes,
}
use safe_transmission.BaseAsn1.Tag
use safe_transmission.BaseAsn1.Header.{get_tag_info, count_length_of_size, length_field}
use safe_transmission.BaseAsn1.Header.RoundTrip.{
  get_tag_info-short, get_length_info-length_field, count_bounds,
}
use safe_transmission.BaseAsn1.Element.RoundTrip.{header, length-header}
use safe_transmission.BaseAsn1.Sequence.{
  total_length, copy_nodes, write_sequence, read_item, read_items, read_sequence, all_freed,
}

-- A node whose block holds one whole element and no more, under a short tag that is its type.
pub record IsElement (n : AnyBuf) : Type 0 where
  pub content : List ℕ
  pub short : n.data_type < 31
  pub fits : length content < 2 ^ 32
  pub layout : n.p_data ≡ header n.data_type (length content) ++ content
  pub measured : n.data_len ≡ length n.p_data

-- What comes out of a sequence for a node: the block, its length and its type.
abbrev pub received : AnyBuf → AnyBuf
received n = record n { unused_bits = 0; memory_type = malloc_memory }

-- The blocks, one behind the other.
abbrev pub contents : List AnyBuf → List ℕ
contents [] = []
contents (n ∷ ns) = n.p_data ++ contents ns

pub element_size :
    (n : AnyBuf)
    → (e : IsElement n)
    → n.data_len ≡ 1 + count_length_of_size (length e.content) + length e.content
element_size n e = omega (
  arith,
  e.measured,
  ap length e.layout,
  length-append (header n.data_type (length e.content)) e.content,
  length-header n.data_type (length e.content) e.fits,
)

pub total_length-contents :
    (ns : List AnyBuf)
    → All IsElement ns
    → length (contents ns) < 2 ^ 64
    → total_length ns ≡ length (contents ns)
unfolding total_length
total_length-contents [] es h = refl
total_length-contents (n ∷ ns) (e, es) h =
    let split = length-append n.p_data (contents ns) in
    let more = total_length-contents ns es (omega arith) in omega (arith, e.measured)

read_bytes_front : (n : ℕ) (xs ys : List ℕ) → n ≡ length xs → read_bytes n (xs ++ ys) ≡ ok xs
unfolding read_bytes
read_bytes_front n xs ys h = ground (arith, take-append n xs ys h, length-append xs ys)

pub copy_nodes-contents : (ns : List AnyBuf) → All IsElement ns → copy_nodes ns ≡ ok (contents ns)
unfolding copy_nodes
copy_nodes-contents [] es = refl
copy_nodes-contents (n ∷ ns) (e, es) = ground (
  arith,
  rw append-nil at (read_bytes_front n.data_len n.p_data [] e.measured),
  copy_nodes-contents ns es,
)

-- The node that is written for a chain.
abbrev pub sequence_node : List AnyBuf → AnyBuf
sequence_node ns =
    let total = length (contents ns) in
    let k = count_length_of_size total in
    record {
      p_data = Tag.sequence ∷ (length_field k total ++ contents ns);
      data_len = total + 1 + k;
      unused_bits = 0;
      memory_type = malloc_memory;
      data_type = Tag.sequence_id;
    }

module _ (malloc : Allocator) (granted : Grants malloc (2 ^ 33)) where
  pub read_item-element :
      (n : AnyBuf) (rest : List ℕ)
      → IsElement n
      → read_item malloc all_freed (n.p_data ++ rest) ≡ ok (received n, rest, all_freed)
  unfolding read_item
  read_item-element n rest e =
      let c = e.content in
      let k = count_length_of_size (length c) in
      ground (
        arith,
        element_size n e,
        e.layout,
        count_bounds (length c) e.fits,
        granted anybuf_size (omega arith),
        granted (1 + k + length c) (omega (arith, count_bounds (length c) e.fits)),
        append_assoc (header n.data_type (length c)) c rest,
        get_tag_info-short malloc (granted 8 (omega arith)) n.data_type
            (length_field k (length c) ++ (c ++ rest)) e.short,
        get_length_info-length_field malloc (granted 8 (omega arith)) (length c) (c ++ rest) e.fits,
        read_bytes_front n.data_len n.p_data rest e.measured,
        drop-append n.data_len n.p_data rest e.measured,
      )

  pub get_tag_info-sequence :
      (rest : List ℕ) → get_tag_info malloc (Tag.sequence ∷ rest) ≡ ok (Tag.sequence_id, 1, rest)
  unfolding get_tag_info
  get_tag_info-sequence rest = rw (granted 8 (omega arith))

  read_items-contents :
      (fuel : ℕ) (ns : List AnyBuf)
      → All IsElement ns
      → length (contents ns) ≤ fuel
      → length (contents ns) < 2 ^ 31
      → read_items malloc fuel all_freed (contents ns) (length (contents ns))
        ≡ ok (map received ns, 0)
  unfolding read_items
  read_items-contents zero [] es h k = refl
  read_items-contents zero (n ∷ ns) (e, es) h k =
      absurd (omega (arith, element_size n e, e.measured, length-append n.p_data (contents ns)))
  read_items-contents (suc fuel) [] es h k = refl
  read_items-contents (suc fuel) (n ∷ ns) (e, es) h k = ground (
    arith,
    read_item-element n (contents ns) e,
    length-append n.p_data (contents ns),
    e.measured,
    element_size n e,
    read_items-contents fuel ns es
        (omega (arith, length-append n.p_data (contents ns), e.measured, element_size n e)),
  )

  pub write_sequence-sequence_node :
      (ns : List AnyBuf)
      → All IsElement ns
      → length (contents ns) < 2 ^ 32
      → write_sequence malloc ns ≡ ok (sequence_node ns)
  unfolding write_sequence
  write_sequence-sequence_node ns es h =
      let total = length (contents ns) in
      let bounds = count_bounds total h in
      ground (
        arith,
        total_length-contents ns es (omega arith),
        copy_nodes-contents ns es,
        bounds,
        granted anybuf_size (omega arith),
        granted (total + 1 + count_length_of_size total) (omega (arith, bounds)),
      )

  pub read_sequence-sequence_node :
      (ns : List AnyBuf)
      → All IsElement ns
      → length (contents ns) < 2 ^ 31
      → read_sequence malloc (sequence_node ns) ≡ ok (map received ns)
  unfolding read_sequence
  read_sequence-sequence_node ns es h =
      let total = length (contents ns) in
      let k = count_length_of_size total in
      ground (
        arith,
        count_bounds total (omega arith),
        get_tag_info-sequence (length_field k total ++ contents ns),
        get_length_info-length_field malloc (granted 8 (omega arith)) total (contents ns)
            (omega arith),
        read_items-contents (suc total) ns es (omega arith) h,
      )

  -- If requests of up to 2 ^ 33 bytes are granted, DER_ItAsn1_WriteSequence succeeds on every chain of
  -- whole elements of less than 2 ^ 31 bytes together, and DER_ItAsn1_ReadSequence reads from what it
  -- wrote the same blocks, lengths and types in the same order; the unused bits come back as 0.
  pub read_sequence-write_sequence :
      (ns : List AnyBuf)
      → All IsElement ns
      → length (contents ns) < 2 ^ 31
      → (buf : AnyBuf) × (write_sequence malloc ns ≡ ok buf)
        × (read_sequence malloc buf ≡ ok (map received ns))
  read_sequence-write_sequence ns es h = (
    sequence_node ns,
    write_sequence-sequence_node ns es (omega arith),
    read_sequence-sequence_node ns es h,
  )
