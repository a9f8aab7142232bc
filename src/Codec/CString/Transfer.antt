-- ===== src/Codec/CString/Transfer.antt =====
-- Fields written to a chain, carried as a sequence, and read back.
use safe_transmission.Common.{
  ℕ, suc, ◌+◌, ◌^◌, ◌≤◌, ◌<◌, ◌≡◌, refl, arith, List, [], ◌∷◌, ◌++◌, some, length, drop, ok, All,
  length-append,
}
use mathlib.Core.List.{map}
use safe_transmission.BaseAsn1.Memory.{Allocator, AnyBuf, Grants}
use safe_transmission.BaseAsn1.Header.{length_field, count_length_of_size}
use safe_transmission.BaseAsn1.Header.RoundTrip.{count_bounds, length-length_field}
use safe_transmission.BaseAsn1.Integer.RoundTrip.{integer_node, int_bytes, length-int_bytes}
use safe_transmission.BaseAsn1.Strings.RoundTrip.{string_node}
use safe_transmission.BaseAsn1.Element.RoundTrip.{header, length-header}
use safe_transmission.BaseAsn1.Sequence.{read_sequence}
use safe_transmission.BaseAsn1.Sequence.RoundTrip.{
  IsElement, contents, received, sequence_node, write_sequence-sequence_node,
  read_sequence-sequence_node,
}
use safe_transmission.BaseAsn1.Buffers.{any_buffer}
use safe_transmission.BaseAsn1.Buffers.RoundTrip.{string_to_any_buf-some}
use safe_transmission.SequenceAsn1.{
  SequenceAsn1, Ref, live, freed, at, step, detach, pack_sequence, unpack_sequence,
}
use safe_transmission.SequenceAsn1.Writing.{writing, write_next_node_str-writing}
use safe_transmission.SequenceAsn1.Reading.{reading, read_next_node_str-reading}
use safe_transmission.Codec.CString.{write_field, read_field}
use safe_transmission.Codec.CString.Fields.{
  text_of, IsTerminated, strlen-text_of, take-text_of, length-text_of, filled, overwrite-filled,
}

-- The node of a field: its text with the terminating zero.
abbrev pub text_node : List ℕ → AnyBuf
text_node field = string_node 19 (text_of field ++ (0 ∷ []))

pub integer_node-IsElement : (v : ℕ) → IsElement (integer_node v)
unfolding length_field count_length_of_size
integer_node-IsElement v =
    let bounds = length-int_bytes v in
    record {
      content = int_bytes v;
      short = omega arith;
      fits = omega (arith, bounds);
      layout = ground (arith, bounds);
      measured = omega arith;
    }

pub string_node-IsElement :
    (bytes : List ℕ) → length bytes < 2 ^ 32 → IsElement (string_node 19 bytes)
string_node-IsElement bytes h = record {
  content = bytes;
  short = omega arith;
  fits = h;
  layout = refl;
  measured =
      omega
        (arith, length-append (header 19 (length bytes)) bytes, length-header 19 (length bytes) h);
}

-- An integer takes seven bytes at most.
pub integer_node_size : (v : ℕ) → (integer_node v).data_len ≤ 7
integer_node_size v = omega (arith, length-int_bytes v)

-- A field of at most `cap` characters takes at most six bytes more.
pub text_node_size :
    (field : List ℕ) (cap : ℕ)
    → IsTerminated field
    → length field ≤ cap
    → cap < 2 ^ 20
    → (text_node field).data_len ≤ cap + 6
text_node_size field cap t h small =
    let size = length-append (text_of field) (0 ∷ []) in
    omega (
      arith,
      length-text_of field t,
      size,
      count_bounds (length (text_of field ++ (0 ∷ [])))
          (omega (arith, size, length-text_of field t)),
    )

pub text_node-IsElement :
    (field : List ℕ) → IsTerminated field → length field < 2 ^ 20 → IsElement (text_node field)
text_node-IsElement field t h =
    string_node-IsElement _
      (omega (arith, length-append (text_of field) (0 ∷ []), length-text_of field t))

-- The blocks of five nodes, as long as the five fields of a message can be at most.
pub contents_five :
    (a b c d e : AnyBuf)
    → length a.p_data ≤ 80
    → length b.p_data ≤ 80
    → length c.p_data ≤ 80
    → length d.p_data ≤ 80
    → length e.p_data ≤ 80
    → length (contents (a ∷ b ∷ c ∷ d ∷ e ∷ [])) < 512
contents_five a b c d e h₀ h₁ h₂ h₃ h₄ = omega (
  arith,
  length-append a.p_data (contents (b ∷ c ∷ d ∷ e ∷ [])),
  length-append b.p_data (contents (c ∷ d ∷ e ∷ [])),
  length-append c.p_data (contents (d ∷ e ∷ [])),
  length-append d.p_data (contents (e ∷ [])),
  length-append e.p_data [],
)

node_measured :
    (ns : List AnyBuf)
    → length (contents ns) < 2 ^ 32
    → (sequence_node ns).data_len ≡ length (sequence_node ns).p_data
node_measured ns h =
    let n = length (contents ns) in
    omega (
      arith,
      length-append (length_field (count_length_of_size n) n) (contents ns),
      length-length_field n h,
    )

module _ (malloc : Allocator) (granted : Grants malloc (2 ^ 33)) where
  pub write_field-writing :
      (ns : List AnyBuf) (i : ℕ) (temp : Ref AnyBuf) (field : List ℕ)
      → length ns ≡ suc i
      → IsTerminated field
      → length field < 2 ^ 20
      → write_field malloc (writing ns i temp) field
        ≡ ok (writing (ns ++ (text_node field ∷ [])) (suc i) temp)
  unfolding write_field
  write_field-writing ns i temp field e t h =
      let n = suc (length (text_of field)) in
      ground (
        arith,
        strlen-text_of field t,
        take-text_of field t,
        length-text_of field t,
        write_next_node_str-writing malloc granted ns i temp field n e (length-text_of field t)
            (omega arith) (omega (arith, length-text_of field t)),
      )

  pub read_field-reading :
      (ns rest : List AnyBuf) (i : ℕ) (temp : Ref AnyBuf) (field old : List ℕ)
      → drop i ns ≡ text_node field ∷ rest
      → IsTerminated field
      → length field ≤ length old
      → length old < 2 ^ 20
      → read_field malloc (reading ns (at i) temp) old
        ≡ ok (filled old field, reading ns (step (at i) rest) freed)
  unfolding read_field
  read_field-reading ns rest i temp field old e t fits h =
      let size = length-append (text_of field) (0 ∷ []) in
      ground (
        arith,
        read_next_node_str-reading malloc granted ns rest i temp (text_of field ++ (0 ∷ [])) e
            (omega (arith, size, length-text_of field t)),
        overwrite-filled old field (omega (arith, length-text_of field t)),
      )

  pub pack_sequence-writing :
      (ns : List AnyBuf) (i : ℕ) (temp : Ref AnyBuf)
      → All IsElement ns
      → length (contents ns) < 2 ^ 30
      → let node = sequence_node ns in
        pack_sequence malloc (writing ns i temp)
        ≡ ok ((node.p_data, node.data_len), writing ns i (live node))
  unfolding pack_sequence
  pack_sequence-writing ns i temp es h = ground (
    arith,
    write_sequence-sequence_node malloc granted ns es (omega arith),
    count_bounds (length (contents ns)) (omega arith),
  )

  -- The copy of the packed block is read like the block.
  read_sequence-any_buffer :
      (ns : List AnyBuf)
      → All IsElement ns
      → length (contents ns) < 2 ^ 30
      → let node = sequence_node ns in
        read_sequence malloc (any_buffer node.p_data node.data_len) ≡ ok (map received ns)
  unfolding read_sequence any_buffer
  read_sequence-any_buffer ns es h = read_sequence-sequence_node malloc granted ns es (omega arith)

  -- Unpacking what was packed gives the chain back.
  pub unpack_sequence-reading :
      (s : SequenceAsn1) (n : AnyBuf) (ns : List AnyBuf)
      → All IsElement (n ∷ ns)
      → length (contents (n ∷ ns)) < 2 ^ 30
      → let node = sequence_node (n ∷ ns) in
        unpack_sequence malloc s (some node.p_data) node.data_len
        ≡ ok (reading (map received (n ∷ ns)) (detach s.header s.next) freed)
  unfolding unpack_sequence
  unpack_sequence-reading s n ns es h =
      let node = sequence_node (n ∷ ns) in
      ground (
        arith,
        string_to_any_buf-some malloc granted node.p_data node.data_len
            (node_measured (n ∷ ns) (omega arith)) (omega arith)
            (omega (arith, count_bounds (length (contents (n ∷ ns))) (omega arith))),
        read_sequence-any_buffer (n ∷ ns) es h,
      )
