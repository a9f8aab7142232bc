-- ===== src/SequenceAsn1/Reading.antt =====
-- One node read at the cursor.
use safe_transmission.Common.{ℕ, ◌^◌, ◌<◌, ◌≡◌, refl, arith, List, ◌∷◌, length, drop, ok}
use safe_transmission.BaseAsn1.Memory.{Allocator, AnyBuf, Grants}
use safe_transmission.BaseAsn1.Integer.RoundTrip.{integer_node, read_integer-integer_node}
use safe_transmission.BaseAsn1.Strings.RoundTrip.{
  string_node, read_bytes_all, read_printable_string-string_node,
}
use safe_transmission.SequenceAsn1.{
  SequenceAsn1, Ref, live, freed, Cursor, at, step, read_head_node_int, read_next_node_int,
  read_next_node_str,
}

-- The state with the cursor at `c`.
abbrev pub reading : List AnyBuf → Cursor → Ref AnyBuf → SequenceAsn1
reading ns c temp = record { header = live ns; next = c; temp = temp }

module _ (malloc : Allocator) (granted : Grants malloc (2 ^ 33)) where
  small : Grants malloc 64
  small k h = granted k (omega arith)

  pub read_head_node_int-reading :
      (ns : List AnyBuf) (c : Cursor) (temp : Ref AnyBuf) (v : ℕ)
      → v < 2 ^ 32
      → read_head_node_int malloc (reading (integer_node v ∷ ns) c temp)
        ≡ ok (v, reading (integer_node v ∷ ns) (step (at 0) ns) temp)
  unfolding read_head_node_int
  read_head_node_int-reading ns c temp v h =
      ground (arith, read_integer-integer_node malloc small v h)

  pub read_next_node_int-reading :
      (ns rest : List AnyBuf) (i : ℕ) (temp : Ref AnyBuf) (v : ℕ)
      → drop i ns ≡ integer_node v ∷ rest
      → v < 2 ^ 32
      → read_next_node_int malloc (reading ns (at i) temp)
        ≡ ok (v, reading ns (step (at i) rest) temp)
  unfolding read_next_node_int
  read_next_node_int-reading ns rest i temp v e h =
      ground (arith, e, read_integer-integer_node malloc small v h)

  pub read_next_node_str-reading :
      (ns rest : List AnyBuf) (i : ℕ) (temp : Ref AnyBuf) (bytes : List ℕ)
      → drop i ns ≡ string_node 19 bytes ∷ rest
      → length bytes < 2 ^ 32
      → read_next_node_str malloc (reading ns (at i) temp)
        ≡ ok (bytes, reading ns (step (at i) rest) freed)
  unfolding read_next_node_str
  read_next_node_str-reading ns rest i temp bytes e h = ground (
    arith,
    e,
    read_printable_string-string_node malloc granted (string_node 19 bytes) 19 bytes refl refl
        (omega arith) (omega arith) (omega arith) h,
    read_bytes_all bytes (length bytes) refl,
  )
