-- ===== src/SequenceAsn1/Writing.antt =====
-- One node written at the end of the chain.
use safe_transmission.Common.{
  ℕ, suc, ◌^◌, ◌≤◌, ◌<◌, ◌≡◌, arith, List, [], ◌∷◌, ◌++◌, some, length, take, take_all,
  int_to_ulong, ok, err,
}
use safe_transmission.BaseAsn1.Memory.{Allocator, AnyBuf, Grants, data_range_err}
use safe_transmission.BaseAsn1.Integer.{write_integer}
use safe_transmission.BaseAsn1.Integer.RoundTrip.{integer_node, write_integer-integer_node}
use safe_transmission.BaseAsn1.Integer.Shortest.{write_integer_range}
use safe_transmission.BaseAsn1.Strings.RoundTrip.{string_node}
use safe_transmission.BaseAsn1.Buffers.RoundTrip.{encode_char-take}
use safe_transmission.SequenceAsn1.{
  SequenceAsn1, Ref, live, at, link, write_head_node_int, write_next_node_int, write_next_node_str,
}

-- The state with the cursor on the last of `ns`, at position `i`.
abbrev pub writing : List AnyBuf → ℕ → Ref AnyBuf → SequenceAsn1
writing ns i temp = record { header = live ns; next = at i; temp = temp }

link-writing :
    (ns : List AnyBuf) (i : ℕ) (temp : Ref AnyBuf) (n : AnyBuf)
    → length ns ≡ suc i
    → link (writing ns i temp) n ≡ ok (writing (ns ++ (n ∷ [])) (suc i) temp)
unfolding link
link-writing ns i temp n e = ground (arith, take_all (suc i) ns (omega arith))

module _ (malloc : Allocator) (granted : Grants malloc (2 ^ 33)) where
  small : Grants malloc 64
  small k h = granted k (omega arith)

  pub write_head_node_int-writing :
      (s : SequenceAsn1) (v : ℕ)
      → v < 2 ^ 31
      → write_head_node_int malloc s v ≡ ok (writing (integer_node v ∷ []) 0 s.temp)
  unfolding write_head_node_int
  write_head_node_int-writing s v h =
      ground (arith, write_integer-integer_node malloc small v (omega arith))

  -- A negative number is widened to more than 32 bits, and refused.
  pub write_integer_negative :
      (v : ℕ) → 2 ^ 31 ≤ v → v < 2 ^ 32 → write_integer malloc (int_to_ulong v) ≡ err data_range_err
  write_integer_negative v lo hi =
      (write_integer_range malloc (int_to_ulong v) small).1.1 (ground arith)

  pub write_next_node_int-writing :
      (ns : List AnyBuf) (i : ℕ) (temp : Ref AnyBuf) (v : ℕ)
      → length ns ≡ suc i
      → v < 2 ^ 31
      → write_next_node_int malloc (writing ns i temp) v
        ≡ ok (writing (ns ++ (integer_node v ∷ [])) (suc i) temp)
  unfolding write_next_node_int
  write_next_node_int-writing ns i temp v e h = ground (
    arith,
    write_integer-integer_node malloc small v (omega arith),
    link-writing ns i temp (integer_node v) e,
  )

  pub write_next_node_str-writing :
      (ns : List AnyBuf) (i : ℕ) (temp : Ref AnyBuf) (bytes : List ℕ) (len : ℕ)
      → length ns ≡ suc i
      → len ≤ length bytes
      → 0 < len
      → len < 2 ^ 31
      → write_next_node_str malloc (writing ns i temp) (some bytes) len
        ≡ ok (writing (ns ++ (string_node 19 (take len bytes) ∷ [])) (suc i) temp)
  unfolding write_next_node_str
  write_next_node_str-writing ns i temp bytes len e fits lo hi = ground (
    arith,
    encode_char-take malloc granted bytes len fits lo hi,
    link-writing ns i temp (string_node 19 (take len bytes)) e,
  )
