-- ===== src/BaseAsn1/Sequence/DoubleFree.antt =====
-- The error path inside a sequence: DER_ItAsn1_ReadSequence frees the four numbers of the element
-- that it reads, also where they still point to those of the element before, which are free.
use safe_transmission.Common.{
  ℕ, zero, suc, ◌+◌, ◌^◌, ◌<◌, ◌≡◌, refl, ap, ◌∙◌, arith, List, [], ◌∷◌, ◌++◌, err, fault, length,
  append_assoc, length-append, All,
}
use safe_transmission.BaseAsn1.Memory.{Allocator, AnyBuf, Grants, length_err}
use safe_transmission.BaseAsn1.Tag
use safe_transmission.BaseAsn1.Header.{
  get_length_info, length_info, count_length_of_size, length_field,
}
use safe_transmission.BaseAsn1.Header.RoundTrip.{
  get_tag_info-short, get_length_info-length_field, count_bounds,
}
use safe_transmission.BaseAsn1.Sequence.{
  null_pointer, all_freed, read_item, read_items, read_sequence,
}
use safe_transmission.BaseAsn1.Sequence.RoundTrip.{
  IsElement, contents, element_size, read_item-element, get_tag_info-sequence,
}

-- A length byte that announces more than four bytes is refused.
long_length :
    (malloc : Allocator) (b : ℕ) (more : List ℕ)
    → 132 < b
    → b < 256
    → get_length_info malloc (b ∷ more) ≡ err length_err
unfolding get_length_info length_info
long_length malloc b more lo hi = ground arith

module _ (malloc : Allocator) (granted : Grants malloc (2 ^ 33)) (tag b : ℕ) (more : List ℕ)
    (short : tag < 31) (lo : 132 < b) (hi : b < 256) where
  read_item_bad : read_item malloc all_freed (tag ∷ b ∷ more) ≡ fault
  unfolding read_item
  read_item_bad = rw (
    get_tag_info-short malloc (granted 8 (omega arith)) tag (b ∷ more) short,
    long_length malloc b more lo hi,
  )

  -- The four pointers at the head of a round, were those to the length reset to null.
  read_item_reset :
      read_item malloc
        (record all_freed { length_value = null_pointer; length_size = null_pointer })
        (tag ∷ b ∷ more)
      ≡ err length_err
  unfolding read_item
  read_item_reset =
      rw
        (
          get_tag_info-short malloc (granted 8 (omega arith)) tag (b ∷ more) short,
          long_length malloc b more lo hi,
        )
        refl

  read_items_bad :
      (fuel : ℕ) (ns : List AnyBuf)
      → All IsElement ns
      → let body = contents ns ++ (tag ∷ b ∷ more) in
        length body < fuel
        → length body < 2 ^ 31
        → read_items malloc fuel all_freed body (length body) ≡ fault
  unfolding read_items
  read_items_bad zero ns es h k = absurd (omega arith)
  read_items_bad (suc fuel) [] es h k = ground (arith, read_item_bad)
  read_items_bad (suc fuel) (n ∷ ns) (e, es) h k =
      let tail = tag ∷ b ∷ more in
      let rest = contents ns ++ tail in
      let split : length ((n.p_data ++ contents ns) ++ tail) ≡ length n.p_data + length rest =
        ap length (append_assoc n.p_data (contents ns) tail) ∙ length-append n.p_data rest in
      let size = element_size n e in
      ground (
        arith,
        read_item-element malloc granted n rest e,
        append_assoc n.p_data (contents ns) tail,
        split,
        e.measured,
        size,
        read_items_bad fuel ns es (omega (arith, split, e.measured, size)),
      )

  -- If requests of up to 2 ^ 33 bytes are granted, DER_ItAsn1_ReadSequence ends in undefined behaviour
  -- on every sequence below 2 GB in which whole elements, or none, are followed by a short tag and a
  -- length byte that announces more than four bytes (133 to 255). A round of its loop on these two
  -- bytes that begins with pTagValue and pTagSize pointing to freed numbers, but pLengthValue and
  -- pLengthSize null, answers LengthErr; and so does the call for the same length byte at the head of
  -- the sequence.
  pub read_sequence_frees_twice :
      (ns : List AnyBuf) (buf : AnyBuf)
      → All IsElement ns
      → let body = contents ns ++ (tag ∷ b ∷ more) in
        length body < 2 ^ 31
        → buf.p_data
          ≡ Tag.sequence ∷ (length_field (count_length_of_size (length body)) (length body) ++ body)
        → buf.data_len ≡ length body + 1 + count_length_of_size (length body)
        → (read_sequence malloc buf ≡ fault)
          × (read_sequence malloc (record buf { p_data = Tag.sequence ∷ b ∷ more })
              ≡ err length_err)
          × (read_item malloc
                (record all_freed { length_value = null_pointer; length_size = null_pointer })
                (tag ∷ b ∷ more)
              ≡ err length_err)
  unfolding read_sequence
  read_sequence_frees_twice ns buf es k e l =
      let body = contents ns ++ (tag ∷ b ∷ more) in
      (
        ground (
          arith,
          e,
          l,
          count_bounds (length body) (omega arith),
          get_tag_info-sequence malloc granted
              (length_field (count_length_of_size (length body)) (length body) ++ body),
          get_length_info-length_field malloc (granted 8 (omega arith)) (length body) body
              (omega arith),
          read_items_bad (suc (length body)) ns es (omega arith) k,
        ),
        rw (get_tag_info-sequence malloc granted (b ∷ more), long_length malloc b more lo hi) refl,
        read_item_reset,
      )
