-- ===== src/BaseAsn1/Element/RoundTrip.antt =====
-- The headers of strings, written and read back.
use safe_transmission.Common.{
  ℕ, suc, ◌+◌, ◌%◌, ◌^◌, ◌<◌, ◌≡◌, ◌≢◌, arith, List, [], ◌∷◌, ◌++◌, ok, length, append-nil,
  length-append,
}
use safe_transmission.BaseAsn1.Memory.{Allocator, AnyBuf, Grants, malloc_memory}
use safe_transmission.BaseAsn1.Header.{count_length_of_size, length_field}
use safe_transmission.BaseAsn1.Header.RoundTrip.{
  get_tag_info-short, get_length_info-length_field, length-length_field, count_bounds,
}
use safe_transmission.BaseAsn1.Element.{write_tag_and_length, read_tag_and_length}

-- The tag and the length in front of a content of `size` bytes.
abbrev pub header : ℕ → ℕ → List ℕ
header tag size = tag ∷ length_field (count_length_of_size size) size

pub length-header :
    (tag size : ℕ) → size < 2 ^ 32 → length (header tag size) ≡ 1 + count_length_of_size size
length-header tag size h = omega (arith, length-length_field size h)

module _ (malloc : Allocator) (granted : Grants malloc (2 ^ 33)) where
  pub write_bitstring_header :
      (any : AnyBuf)
      → any.data_len + 1 < 2 ^ 32
      → write_tag_and_length malloc any 3
        ≡ ok (
          record {
            p_data = header 3 (any.data_len + 1) ++ (any.unused_bits % 256 ∷ []);
            data_len = any.data_len + 1 + (1 + count_length_of_size (any.data_len + 1));
            unused_bits = any.unused_bits;
            memory_type = malloc_memory;
            data_type = 3;
          },
          any.data_len,
        )
  unfolding write_tag_and_length
  write_bitstring_header any h =
      let size = any.data_len + 1 in
      let k = count_length_of_size size in
      ground (
        arith,
        granted 56 (omega arith),
        granted (size + (1 + k)) (omega (arith, count_bounds size h)),
        count_bounds size h,
        length-length_field size h,
        length-append (length_field k size) (any.unused_bits % 256 ∷ []),
      )

  pub write_string_header :
      (any : AnyBuf) (tag : ℕ)
      → any.data_len < 2 ^ 32
      → tag < 31
      → tag ≢ 2
      → tag ≢ 3
      → write_tag_and_length malloc any tag
        ≡ ok (
          record {
            p_data = header tag any.data_len;
            data_len = any.data_len + (1 + count_length_of_size any.data_len);
            unused_bits = 0;
            memory_type = malloc_memory;
            data_type = tag;
          },
          any.data_len,
        )
  unfolding write_tag_and_length
  write_string_header any tag h short ni nb =
      let k = count_length_of_size any.data_len in
      rw (← append-nil (length_field k any.data_len)) (
        ground (
          arith,
          granted 56 (omega arith),
          granted (any.data_len + (1 + k)) (omega (arith, count_bounds any.data_len h)),
          count_bounds any.data_len h,
          length-length_field any.data_len h,
          append-nil (length_field k any.data_len),
          length-append (length_field k any.data_len) [],
        ))

  -- A header in front of a content, read as a string or as a bit string by the type of the node.
  pub read_string_header :
      (buf : AnyBuf) (tag size : ℕ) (content : List ℕ)
      → buf.p_data ≡ header tag size ++ content
      → buf.data_len ≡ size + (1 + count_length_of_size size)
      → buf.data_type ≢ 3
      → tag < 31
      → tag ≢ 2
      → size < 2 ^ 32
      → read_tag_and_length malloc buf
        ≡ ok (
          record {
            p_data = [];
            data_len = size;
            unused_bits = 0;
            memory_type = malloc_memory;
            data_type = tag;
          },
          content,
        )
  unfolding read_tag_and_length
  read_string_header buf tag size content e l d short ni h = ground (
    arith,
    granted 56 (omega arith),
    granted size (omega arith),
    count_bounds size h,
    get_tag_info-short malloc (granted 8 (omega arith)) tag
        (length_field (count_length_of_size size) size ++ content) short,
    get_length_info-length_field malloc (granted 8 (omega arith)) size content h,
  )

  pub read_bitstring_header :
      (buf : AnyBuf) (tag size b : ℕ) (content : List ℕ)
      → buf.p_data ≡ header tag (suc size) ++ (b ∷ content)
      → buf.data_len ≡ suc size + (1 + count_length_of_size (suc size))
      → buf.data_type ≡ 3
      → tag < 31
      → tag ≢ 2
      → suc size < 2 ^ 32
      → read_tag_and_length malloc buf
        ≡ ok (
          record {
            p_data = [];
            data_len = size;
            unused_bits = buf.unused_bits;
            memory_type = malloc_memory;
            data_type = tag;
          },
          content,
        )
  unfolding read_tag_and_length
  read_bitstring_header buf tag size b content e l d short ni h = ground (
    arith,
    granted 56 (omega arith),
    granted size (omega arith),
    count_bounds (suc size) h,
    get_tag_info-short malloc (granted 8 (omega arith)) tag
        (length_field (count_length_of_size (suc size)) (suc size) ++ (b ∷ content)) short,
    get_length_info-length_field malloc (granted 8 (omega arith)) (suc size) (b ∷ content) h,
  )
