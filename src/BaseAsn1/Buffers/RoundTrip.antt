-- ===== src/BaseAsn1/Buffers/RoundTrip.antt =====
-- Byte arrays encoded and decoded.
use safe_transmission.Common.{
  ℕ, suc, ◌+◌, ◌%◌, ◌^◌, ◌≤◌, ◌<◌, ◌≡◌, refl, arith, List, [], ◌∷◌, ◌++◌, none, some, Result, ok,
  err, length, take, length-take,
}
use safe_transmission.BaseAsn1.Memory.{Allocator, AnyBuf, Grants, anybuf_size, read_bytes}
use safe_transmission.BaseAsn1.Strings.RoundTrip.{
  string_node, plain_node, bitstring_node, read_bytes_all, write_printable_string-string_node,
  read_printable_string-string_node, write_bit_string-bitstring_node,
  read_bit_string-bitstring_node,
}
use safe_transmission.BaseAsn1.Strings.{read_printable_string, read_bit_string}
use safe_transmission.BaseAsn1.Buffers.{
  string_to_any_buf, any_buffer, hand_out, encode_char, decode_char, encode_unsigned_char,
  decode_unsigned_char, input_data_err,
}

module _ (malloc : Allocator) (granted : Grants malloc (2 ^ 33)) where
  pub string_to_any_buf-some :
      (bytes : List ℕ) (len : ℕ)
      → len ≡ length bytes
      → 0 < len
      → len < 2 ^ 31
      → string_to_any_buf malloc (some bytes) len ≡ ok (any_buffer bytes len)
  unfolding string_to_any_buf
  string_to_any_buf-some bytes len e lo hi = ground (
    arith,
    granted len (omega arith),
    granted anybuf_size (omega arith),
    read_bytes_all bytes len e,
  )

  string_to_any_buf-none : string_to_any_buf malloc none 0 ≡ ok (any_buffer [] 0)
  unfolding string_to_any_buf
  string_to_any_buf-none = rw (granted anybuf_size (omega arith))

  string_to_any_buf-take :
      (bytes : List ℕ) (len : ℕ)
      → len ≤ length bytes
      → 0 < len
      → len < 2 ^ 31
      → string_to_any_buf malloc (some bytes) len ≡ ok (any_buffer (take len bytes) len)
  unfolding string_to_any_buf read_bytes
  string_to_any_buf-take bytes len e lo hi =
      ground (arith, granted len (omega arith), granted anybuf_size (omega arith))

  -- The first `len` bytes of an array are what is encoded.
  pub encode_char-take :
      (bytes : List ℕ) (len : ℕ)
      → len ≤ length bytes
      → 0 < len
      → len < 2 ^ 31
      → encode_char malloc (some bytes) len ≡ ok (string_node 19 (take len bytes))
  unfolding encode_char any_buffer
  encode_char-take bytes len e lo hi = ground (
    arith,
    string_to_any_buf-take bytes len e lo hi,
    write_printable_string-string_node malloc granted (any_buffer (take len bytes) len)
        (omega (arith, length-take len bytes e)) (omega arith),
  )

  pub encode_char-string_node :
      (bytes : List ℕ) (len : ℕ)
      → len ≡ length bytes
      → 0 < len
      → len < 2 ^ 31
      → encode_char malloc (some bytes) len ≡ ok (string_node 19 bytes)
  unfolding encode_char any_buffer
  encode_char-string_node bytes len e lo hi = ground (
    arith,
    string_to_any_buf-some bytes len e lo hi,
    write_printable_string-string_node malloc granted (any_buffer bytes len) e (omega arith),
  )

  encode_char-null : encode_char malloc none 0 ≡ ok (string_node 19 [])
  unfolding encode_char any_buffer
  encode_char-null = rw (
    string_to_any_buf-none,
    write_printable_string-string_node malloc granted (any_buffer [] 0) refl (omega arith),
  )

  hand_out-plain_node :
      (tag unused : ℕ) (bytes : List ℕ) (r : Result AnyBuf)
      → r ≡ ok (plain_node tag unused bytes)
      → 0 < length bytes
      → length bytes < 2 ^ 31
      → hand_out malloc r ≡ ok (some (bytes ++ (0 ∷ [])), length bytes)
  unfolding hand_out
  hand_out-plain_node tag unused bytes r e lo hi =
      ground (
        arith,
        e,
        granted (length bytes + 1) (omega arith),
        read_bytes_all bytes (length bytes) refl,
      )

  -- What EncodeChar makes of a pointer and a length, on every branch, if requests of up to 2 ^ 33 bytes
  -- are granted: an array of `length bytes` bytes, at least one and fewer than 2 ^ 31, is encoded, and
  -- DecodeChar gives it back with a zero behind it and its length; a null pointer with length 0 is
  -- encoded, and comes back as that; a pointer without a length, or a length without a pointer, is
  -- refused with the code 106.
  pub decode_char-encode_char :
      (bytes : List ℕ) (n : ℕ)
      → 0 < length bytes
      → length bytes < 2 ^ 31
      → ((buf : AnyBuf) × (encode_char malloc (some bytes) (length bytes) ≡ ok buf)
          × (decode_char malloc buf ≡ ok (some (bytes ++ (0 ∷ [])), length bytes)))
        × ((buf : AnyBuf) × (encode_char malloc none 0 ≡ ok buf)
            × (decode_char malloc buf ≡ ok (none, 0)))
        × (encode_char malloc (some bytes) 0 ≡ err input_data_err)
        × (encode_char malloc none (suc n) ≡ err input_data_err)
  unfolding decode_char encode_char
  decode_char-encode_char bytes n lo hi = (
    (
      string_node 19 bytes,
      unfold encode_char in encode_char-string_node bytes (length bytes) refl lo hi,
      hand_out-plain_node 19 0 bytes (read_printable_string malloc (string_node 19 bytes))
          (read_printable_string-string_node malloc granted (string_node 19 bytes) 19 bytes refl
            refl (omega arith) (omega arith) (omega arith) (omega arith))
          lo hi,
    ),
    (
      string_node 19 [],
      encode_char-null,
      rw (
          read_printable_string-string_node malloc granted (string_node 19 []) 19 [] refl refl
            (omega arith) (omega arith) (omega arith) (omega arith)),
    ),
    refl,
    ground arith,
  )

  -- The same for EncodeUnsignedChar and DecodeUnsignedChar, which go by a bit string.
  pub decode_unsigned_char-encode_unsigned_char :
      (bytes : List ℕ) (n : ℕ)
      → 0 < length bytes
      → length bytes < 2 ^ 31
      → ((buf : AnyBuf) × (encode_unsigned_char malloc (some bytes) (length bytes) ≡ ok buf)
          × (decode_unsigned_char malloc buf ≡ ok (some (bytes ++ (0 ∷ [])), length bytes)))
        × ((buf : AnyBuf) × (encode_unsigned_char malloc none 0 ≡ ok buf)
            × (decode_unsigned_char malloc buf ≡ ok (none, 0)))
        × (encode_unsigned_char malloc (some bytes) 0 ≡ err input_data_err)
        × (encode_unsigned_char malloc none (suc n) ≡ err input_data_err)
  unfolding decode_unsigned_char encode_unsigned_char any_buffer
  decode_unsigned_char-encode_unsigned_char bytes n lo hi = (
    (
      bitstring_node (length bytes % 8) bytes,
      ground (
        arith,
        string_to_any_buf-some bytes (length bytes) refl lo hi,
        write_bit_string-bitstring_node malloc granted (any_buffer bytes (length bytes)) refl
            (omega arith),
      ),
      hand_out-plain_node 3 (length bytes % 8) bytes
          (read_bit_string malloc (bitstring_node (length bytes % 8) bytes))
          (read_bit_string-bitstring_node malloc granted (length bytes % 8) bytes (omega arith)) lo
          hi,
    ),
    (
      bitstring_node 0 [],
      rw (
        string_to_any_buf-none,
        write_bit_string-bitstring_node malloc granted (any_buffer [] 0) refl (omega arith),
      ),
      rw (read_bit_string-bitstring_node malloc granted 0 [] (omega arith)),
    ),
    refl,
    ground arith,
  )
