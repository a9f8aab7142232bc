-- ===== src/BaseAsn1/Strings/RoundTrip.antt =====
-- Strings written and read back.
use safe_transmission.Common.{
  ℕ, suc, ◌+◌, ◌%◌, ◌^◌, ◌<◌, ◌≡◌, ◌≢◌, refl, arith, List, [], ◌∷◌, ◌++◌, ◌==◌, ok, length,
  if◌then◌else◌, append_assoc, take_all,
}
use safe_transmission.BaseAsn1.Memory.{
  Allocator, AnyBuf, Grants, malloc_memory, read_bytes, copy_in,
}
use safe_transmission.BaseAsn1.Header.{count_length_of_size}
use safe_transmission.BaseAsn1.Element.RoundTrip.{
  header, write_bitstring_header, write_string_header, read_string_header, read_bitstring_header,
}
use safe_transmission.BaseAsn1.Strings.{
  write_bit_string, read_bit_string, write_printable_string, read_printable_string,
  write_char_string, write_bmp_string,
}

pub read_bytes_all : (bytes : List ℕ) (n : ℕ) → n ≡ length bytes → read_bytes n bytes ≡ ok bytes
unfolding read_bytes
read_bytes_all bytes n h = ground (arith, take_all n bytes)

copy_in_all :
    (out : AnyBuf) (bytes : List ℕ) (n : ℕ)
    → n ≡ length bytes
    → copy_in out n bytes n ≡ ok (record out { p_data = out.p_data ++ bytes })
unfolding copy_in
copy_in_all out bytes n h = ground (arith, read_bytes_all bytes n h)

-- The node that is written for a string under a tag.
abbrev pub string_node : ℕ → List ℕ → AnyBuf
string_node tag bytes = record {
  p_data = header tag (length bytes) ++ bytes;
  data_len = length bytes + (1 + count_length_of_size (length bytes));
  unused_bits = 0;
  memory_type = malloc_memory;
  data_type = tag;
}

-- What is read back: the bytes alone.
abbrev pub plain_node : ℕ → ℕ → List ℕ → AnyBuf
plain_node tag unused bytes = record {
  p_data = bytes;
  data_len = length bytes;
  unused_bits = unused;
  memory_type = malloc_memory;
  data_type = tag;
}

abbrev pub bitstring_node : ℕ → List ℕ → AnyBuf
bitstring_node unused bytes =
    let size = length bytes + 1 in
    record {
      p_data = header 3 size ++ (unused % 256 ∷ bytes);
      data_len = size + (1 + count_length_of_size size);
      unused_bits = unused;
      memory_type = malloc_memory;
      data_type = 3;
    }

-- The type that WritePrintableString gives to what it writes.
abbrev pub string_tag : AnyBuf → ℕ
string_tag any = if any.data_type == 30 then 30 else 19

module _ (malloc : Allocator) (granted : Grants malloc (2 ^ 33)) where
  pub write_printable_string-string_node :
      (any : AnyBuf)
      → any.data_len ≡ length any.p_data
      → any.data_len < 2 ^ 32
      → write_printable_string malloc any ≡ ok (string_node (string_tag any) any.p_data)
  unfolding write_printable_string write_char_string write_bmp_string
  write_printable_string-string_node any e h = ground (
    arith,
    write_string_header malloc granted any 19 h (omega arith) (omega arith) (omega arith),
    write_string_header malloc granted any 30 h (omega arith) (omega arith) (omega arith),
    copy_in_all
        (record {
          p_data = header 19 any.data_len;
          data_len = any.data_len + (1 + count_length_of_size any.data_len);
          unused_bits = 0;
          memory_type = malloc_memory;
          data_type = 19;
        })
        any.p_data any.data_len e,
    copy_in_all
        (record {
          p_data = header 30 any.data_len;
          data_len = any.data_len + (1 + count_length_of_size any.data_len);
          unused_bits = 0;
          memory_type = malloc_memory;
          data_type = 30;
        })
        any.p_data any.data_len e,
  )

  -- Also where the node carries another type than its tag, as long as that is not a bit string's.
  pub read_printable_string-string_node :
      (buf : AnyBuf) (tag : ℕ) (bytes : List ℕ)
      → buf.p_data ≡ header tag (length bytes) ++ bytes
      → buf.data_len ≡ length bytes + (1 + count_length_of_size (length bytes))
      → buf.data_type ≢ 3
      → tag < 31
      → tag ≢ 2
      → length bytes < 2 ^ 32
      → read_printable_string malloc buf ≡ ok (plain_node tag 0 bytes)
  unfolding read_printable_string
  read_printable_string-string_node buf tag bytes e l d short ni h = ground (
    arith,
    read_string_header malloc granted buf tag (length bytes) bytes e l d short ni h,
    read_bytes_all bytes (length bytes) refl,
  )

  pub write_bit_string-bitstring_node :
      (any : AnyBuf)
      → any.data_len ≡ length any.p_data
      → any.data_len + 1 < 2 ^ 32
      → write_bit_string malloc any ≡ ok (bitstring_node any.unused_bits any.p_data)
  unfolding write_bit_string
  write_bit_string-bitstring_node any e h =
      let size = any.data_len + 1 in
      rw (write_bitstring_header malloc granted any h) (
        ground (
          arith,
          append_assoc (header 3 size) (any.unused_bits % 256 ∷ []) any.p_data,
          copy_in_all
              (record {
                p_data = header 3 size ++ (any.unused_bits % 256 ∷ []);
                data_len = size + (1 + count_length_of_size size);
                unused_bits = any.unused_bits;
                memory_type = malloc_memory;
                data_type = 3;
              })
              any.p_data any.data_len e,
        ))

  pub read_bit_string-bitstring_node :
      (unused : ℕ) (bytes : List ℕ)
      → length bytes + 1 < 2 ^ 32
      → read_bit_string malloc (bitstring_node unused bytes) ≡ ok (plain_node 3 unused bytes)
  unfolding read_bit_string
  read_bit_string-bitstring_node unused bytes h =
      let e : length bytes + 1 ≡ suc (length bytes) = omega arith in
      ground (
        arith,
        read_bitstring_header malloc granted (bitstring_node unused bytes) 3 (length bytes)
            (unused % 256) bytes (rw e) (rw e) refl (omega arith) (omega arith) (omega arith),
        read_bytes_all bytes (length bytes) refl,
      )

  -- If requests of up to 2 ^ 33 bytes are granted, DER_ItAsn1_WritePrintableString succeeds on every
  -- node that holds as many bytes as it says, fewer than 2 ^ 32, and DER_ItAsn1_ReadPrintableString
  -- reads the same bytes back from what it wrote, under the tag 30 for a node of that type and under 19
  -- for any other.
  pub read_printable_string-write_printable_string :
      (any : AnyBuf)
      → any.data_len ≡ length any.p_data
      → any.data_len < 2 ^ 32
      → (buf : AnyBuf) × (write_printable_string malloc any ≡ ok buf)
        × (read_printable_string malloc buf ≡ ok (plain_node (string_tag any) 0 any.p_data))
  read_printable_string-write_printable_string any e h =
      let tag = string_tag any in
      let small : tag < 31 = ground arith in
      let other : tag ≢ 2 = ground arith in
      let plain : tag ≢ 3 = ground arith in
      (
        string_node tag any.p_data,
        write_printable_string-string_node any e h,
        read_printable_string-string_node (string_node tag any.p_data) tag any.p_data refl refl
            plain small other (omega arith),
      )

  -- If requests of up to 2 ^ 33 bytes are granted, DER_ItAsn1_WriteBitString succeeds on every node that
  -- holds as many bytes as it says, fewer than 2 ^ 32 - 1, and DER_ItAsn1_ReadBitString reads the same
  -- bytes and the same number of unused bits back from what it wrote.
  pub read_bit_string-write_bit_string :
      (any : AnyBuf)
      → any.data_len ≡ length any.p_data
      → any.data_len + 1 < 2 ^ 32
      → (buf : AnyBuf) × (write_bit_string malloc any ≡ ok buf)
        × (read_bit_string malloc buf ≡ ok (plain_node 3 any.unused_bits any.p_data))
  read_bit_string-write_bit_string any e h = (
    bitstring_node any.unused_bits any.p_data,
    write_bit_string-bitstring_node any e h,
    read_bit_string-bitstring_node any.unused_bits any.p_data (omega arith),
  )
