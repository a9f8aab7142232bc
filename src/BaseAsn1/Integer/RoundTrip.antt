-- ===== src/BaseAsn1/Integer/RoundTrip.antt =====
-- Integers written and read back, and the form in which they are written.
use safe_transmission.Common.{
  ℕ, ◌+◌, ◌/◌, ◌%◌, ◌^◌, ◌≤◌, ◌<◌, ◌≡◌, arith, List, [], ◌∷◌, ◌++◌, ltb, true, ok, length,
  if◌then◌else◌, append-nil,
}
use safe_transmission.BaseAsn1.Memory.{Allocator, AnyBuf, Grants, anybuf_size, malloc_memory}
use safe_transmission.BaseAsn1.Header.{read_big_endian}
use safe_transmission.BaseAsn1.Integer.{int_to_char, char_to_int, write_integer, read_integer}
use safe_transmission.BaseAsn1.Header.RoundTrip.{get_tag_info-short, get_length_info-short}

-- The bytes of a value below 2 ^ 32, with a zero in front where the first would have its top bit set.
unfoldable pub int_bytes : ℕ → List ℕ
int_bytes v =
    if ltb v 0x80
    then v ∷ []
    else if ltb v 0x8000
    then (v / 256) ∷ v % 256 ∷ []
    else if ltb v 0x800000
    then (v / 65536) ∷ v / 256 % 256 ∷ v % 256 ∷ []
    else if ltb v 0x80000000
    then (v / 16777216) ∷ v / 65536 % 256 ∷ v / 256 % 256 ∷ v % 256 ∷ []
    else 0 ∷ v / 16777216 ∷ v / 65536 % 256 ∷ v / 256 % 256 ∷ v % 256 ∷ []

pub length-int_bytes : (v : ℕ) → (1 ≤ length (int_bytes v)) × (length (int_bytes v) ≤ 5)
unfolding int_bytes
length-int_bytes v = ground arith

-- The node that is written for `v`.
abbrev pub integer_node : ℕ → AnyBuf
integer_node v = record {
  p_data = 2 ∷ length (int_bytes v) ∷ int_bytes v;
  data_len = length (int_bytes v) + 2;
  unused_bits = 0;
  memory_type = malloc_memory;
  data_type = 2;
}

module _ (malloc : Allocator) (granted : Grants malloc 64) where
  pub int_to_char-int_bytes : (v : ℕ) → v < 2 ^ 32 → int_to_char malloc v ≡ ok (int_bytes v)
  unfolding int_to_char int_bytes
  int_to_char-int_bytes v h = ground (
    arith,
    granted 8 (omega arith),
    granted 1 (omega arith),
    granted 2 (omega arith),
    granted 3 (omega arith),
    granted 4 (omega arith),
    granted 5 (omega arith),
  )

  pub char_to_int-int_bytes :
      (v : ℕ) (rest : List ℕ)
      → v < 2 ^ 32
      → char_to_int malloc (int_bytes v ++ rest) (length (int_bytes v)) ≡ ok v
  unfolding char_to_int int_bytes read_big_endian
  char_to_int-int_bytes v rest h = ground (arith, granted 8 (omega arith))

  pub write_integer-integer_node :
      (v : ℕ) → v < 2 ^ 32 → write_integer malloc v ≡ ok (integer_node v)
  unfolding write_integer
  write_integer-integer_node v h = rw (int_to_char-int_bytes v h) (
      ground (
        arith,
        length-int_bytes v,
        granted (length (int_bytes v) + 2) (omega (arith, length-int_bytes v)),
        granted anybuf_size (omega arith),
      ))

  pub read_integer-integer_node : (v : ℕ) → v < 2 ^ 32 → read_integer malloc (integer_node v) ≡ ok v
  unfolding read_integer
  read_integer-integer_node v h =
      rw
        (
          get_tag_info-short malloc eight 2 (length (int_bytes v) ∷ int_bytes v) (omega arith),
          get_length_info-short malloc eight (length (int_bytes v)) (int_bytes v)
              (omega (arith, length-int_bytes v)),
        )
        (rw append-nil at (char_to_int-int_bytes v [] h))
    where
      eight : malloc 8 ≡ true
      eight = granted 8 (omega arith)

  -- If requests of up to 64 bytes are granted, DER_ItAsn1_WriteInteger succeeds on every value below
  -- 2 ^ 32, and DER_ItAsn1_ReadInteger reads the value back from what it wrote.
  pub read_integer-write_integer :
      (v : ℕ)
      → v < 2 ^ 32
      → (buf : AnyBuf) × (write_integer malloc v ≡ ok buf) × (read_integer malloc buf ≡ ok v)
  read_integer-write_integer v h =
      (integer_node v, write_integer-integer_node v h, read_integer-integer_node v h)
