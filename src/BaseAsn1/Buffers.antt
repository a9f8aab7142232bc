-- ===== src/BaseAsn1/Buffers.antt =====
-- Safe_transmission/ServerSeckey/ServerSeckey/BaseASN1.cpp: byte arrays to elements and back. A
-- pointer to an array that may be null is an `Option`, and an `int` is its 32-bit pattern.
pub mod RoundTrip
use safe_transmission.Common.{
  ℕ, ◌+◌, ◌%◌, Bool, true, false, List, [], ◌∷◌, ◌++◌, ◌==◌, if◌then◌else◌, Option, none, some, u64,
  to_int, is_positive, minus_one, Result, ok, err, fault, ◌>>=◌, ◌>>◌, guard, recode,
}
use safe_transmission.BaseAsn1.Memory.{Allocator, AnyBuf, memory_err, anybuf_size, read_bytes}
use safe_transmission.BaseAsn1.Tag
use safe_transmission.BaseAsn1.Strings.{
  write_bit_string, read_bit_string, write_printable_string, read_printable_string,
}

-- The bytes behind a pointer.
abbrev bytes_of : Option (List ℕ) → List ℕ
bytes_of none = []
bytes_of (some bytes) = bytes

abbrev pub input_data_err : ℕ
input_data_err = 106

-- The node that stands for `len` bytes: it says that the last `len % 8` bits are unused.
unfoldable pub any_buffer : List ℕ → ℕ → AnyBuf
any_buffer bytes len = record {
  p_data = bytes;
  data_len = len;
  unused_bits = len % 8;
  memory_type = 0;
  data_type = Tag.printable;
}

-- A length of 0 or less is stored as 0, with no data.
unfoldable pub string_to_any_buf : Allocator → Option (List ℕ) → ℕ → Result AnyBuf
unfolding any_buffer
string_to_any_buf malloc origin len =
    let copied = (do
      guard (malloc len) memory_err
      bytes ← read_bytes len (bytes_of origin)
      ok (any_buffer bytes len)) in
    do
      guard (malloc anybuf_size) memory_err
      if is_positive len then copied else ok (any_buffer [] 0)

module _ (malloc : Allocator) where
  unfoldable pub encode_unsigned_char : Option (List ℕ) → ℕ → Result AnyBuf
  encode_unsigned_char none len =
      if len == 0
      then (do buf ← string_to_any_buf malloc none 0; write_bit_string malloc buf)
      else err input_data_err
  encode_unsigned_char (some bytes) len =
      if len == 0
      then err input_data_err
      else recode minus_one
          (do buf ← string_to_any_buf malloc (some bytes) len; write_bit_string malloc buf)

  -- What both decoders do with the node that was read: a copy with a zero behind it.
  hand_out : Result AnyBuf → Result (Option (List ℕ) × ℕ)
  hand_out r = do
    buf ← recode minus_one r
    let copied = (do
      guard (malloc (u64 (buf.data_len + 1))) minus_one
      bytes ← read_bytes buf.data_len buf.p_data
      ok (some (bytes ++ (0 ∷ [])), to_int buf.data_len))
    if buf.data_len == 0 then ok (none, 0) else copied

  unfoldable pub decode_unsigned_char : AnyBuf → Result (Option (List ℕ) × ℕ)
  unfolding hand_out
  decode_unsigned_char any = hand_out (read_bit_string malloc any)

  unfoldable pub encode_char : Option (List ℕ) → ℕ → Result AnyBuf
  encode_char none len =
      if len == 0
      then recode minus_one
          (do buf ← string_to_any_buf malloc none 0; write_printable_string malloc buf)
      else err input_data_err
  encode_char (some bytes) len =
      if len == 0
      then err input_data_err
      else recode minus_one
          (do buf ← string_to_any_buf malloc (some bytes) len; write_printable_string malloc buf)

  unfoldable pub decode_char : AnyBuf → Result (Option (List ℕ) × ℕ)
  unfolding hand_out
  decode_char any = hand_out (read_printable_string malloc any)
