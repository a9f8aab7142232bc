-- ===== src/KeyAgreement/Session/Delivery.antt =====
-- A message behind its length, as the decoders see it.
use safe_transmission.Common.{
  ℕ, ◌≤◌, ◌≡◌, refl, sym, arith, List, ◌++◌, some, length, take, take-append, length-take,
  length-append,
}
use safe_transmission.BaseAsn1.Memory.{Allocator, read_bytes}
use safe_transmission.BaseAsn1.Buffers.{string_to_any_buf}
use safe_transmission.SequenceAsn1.{SequenceAsn1, unpack_sequence}
use safe_transmission.Codec.Request
use safe_transmission.Codec.Request.{RequestCodec}
use safe_transmission.Codec.Respond
use safe_transmission.Codec.Respond.{RespondMsg, RespondCodec}

read_bytes-take :
    (bytes tail : List ℕ) (n : ℕ)
    → n ≤ length bytes
    → read_bytes n (take n bytes ++ tail) ≡ read_bytes n bytes
unfolding read_bytes
read_bytes-take bytes tail n fits =
    let size = length-take n bytes fits in
    let front = take-append n (take n bytes) tail (sym size) in
    ground (arith, front, size, length-append (take n bytes) tail)

module _ (malloc : Allocator) (bytes tail : List ℕ) (n : ℕ) (fits : n ≤ length bytes) where
  string_to_any_buf-take :
      string_to_any_buf malloc (some (take n bytes ++ tail)) n
      ≡ string_to_any_buf malloc (some bytes) n
  unfolding string_to_any_buf
  string_to_any_buf-take = rw (read_bytes-take bytes tail n fits) refl

  unpack_sequence-take :
      (s : SequenceAsn1)
      → unpack_sequence malloc s (some (take n bytes ++ tail)) n
        ≡ unpack_sequence malloc s (some bytes) n
  unfolding unpack_sequence
  unpack_sequence-take s = rw string_to_any_buf-take refl

  pub request_msg_decode-take :
      (c : RequestCodec)
      → Request.msg_decode malloc c (some (take n bytes ++ tail)) n
        ≡ Request.msg_decode malloc c (some bytes) n
  unfolding Request.msg_decode
  request_msg_decode-take c = rw (unpack_sequence-take c.seq) refl

  pub respond_msg_decode-take :
      (c : RespondCodec)
      → Respond.msg_decode malloc c (some (take n bytes ++ tail)) n
        ≡ Respond.msg_decode malloc c (some bytes) n
  unfolding Respond.msg_decode
  respond_msg_decode-take c = rw (unpack_sequence-take c.seq) refl
