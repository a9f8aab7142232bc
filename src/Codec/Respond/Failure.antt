-- ===== src/Codec/Respond/Failure.antt =====
-- A response that reports a failure.
use safe_transmission.Common.{
  ℕ, suc, ◌^◌, ◌≤◌, ◌<◌, ◌≡◌, arith, List, length, err, fault, minus_one,
}
use safe_transmission.BaseAsn1.Memory.{Allocator, Grants}
use safe_transmission.BaseAsn1.Buffers.RoundTrip.{encode_char-take}
use safe_transmission.SequenceAsn1.{
  SequenceAsn1, empty, link, write_head_node_int, write_next_node_str,
}
use safe_transmission.SequenceAsn1.Writing.{write_integer_negative}
use safe_transmission.Codec.CString.{write_field}
use safe_transmission.Codec.CString.Fields.{IsTerminated, strlen-text_of, length-text_of, text_of}
use safe_transmission.Codec.Respond.{RespondMsg, msg_encode}

module _ (malloc : Allocator) (granted : Grants malloc (2 ^ 33)) where
  write_head_negative :
      (s : SequenceAsn1) (v : ℕ)
      → 2 ^ 31 ≤ v
      → v < 2 ^ 32
      → write_head_node_int malloc s v ≡ err minus_one
  unfolding write_head_node_int
  write_head_negative s v lo hi = rw (write_integer_negative malloc granted v lo hi)

  -- With no node before it, a field is linked through a null pointer.
  write_field_first :
      (field : List ℕ)
      → IsTerminated field
      → length field < 2 ^ 20
      → write_field malloc empty field ≡ fault
  unfolding write_field write_next_node_str link
  write_field_first field t h = ground (
    arith,
    strlen-text_of field t,
    length-text_of field t,
    encode_char-take malloc granted field (suc (length (text_of field))) (length-text_of field t)
        (omega arith) (omega (arith, length-text_of field t)),
  )

  -- If requests of up to 2 ^ 33 bytes are granted, RespondCodec::msgEncode in a fresh codec ends in
  -- undefined behaviour for every message with a negative `rv`, by which a failure is reported, and a
  -- terminated client number of up to 2 ^ 20 characters.
  pub respond_failure_faults :
      (m : RespondMsg)
      → 2 ^ 31 ≤ m.rv
      → m.rv < 2 ^ 32
      → IsTerminated m.client_id
      → length m.client_id < 2 ^ 20
      → msg_encode malloc (record { seq = empty; msg = m }) ≡ fault
  unfolding msg_encode
  respond_failure_faults m lo hi t h =
      rw (write_head_negative empty m.rv lo hi, write_field_first m.client_id t h)
