-- ===== src/Codec/Request/Overflow.antt =====
-- A request with a client number that is too long.
use safe_transmission.Common.{ℕ, ◌^◌, ◌<◌, ◌≡◌, refl, arith, List, ◌∷◌, some, length, fault, All}
use safe_transmission.BaseAsn1.Memory.{Allocator, AnyBuf, Grants}
use safe_transmission.BaseAsn1.Integer.RoundTrip.{integer_node}
use safe_transmission.BaseAsn1.Strings.RoundTrip.{string_node}
use safe_transmission.BaseAsn1.Sequence.RoundTrip.{IsElement, contents, received, sequence_node}
use safe_transmission.SequenceAsn1.{at, freed, detach, Ref}
use safe_transmission.SequenceAsn1.Reading.{
  reading, read_head_node_int-reading, read_next_node_str-reading,
}
use safe_transmission.Codec.CString.{overwrite, read_field}
use safe_transmission.Codec.CString.Transfer.{
  integer_node-IsElement, string_node-IsElement, unpack_sequence-reading,
}
use safe_transmission.Codec.Request.{RequestCodec, msg_decode}
use mathlib.Core.List.{map}

module _ (malloc : Allocator) (granted : Grants malloc (2 ^ 33)) where
  read_field_overflow :
      (ns : List AnyBuf) (v : ℕ) (temp : Ref AnyBuf) (bytes old : List ℕ)
      → length bytes < 2 ^ 32
      → length old < length bytes
      → read_field malloc (reading (integer_node v ∷ string_node 19 bytes ∷ ns) (at 1) temp) old
        ≡ fault
  unfolding read_field overwrite
  read_field_overflow ns v temp bytes old h long = ground (
    arith,
    read_next_node_str-reading malloc granted (integer_node v ∷ string_node 19 bytes ∷ ns) ns 1 temp
        bytes refl h,
  )

  -- If requests of up to 2 ^ 33 bytes are granted, RequestCodec::msgDecode ends in undefined behaviour on
  -- every packed sequence, shorter than 2 ^ 30 bytes, of an integer, a string that is longer than the
  -- array for the client number, and any further elements: the string is copied behind the array.
  pub request_overflow :
      (d : RequestCodec) (v : ℕ) (bytes : List ℕ) (ns : List AnyBuf)
      → v < 2 ^ 32
      → length d.msg.client_id < length bytes
      → length bytes < 2 ^ 32
      → All IsElement ns
      → length (contents (integer_node v ∷ string_node 19 bytes ∷ ns)) < 2 ^ 30
      → let node = sequence_node (integer_node v ∷ string_node 19 bytes ∷ ns) in
        msg_decode malloc d (some node.p_data) node.data_len ≡ fault
  unfolding msg_decode
  request_overflow d v bytes ns hv long fits es small = rw (
    unpack_sequence-reading malloc granted d.seq (integer_node v) (string_node 19 bytes ∷ ns)
        (integer_node-IsElement v, (string_node-IsElement bytes fits, es)) small,
    read_head_node_int-reading malloc granted (string_node 19 bytes ∷ map received ns)
        (detach d.seq.header d.seq.next) freed v hv,
    read_field_overflow (map received ns) v freed bytes d.msg.client_id fits long,
  )
