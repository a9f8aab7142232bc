-- ===== src/Codec/Request/Factory.antt =====
-- Safe_transmission/ServerSeckey/ServerSeckey/RequestFactory.cpp, and the round trip through codecs that
-- such factories make. The pointer m_ptr, which deletes the codec of an earlier call, is left out:
-- createCodec is called once for each factory.
use safe_transmission.Common.{
  ℕ, ◌^◌, ◌≡◌, refl, ◌∙◌, Bool, true, false, List, Option, none, some, Result, ok, fault,
  if◌then◌else◌,
}
use safe_transmission.BaseAsn1.Memory.{Allocator, Grants}
use safe_transmission.SequenceAsn1.{empty}
use safe_transmission.Codec.CString.Fields.{text_of, text_of_again}
use safe_transmission.Codec.Request.{RequestMsg, RequestCodec, new_codec, msg_encode, msg_decode}
use safe_transmission.Codec.Request.Constructor.{new_codec-arrived, arrived-IsSendable}
use safe_transmission.Codec.Request.RoundTrip.{
  HasArrays, IsSendable, arrived, request_decode-encode,
}

-- `m_request` has no value where the factory was made without a message.
pub record RequestFactory : Type 0 where
  pub m_flag : Bool
  pub m_request : Option RequestMsg

-- The two constructors.
unfoldable pub new_factory : RequestFactory
new_factory = record { m_flag = false; m_request = none }

unfoldable pub new_factory_of : RequestMsg → RequestFactory
new_factory_of msg = record { m_flag = true; m_request = some msg }

-- The new codec; `m_msg` is its message before the constructor has written it.
unfoldable pub create_codec : RequestMsg → RequestFactory → Result RequestCodec
create_codec m_msg f =
    let copied : Result RequestCodec = elim f.m_request [
      | none ↦ fault
      | some msg ↦ new_codec m_msg msg
    ] in
    if f.m_flag then copied else ok (record { seq = empty; msg = m_msg })

-- If requests of up to 2 ^ 33 bytes are granted, then for every request whose type is not negative and
-- whose arrays hold terminated strings: the codec of a RequestFactory made with it encodes, and the codec
-- of a RequestFactory made without a message decodes the block to the same type and the same four
-- strings, whatever the arrays of the two codecs held before.
pub request_through_factories :
    (malloc : Allocator) (old blank m : RequestMsg)
    → Grants malloc (2 ^ 33)
    → IsSendable m
    → HasArrays old
    → HasArrays blank
    → (c : RequestCodec) × (d : RequestCodec) × (out : List ℕ × ℕ) × (c' : RequestCodec)
      × (d' : RequestCodec) × (create_codec old (new_factory_of m) ≡ ok c)
      × (create_codec blank new_factory ≡ ok d)
      × (msg_encode malloc c ≡ ok (out, c'))
      × (msg_decode malloc d (some out.0) out.1 ≡ ok d')
      × (d'.msg.cmd_type ≡ m.cmd_type)
      × (text_of d'.msg.client_id ≡ text_of m.client_id)
      × (text_of d'.msg.auth_code ≡ text_of m.auth_code)
      × (text_of d'.msg.server_id ≡ text_of m.server_id)
      × (text_of d'.msg.r1 ≡ text_of m.r1)
unfolding create_codec new_factory new_factory_of
request_through_factories malloc old blank m granted s a b =
    let c : RequestCodec = record { seq = empty; msg = arrived old m } in
    let d : RequestCodec = record { seq = empty; msg = blank } in
    let (
      out, c', d', encoded, decoded, same_cmd_type, same_client_id, same_auth_code, same_server_id,
      same_r1,
    ) =
      request_decode-encode malloc c d granted (arrived-IsSendable old m a s) b in
    (
      c,
      d,
      out,
      c',
      d',
      new_codec-arrived old m a s,
      refl,
      encoded,
      decoded,
      same_cmd_type,
      same_client_id ∙ text_of_again m.client_id _,
      same_auth_code ∙ text_of_again m.auth_code _,
      same_server_id ∙ text_of_again m.server_id _,
      same_r1 ∙ text_of_again m.r1 _,
    )
