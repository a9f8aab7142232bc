-- ===== src/Codec/Respond/Factory.antt =====
-- Safe_transmission/ServerSeckey/ServerSeckey/RespondFactory.cpp, and the round trip through codecs that
-- such factories make. The pointer m_ptr, which deletes the codec of an earlier call, is left out:
-- createCodec is called once for each factory.
use safe_transmission.Common.{
  ℕ, ◌^◌, ◌≡◌, refl, ◌∙◌, Bool, true, false, List, Option, none, some, Result, ok, fault,
  if◌then◌else◌,
}
use safe_transmission.BaseAsn1.Memory.{Allocator, Grants}
use safe_transmission.SequenceAsn1.{empty}
use safe_transmission.Codec.CString.Fields.{text_of, text_of_again}
use safe_transmission.Codec.Respond.{RespondMsg, RespondCodec, new_codec, msg_encode, msg_decode}
use safe_transmission.Codec.Respond.Constructor.{new_codec-arrived, arrived-IsSendable}
use safe_transmission.Codec.Respond.RoundTrip.{
  HasArrays, IsSendable, arrived, respond_decode-encode,
}

-- `m_respond` has no value where the factory was made without a message.
pub record RespondFactory : Type 0 where
  pub m_flag : Bool
  pub m_respond : Option RespondMsg

-- The two constructors.
unfoldable pub new_factory : RespondFactory
new_factory = record { m_flag = false; m_respond = none }

unfoldable pub new_factory_of : RespondMsg → RespondFactory
new_factory_of msg = record { m_flag = true; m_respond = some msg }

-- The new codec; `m_msg` is its message before the constructor has written it.
unfoldable pub create_codec : RespondMsg → RespondFactory → Result RespondCodec
create_codec m_msg f =
    let copied : Result RespondCodec = elim f.m_respond [
      | none ↦ fault
      | some msg ↦ new_codec m_msg msg
    ] in
    if f.m_flag then copied else ok (record { seq = empty; msg = m_msg })

-- If requests of up to 2 ^ 33 bytes are granted, then for every response whose two numbers are not
-- negative and whose arrays hold terminated strings: the codec of a RespondFactory made with it encodes,
-- and the codec of a RespondFactory made without a message decodes the block to the same two
-- numbers and the same three strings, whatever the arrays of the two codecs held before.
pub respond_through_factories :
    (malloc : Allocator) (old blank m : RespondMsg)
    → Grants malloc (2 ^ 33)
    → IsSendable m
    → HasArrays old
    → HasArrays blank
    → (c : RespondCodec) × (d : RespondCodec) × (out : List ℕ × ℕ) × (c' : RespondCodec)
      × (d' : RespondCodec) × (create_codec old (new_factory_of m) ≡ ok c)
      × (create_codec blank new_factory ≡ ok d)
      × (msg_encode malloc c ≡ ok (out, c'))
      × (msg_decode malloc d (some out.0) out.1 ≡ ok d')
      × (d'.msg.rv ≡ m.rv)
      × (text_of d'.msg.client_id ≡ text_of m.client_id)
      × (text_of d'.msg.server_id ≡ text_of m.server_id)
      × (text_of d'.msg.r2 ≡ text_of m.r2)
      × (d'.msg.seckeyid ≡ m.seckeyid)
unfolding create_codec new_factory new_factory_of
respond_through_factories malloc old blank m granted s a b =
    let c : RespondCodec = record { seq = empty; msg = arrived old m } in
    let d : RespondCodec = record { seq = empty; msg = blank } in
    let (
      out, c', d', encoded, decoded, same_rv, same_client_id, same_server_id, same_r2,
      same_seckeyid,
    ) =
      respond_decode-encode malloc c d granted (arrived-IsSendable old m a s) b in
    (
      c,
      d,
      out,
      c',
      d',
      new_codec-arrived old m a s,
      refl,
      encoded,
      decoded,
      same_rv,
      same_client_id ∙ text_of_again m.client_id _,
      same_server_id ∙ text_of_again m.server_id _,
      same_r2 ∙ text_of_again m.r2 _,
      same_seckeyid,
    )
