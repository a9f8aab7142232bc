-- ===== src/Codec/Respond/RoundTrip.antt =====
-- A response encoded and decoded.
use safe_transmission.Common.{
  ℕ, ◌^◌, ◌<◌, ◌≡◌, refl, arith, List, [], ◌∷◌, Option, some, length, ok, All,
}
use safe_transmission.BaseAsn1.Memory.{Allocator, AnyBuf, Grants}
use safe_transmission.BaseAsn1.Integer.RoundTrip.{integer_node}
use safe_transmission.BaseAsn1.Sequence.RoundTrip.{IsElement, contents, sequence_node}
use safe_transmission.SequenceAsn1.{
  SequenceAsn1, live, freed, nowhere, detach, write_head_node_int, write_next_node_int,
  read_next_node_int, read_head_node_int, pack_sequence, unpack_sequence,
}
use safe_transmission.Codec.CString.{write_field, read_field}
use safe_transmission.SequenceAsn1.Writing.{
  writing, write_head_node_int-writing, write_next_node_int-writing,
}
use safe_transmission.SequenceAsn1.Reading.{
  reading, read_head_node_int-reading, read_next_node_int-reading,
}
use safe_transmission.Codec.CString.Fields.{text_of, IsTerminated, filled, text_of_again}
use safe_transmission.Codec.CString.Transfer.{
  text_node, integer_node-IsElement, integer_node_size, text_node-IsElement, text_node_size,
  write_field-writing, read_field-reading, pack_sequence-writing, contents_five,
  unpack_sequence-reading,
}
use safe_transmission.Codec.Respond.{RespondMsg, RespondCodec, msg_encode, msg_decode}

-- The arrays have the lengths that the struct declares.
pub record HasArrays (m : RespondMsg) : Type 0 where
  pub client_size : length m.client_id ≡ 12
  pub server_size : length m.server_id ≡ 12
  pub r2_size : length m.r2 ≡ 64

-- A message that can be sent: no negative number, and every array holds a terminated string.
pub record IsSendable (m : RespondMsg) : Type 0 where
  pub arrays : HasArrays m
  pub open arrays use *
  pub rv_range : m.rv < 2 ^ 31
  pub seckeyid_range : m.seckeyid < 2 ^ 31
  pub client_end : IsTerminated m.client_id
  pub server_end : IsTerminated m.server_id
  pub r2_end : IsTerminated m.r2

-- The nodes behind the first, and the five nodes of a message.
abbrev others : RespondMsg → List AnyBuf
others m =
    text_node m.client_id ∷ text_node m.server_id ∷ text_node m.r2 ∷ integer_node m.seckeyid ∷ []

abbrev nodes : RespondMsg → List AnyBuf
nodes m = integer_node m.rv ∷ others m

nodes-IsElement : (m : RespondMsg) → IsSendable m → All IsElement (nodes m)
nodes-IsElement m s = (
  integer_node-IsElement m.rv,
  (
    text_node-IsElement m.client_id s.client_end (omega (arith, s.client_size)),
    (
      text_node-IsElement m.server_id s.server_end (omega (arith, s.server_size)),
      (
        text_node-IsElement m.r2 s.r2_end (omega (arith, s.r2_size)),
        (integer_node-IsElement m.seckeyid, tt),
      ),
    ),
  ),
)

-- The five nodes take fewer than 512 bytes.
nodes_size : (m : RespondMsg) → IsSendable m → length (contents (nodes m)) < 512
nodes_size m s =
    let e₀ = integer_node-IsElement m.rv in
    let e₁ = text_node-IsElement m.client_id s.client_end (omega (arith, s.client_size)) in
    let e₂ = text_node-IsElement m.server_id s.server_end (omega (arith, s.server_size)) in
    let e₃ = text_node-IsElement m.r2 s.r2_end (omega (arith, s.r2_size)) in
    let e₄ = integer_node-IsElement m.seckeyid in
    contents_five (integer_node m.rv) (text_node m.client_id) (text_node m.server_id)
      (text_node m.r2) (integer_node m.seckeyid)
      (omega (arith, e₀.measured, integer_node_size m.rv))
      (omega (
        arith,
        e₁.measured,
        text_node_size m.client_id 12 s.client_end (omega (arith, s.client_size)),
      ))
      (omega (
        arith,
        e₂.measured,
        text_node_size m.server_id 12 s.server_end (omega (arith, s.server_size)),
      ))
      (omega (arith, e₃.measured, text_node_size m.r2 64 s.r2_end (omega (arith, s.r2_size))))
      (omega (arith, e₄.measured, integer_node_size m.seckeyid))

module _ (malloc : Allocator) where
  -- The calls of msgEncode, put together.
  encode_steps :
      (c : RespondCodec) (s₀ s₁ s₂ s₃ s₄ s₅ : SequenceAsn1) (out : List ℕ × ℕ)
      → write_head_node_int malloc c.seq c.msg.rv ≡ ok s₀
      → write_field malloc s₀ c.msg.client_id ≡ ok s₁
      → write_field malloc s₁ c.msg.server_id ≡ ok s₂
      → write_field malloc s₂ c.msg.r2 ≡ ok s₃
      → write_next_node_int malloc s₃ c.msg.seckeyid ≡ ok s₄
      → pack_sequence malloc s₄ ≡ ok (out, s₅)
      → msg_encode malloc c ≡ ok (out, record c { seq = s₅ })
  unfolding msg_encode
  encode_steps c s₀ s₁ s₂ s₃ s₄ s₅ out h₀ h₁ h₂ h₃ h₄ h₅ = rw (h₀, h₁, h₂, h₃, h₄, h₅)

  -- The calls of msgDecode, put together.
  decode_steps :
      (c : RespondCodec) (bytes : Option (List ℕ)) (len : ℕ) (s₀ s₁ s₂ s₃ s₄ s₅ : SequenceAsn1)
      (m : RespondMsg)
      → unpack_sequence malloc c.seq bytes len ≡ ok s₀
      → read_head_node_int malloc s₀ ≡ ok (m.rv, s₁)
      → read_field malloc s₁ c.msg.client_id ≡ ok (m.client_id, s₂)
      → read_field malloc s₂ c.msg.server_id ≡ ok (m.server_id, s₃)
      → read_field malloc s₃ c.msg.r2 ≡ ok (m.r2, s₄)
      → read_next_node_int malloc s₄ ≡ ok (m.seckeyid, s₅)
      → msg_decode malloc c bytes len ≡ ok (record { seq = s₅; msg = m })
  unfolding msg_decode
  decode_steps c bytes len s₀ s₁ s₂ s₃ s₄ s₅ m h₀ h₁ h₂ h₃ h₄ h₅ = rw (h₀, h₁, h₂, h₃, h₄, h₅)

-- What a codec with the arrays `old` holds once it has decoded `m`.
abbrev pub arrived : RespondMsg → RespondMsg → RespondMsg
arrived old m = record {
  rv = m.rv;
  client_id = filled old.client_id m.client_id;
  server_id = filled old.server_id m.server_id;
  r2 = filled old.r2 m.r2;
  seckeyid = m.seckeyid;
}

module _ (malloc : Allocator) (granted : Grants malloc (2 ^ 33)) (m : RespondMsg)
    (s : IsSendable m) where
  msg_encode-nodes :
      (seq : SequenceAsn1)
      → msg_encode malloc (record { seq = seq; msg = m })
        ≡ ok (
          ((sequence_node (nodes m)).p_data, (sequence_node (nodes m)).data_len),
          record { seq = writing (nodes m) 4 (live (sequence_node (nodes m))); msg = m },
        )
  msg_encode-nodes seq =
      encode_steps malloc (record { seq = seq; msg = m }) _ _ _ _ _ _ _
        (write_head_node_int-writing malloc granted seq m.rv s.rv_range)
        (write_field-writing malloc granted _ 0 seq.temp m.client_id refl s.client_end
          (omega (arith, s.client_size)))
        (write_field-writing malloc granted _ 1 seq.temp m.server_id refl s.server_end
          (omega (arith, s.server_size)))
        (write_field-writing malloc granted _ 2 seq.temp m.r2 refl s.r2_end
          (omega (arith, s.r2_size)))
        (write_next_node_int-writing malloc granted _ 3 seq.temp m.seckeyid refl s.seckeyid_range)
        (pack_sequence-writing malloc granted (nodes m) 4 seq.temp (nodes-IsElement m s)
          (omega (arith, nodes_size m s)))

  msg_decode-nodes :
      (d : RespondCodec)
      → HasArrays d.msg
      → msg_decode malloc d
          (some (sequence_node (nodes m)).p_data)
          (sequence_node (nodes m)).data_len
        ≡ ok (record { seq = reading (nodes m) nowhere freed; msg = arrived d.msg m })
  msg_decode-nodes d a =
      decode_steps malloc d (some (sequence_node (nodes m)).p_data)
        (sequence_node (nodes m)).data_len _ _ _ _ _ _ (arrived d.msg m)
        (unpack_sequence-reading malloc granted d.seq (integer_node m.rv) (others m)
          (nodes-IsElement m s) (omega (arith, nodes_size m s)))
        (read_head_node_int-reading malloc granted _ (detach d.seq.header d.seq.next) freed m.rv
          (omega (arith, s.rv_range)))
        (read_field-reading malloc granted (nodes m) _ 1 freed m.client_id d.msg.client_id refl
          s.client_end (omega (arith, s.client_size, a.client_size)) (omega (arith, a.client_size)))
        (read_field-reading malloc granted (nodes m) _ 2 freed m.server_id d.msg.server_id refl
          s.server_end (omega (arith, s.server_size, a.server_size)) (omega (arith, a.server_size)))
        (read_field-reading malloc granted (nodes m) _ 3 freed m.r2 d.msg.r2 refl s.r2_end
          (omega (arith, s.r2_size, a.r2_size)) (omega (arith, a.r2_size)))
        (read_next_node_int-reading malloc granted (nodes m) [] 4 freed m.seckeyid refl
          (omega (arith, s.seckeyid_range)))

  -- The message that a codec holds after it has decoded the block of another.
  pub msg_transfer :
      (seq : SequenceAsn1) (d : RespondCodec)
      → HasArrays d.msg
      → (out : List ℕ × ℕ) × (s₁ : SequenceAsn1) × (s₂ : SequenceAsn1) × (msg_encode malloc
            (record { seq = seq; msg = m })
          ≡ ok (out, record { seq = s₁; msg = m }))
        × (msg_decode malloc d (some out.0) out.1 ≡ ok (record { seq = s₂; msg = arrived d.msg m }))
  msg_transfer seq d a = (
    ((sequence_node (nodes m)).p_data, (sequence_node (nodes m)).data_len),
    _,
    _,
    msg_encode-nodes seq,
    msg_decode-nodes d a,
  )

-- If requests of up to 2 ^ 33 bytes are granted, then RespondCodec::msgEncode succeeds on every message
-- whose two numbers are not negative and whose arrays hold terminated strings, and
-- RespondCodec::msgDecode, in any codec, reads from the block that it returned the same two numbers and
-- the same three strings.
pub respond_decode-encode :
    (malloc : Allocator) (c d : RespondCodec)
    → Grants malloc (2 ^ 33)
    → IsSendable c.msg
    → HasArrays d.msg
    → (out : List ℕ × ℕ) × (c' : RespondCodec) × (d' : RespondCodec) × (msg_encode malloc c
        ≡ ok (out, c'))
      × (msg_decode malloc d (some out.0) out.1 ≡ ok d')
      × (d'.msg.rv ≡ c.msg.rv)
      × (text_of d'.msg.client_id ≡ text_of c.msg.client_id)
      × (text_of d'.msg.server_id ≡ text_of c.msg.server_id)
      × (text_of d'.msg.r2 ≡ text_of c.msg.r2)
      × (d'.msg.seckeyid ≡ c.msg.seckeyid)
respond_decode-encode malloc c d granted s a =
    let m = c.msg in
    (
      ((sequence_node (nodes m)).p_data, (sequence_node (nodes m)).data_len),
      record { seq = writing (nodes m) 4 (live (sequence_node (nodes m))); msg = m },
      record { seq = reading (nodes m) nowhere freed; msg = arrived d.msg m },
      msg_encode-nodes malloc granted m s c.seq,
      msg_decode-nodes malloc granted m s d a,
      refl,
      text_of_again m.client_id _,
      text_of_again m.server_id _,
      text_of_again m.r2 _,
      refl,
    )
