-- ===== src/Codec/Request/RoundTrip.antt =====
-- A request encoded and decoded.
use safe_transmission.Common.{
  ℕ, ◌^◌, ◌<◌, ◌≡◌, refl, arith, List, [], ◌∷◌, Option, some, length, ok, All,
}
use safe_transmission.BaseAsn1.Memory.{Allocator, AnyBuf, Grants}
use safe_transmission.BaseAsn1.Integer.RoundTrip.{integer_node}
use safe_transmission.BaseAsn1.Sequence.RoundTrip.{IsElement, contents, sequence_node}
use safe_transmission.SequenceAsn1.{
  SequenceAsn1, live, freed, nowhere, detach, write_head_node_int, read_head_node_int,
  pack_sequence, unpack_sequence,
}
use safe_transmission.Codec.CString.{write_field, read_field}
use safe_transmission.SequenceAsn1.Writing.{writing, write_head_node_int-writing}
use safe_transmission.SequenceAsn1.Reading.{reading, read_head_node_int-reading}
use safe_transmission.Codec.CString.Fields.{text_of, IsTerminated, filled, text_of_again}
use safe_transmission.Codec.CString.Transfer.{
  text_node, integer_node-IsElement, integer_node_size, text_node-IsElement, text_node_size,
  write_field-writing, read_field-reading, pack_sequence-writing, contents_five,
  unpack_sequence-reading,
}
use safe_transmission.Codec.Request.{RequestMsg, RequestCodec, msg_encode, msg_decode}

-- The arrays have the lengths that the struct declares.
pub record HasArrays (m : RequestMsg) : Type 0 where
  pub client_size : length m.client_id ≡ 12
  pub auth_size : length m.auth_code ≡ 65
  pub server_size : length m.server_id ≡ 12
  pub r1_size : length m.r1 ≡ 64

-- A message that can be sent: no negative type, and every array holds a terminated string.
pub record IsSendable (m : RequestMsg) : Type 0 where
  pub arrays : HasArrays m
  pub open arrays use *
  pub cmd_range : m.cmd_type < 2 ^ 31
  pub client_end : IsTerminated m.client_id
  pub auth_end : IsTerminated m.auth_code
  pub server_end : IsTerminated m.server_id
  pub r1_end : IsTerminated m.r1

-- The four strings of a message as nodes, and its five nodes.
abbrev strings : RequestMsg → List AnyBuf
strings m =
    text_node m.client_id ∷ text_node m.auth_code ∷ text_node m.server_id ∷ text_node m.r1 ∷ []

abbrev nodes : RequestMsg → List AnyBuf
nodes m = integer_node m.cmd_type ∷ strings m

nodes-IsElement : (m : RequestMsg) → IsSendable m → All IsElement (nodes m)
nodes-IsElement m s = (
  integer_node-IsElement m.cmd_type,
  (
    text_node-IsElement m.client_id s.client_end (omega (arith, s.client_size)),
    (
      text_node-IsElement m.auth_code s.auth_end (omega (arith, s.auth_size)),
      (
        text_node-IsElement m.server_id s.server_end (omega (arith, s.server_size)),
        (text_node-IsElement m.r1 s.r1_end (omega (arith, s.r1_size)), tt),
      ),
    ),
  ),
)

-- The five nodes take fewer than 512 bytes.
nodes_size : (m : RequestMsg) → IsSendable m → length (contents (nodes m)) < 512
nodes_size m s =
    let e₀ = integer_node-IsElement m.cmd_type in
    let e₁ = text_node-IsElement m.client_id s.client_end (omega (arith, s.client_size)) in
    let e₂ = text_node-IsElement m.auth_code s.auth_end (omega (arith, s.auth_size)) in
    let e₃ = text_node-IsElement m.server_id s.server_end (omega (arith, s.server_size)) in
    let e₄ = text_node-IsElement m.r1 s.r1_end (omega (arith, s.r1_size)) in
    contents_five (integer_node m.cmd_type) (text_node m.client_id) (text_node m.auth_code)
      (text_node m.server_id) (text_node m.r1)
      (omega (arith, e₀.measured, integer_node_size m.cmd_type))
      (omega (
        arith,
        e₁.measured,
        text_node_size m.client_id 12 s.client_end (omega (arith, s.client_size)),
      ))
      (omega
        (arith, e₂.measured, text_node_size m.auth_code 65 s.auth_end (omega (arith, s.auth_size))))
      (omega (
        arith,
        e₃.measured,
        text_node_size m.server_id 12 s.server_end (omega (arith, s.server_size)),
      ))
      (omega (arith, e₄.measured, text_node_size m.r1 64 s.r1_end (omega (arith, s.r1_size))))

module _ (malloc : Allocator) where
  -- The calls of msgEncode, put together.
  encode_steps :
      (c : RequestCodec) (s₀ s₁ s₂ s₃ s₄ s₅ : SequenceAsn1) (out : List ℕ × ℕ)
      → write_head_node_int malloc c.seq c.msg.cmd_type ≡ ok s₀
      → write_field malloc s₀ c.msg.client_id ≡ ok s₁
      → write_field malloc s₁ c.msg.auth_code ≡ ok s₂
      → write_field malloc s₂ c.msg.server_id ≡ ok s₃
      → write_field malloc s₃ c.msg.r1 ≡ ok s₄
      → pack_sequence malloc s₄ ≡ ok (out, s₅)
      → msg_encode malloc c ≡ ok (out, record c { seq = s₅ })
  unfolding msg_encode
  encode_steps c s₀ s₁ s₂ s₃ s₄ s₅ out h₀ h₁ h₂ h₃ h₄ h₅ = rw (h₀, h₁, h₂, h₃, h₄, h₅)

  -- The calls of msgDecode, put together.
  decode_steps :
      (c : RequestCodec) (bytes : Option (List ℕ)) (len : ℕ) (s₀ s₁ s₂ s₃ s₄ s₅ : SequenceAsn1)
      (m : RequestMsg)
      → unpack_sequence malloc c.seq bytes len ≡ ok s₀
      → read_head_node_int malloc s₀ ≡ ok (m.cmd_type, s₁)
      → read_field malloc s₁ c.msg.client_id ≡ ok (m.client_id, s₂)
      → read_field malloc s₂ c.msg.auth_code ≡ ok (m.auth_code, s₃)
      → read_field malloc s₃ c.msg.server_id ≡ ok (m.server_id, s₄)
      → read_field malloc s₄ c.msg.r1 ≡ ok (m.r1, s₅)
      → msg_decode malloc c bytes len ≡ ok (record { seq = s₅; msg = m })
  unfolding msg_decode
  decode_steps c bytes len s₀ s₁ s₂ s₃ s₄ s₅ m h₀ h₁ h₂ h₃ h₄ h₅ = rw (h₀, h₁, h₂, h₃, h₄, h₅)

-- What a codec with the arrays `old` holds once it has decoded `m`.
abbrev pub arrived : RequestMsg → RequestMsg → RequestMsg
arrived old m = record {
  cmd_type = m.cmd_type;
  client_id = filled old.client_id m.client_id;
  auth_code = filled old.auth_code m.auth_code;
  server_id = filled old.server_id m.server_id;
  r1 = filled old.r1 m.r1;
}

module _ (malloc : Allocator) (granted : Grants malloc (2 ^ 33)) (m : RequestMsg)
    (s : IsSendable m) where
  msg_encode-nodes :
      (seq : SequenceAsn1)
      → msg_encode malloc (record { seq = seq; msg = m })
        ≡ ok (
          ((sequence_node (nodes m)).p_data, (sequence_node (nodes m)).data_len),
          record { seq = writing (nodes m) 4 (live (sequence_node (nodes m))); msg = m },
        )
  msg_encode-nodes seq =
      encode_steps malloc (record { seq = seq; msg = m }) _ _ _ _ _ _ _
        (write_head_node_int-writing malloc granted seq m.cmd_type s.cmd_range)
        (write_field-writing malloc granted _ 0 seq.temp m.client_id refl s.client_end
          (omega (arith, s.client_size)))
        (write_field-writing malloc granted _ 1 seq.temp m.auth_code refl s.auth_end
          (omega (arith, s.auth_size)))
        (write_field-writing malloc granted _ 2 seq.temp m.server_id refl s.server_end
          (omega (arith, s.server_size)))
        (write_field-writing malloc granted _ 3 seq.temp m.r1 refl s.r1_end
          (omega (arith, s.r1_size)))
        (pack_sequence-writing malloc granted (nodes m) 4 seq.temp (nodes-IsElement m s)
          (omega (arith, nodes_size m s)))

  msg_decode-nodes :
      (d : RequestCodec)
      → HasArrays d.msg
      → msg_decode malloc d
          (some (sequence_node (nodes m)).p_data)
          (sequence_node (nodes m)).data_len
        ≡ ok (record { seq = reading (nodes m) nowhere freed; msg = arrived d.msg m })
  msg_decode-nodes d a =
      decode_steps malloc d (some (sequence_node (nodes m)).p_data)
        (sequence_node (nodes m)).data_len _ _ _ _ _ _ (arrived d.msg m)
        (unpack_sequence-reading malloc granted d.seq (integer_node m.cmd_type) (strings m)
          (nodes-IsElement m s) (omega (arith, nodes_size m s)))
        (read_head_node_int-reading malloc granted _ (detach d.seq.header d.seq.next) freed
          m.cmd_type (omega (arith, s.cmd_range)))
        (read_field-reading malloc granted (nodes m) _ 1 freed m.client_id d.msg.client_id refl
          s.client_end (omega (arith, s.client_size, a.client_size)) (omega (arith, a.client_size)))
        (read_field-reading malloc granted (nodes m) _ 2 freed m.auth_code d.msg.auth_code refl
          s.auth_end (omega (arith, s.auth_size, a.auth_size)) (omega (arith, a.auth_size)))
        (read_field-reading malloc granted (nodes m) _ 3 freed m.server_id d.msg.server_id refl
          s.server_end (omega (arith, s.server_size, a.server_size)) (omega (arith, a.server_size)))
        (read_field-reading malloc granted (nodes m) [] 4 freed m.r1 d.msg.r1 refl s.r1_end
          (omega (arith, s.r1_size, a.r1_size)) (omega (arith, a.r1_size)))

  -- The message that a codec holds after it has decoded the block of another.
  pub msg_transfer :
      (seq : SequenceAsn1) (d : RequestCodec)
      → HasArrays d.msg
      → (out : List ℕ × ℕ) × (s₁ : SequenceAsn1) × (s₂ : SequenceAsn1) × (msg_encode malloc
            (record { seq = seq; msg = m })
          ≡ ok (out, record { seq = s₁; msg = m }))
        × (msg_decode malloc d (some out.0) out.1 ≡ ok (record { seq = s₂; msg = arrived d.msg m }))
  msg_transfer seq d a = (
    ((sequence_node (nodes m)).p_data, (sequence_node (nodes m)).data_len),
    _,
    _,
    msg_encode-nodes seq,
    msg_decode-nodes d a,
  )

-- If requests of up to 2 ^ 33 bytes are granted, then RequestCodec::msgEncode succeeds on every message
-- whose type is not negative and whose arrays hold terminated strings, and RequestCodec::msgDecode, in
-- any codec, reads from the block that it returned the same type and the same four strings.
pub request_decode-encode :
    (malloc : Allocator) (c d : RequestCodec)
    → Grants malloc (2 ^ 33)
    → IsSendable c.msg
    → HasArrays d.msg
    → (out : List ℕ × ℕ) × (c' : RequestCodec) × (d' : RequestCodec) × (msg_encode malloc c
        ≡ ok (out, c'))
      × (msg_decode malloc d (some out.0) out.1 ≡ ok d')
      × (d'.msg.cmd_type ≡ c.msg.cmd_type)
      × (text_of d'.msg.client_id ≡ text_of c.msg.client_id)
      × (text_of d'.msg.auth_code ≡ text_of c.msg.auth_code)
      × (text_of d'.msg.server_id ≡ text_of c.msg.server_id)
      × (text_of d'.msg.r1 ≡ text_of c.msg.r1)
request_decode-encode malloc c d granted s a =
    let m = c.msg in
    (
      ((sequence_node (nodes m)).p_data, (sequence_node (nodes m)).data_len),
      record { seq = writing (nodes m) 4 (live (sequence_node (nodes m))); msg = m },
      record { seq = reading (nodes m) nowhere freed; msg = arrived d.msg m },
      msg_encode-nodes malloc granted m s c.seq,
      msg_decode-nodes malloc granted m s d a,
      refl,
      text_of_again m.client_id _,
      text_of_again m.auth_code _,
      text_of_again m.server_id _,
      text_of_again m.r1 _,
    )
