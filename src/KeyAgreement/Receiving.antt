-- ===== src/KeyAgreement/Receiving.antt =====
-- ClientOperation::secKeyAgree from the response on.
use safe_transmission.Common.{
  ℕ, ◌≡◌, refl, ap, ◌∙◌, arith, false, List, Option, some, length, Result, ok, ◌>>=◌, ◌==◌, attempt,
  minus_one, All, inl, inr,
}
use safe_transmission.BaseAsn1.Memory.{Allocator}
use safe_transmission.SequenceAsn1.{SequenceAsn1, empty}
use safe_transmission.Codec.CString.{strcpy}
use safe_transmission.Codec.CString.Fields.{text_of, IsTerminated, filled, length-text_of}
use safe_transmission.Codec.CString.Copy.{strcpy-filled}
use safe_transmission.Codec.Respond.{RespondMsg, RespondCodec, msg_decode}
use safe_transmission.SecKeyShm.{NodeShmInfo, shm_write, shm_read}
use safe_transmission.SecKeyShm.Lookup.{IsNode}
use safe_transmission.SecKeyShm.Write.{IsTaken, shm_write_full, shm_read-shm_write}
use safe_transmission.KeyAgreement.Digest.{Sha, session_key}
use safe_transmission.KeyAgreement.Strings.{key_of, session_key-text_of}
use safe_transmission.KeyAgreement.Sending.{IsField, filled-IsField}
use safe_transmission.KeyAgreement.Client.{ClientInfo, receive_respond}

-- The node that the client writes into `node`.
abbrev pub key_node : ClientInfo → NodeShmInfo → List ℕ → ℕ → NodeShmInfo
key_node info node key id = record {
  status = 0;
  seckey_id = id;
  client_id = filled node.client_id info.client_id;
  server_id = filled node.server_id info.server_id;
  seckey = filled node.seckey key;
}

-- The arrays of a node have the lengths that the struct declares.
pub record HasNodeArrays (n : NodeShmInfo) : Type 0 where
  pub client_size : length n.client_id ≡ 12
  pub server_size : length n.server_id ≡ 12
  pub seckey_size : length n.seckey ≡ 128

abbrev stored : Option (List NodeShmInfo) → ℕ → NodeShmInfo → Result (Option (List NodeShmInfo))
stored shm max_node node = attempt shm (shm_write shm max_node node >>= λ table. ok (some table))

-- The table after the call, and that the node stands in it if there was room.
stored_always :
    (t : List NodeShmInfo) (node : NodeShmInfo)
    → All IsNode t
    → IsNode node
    → (t' : List NodeShmInfo) × (stored (some t) (length t) node ≡ ok (some t'))
      × ((¬ All (IsTaken node) t)
          → shm_read (some t') (length t) node.client_id node.server_id ≡ ok node)
stored_always t node a n = elim (shm_write_full t node a n) [
  | inl w ↦ (t, rw (w.1) refl, λ room. absurd (room w.0))
  | inr w ↦ (w.1, rw (w.2) refl, λ room. (shm_read-shm_write t w.1 node a n w.2).2)
]

receive_steps :
    (malloc : Allocator) (sha : Sha) (info : ClientInfo) (shm shm' : Option (List NodeShmInfo))
    (res : RespondMsg) (node : NodeShmInfo) (r1 : List ℕ) (bytes : Option (List ℕ)) (len : ℕ)
    (codec : RespondCodec) (key c s k : List ℕ)
    → msg_decode malloc (record { seq = empty; msg = res }) bytes len ≡ ok codec
    → (codec.msg.rv == minus_one) ≡ false
    → session_key sha r1 codec.msg.r2 ≡ ok key
    → strcpy node.client_id info.client_id ≡ ok c
    → strcpy node.server_id info.server_id ≡ ok s
    → strcpy node.seckey key ≡ ok k
    → stored shm info.max_node (record {
      status = 0;
      seckey_id = codec.msg.seckeyid;
      client_id = c;
      server_id = s;
      seckey = k;
    })
      ≡ ok shm'
    → receive_respond malloc sha info shm res node r1 bytes len ≡ ok (key, shm')
unfolding receive_respond
receive_steps malloc sha info shm shm' res node r1 bytes len codec key c s k h₁ h₂ h₃ h₄ h₅ h₆ h₇ =
    rw (h₁, h₂, h₃, h₄, h₅, h₆, h₇) refl

-- The response `m` as the codec holds it: the client derives the key, and stores it.
pub receive_respond_receives :
    (malloc : Allocator) (sha : Sha) (info : ClientInfo) (t : List NodeShmInfo) (res : RespondMsg)
    (node : NodeShmInfo) (r1 : List ℕ) (bytes : Option (List ℕ)) (len : ℕ) (seq : SequenceAsn1)
    (m : RespondMsg) (key : List ℕ) (id : ℕ)
    → IsField 12 info.client_id
    → IsField 12 info.server_id
    → HasNodeArrays node
    → All IsNode t
    → info.max_node ≡ length t
    → IsField 64 r1
    → IsField 64 m.r2
    → m.rv ≡ 0
    → m.seckeyid ≡ id
    → msg_decode malloc (record { seq = empty; msg = res }) bytes len
      ≡ ok (record { seq = seq; msg = m })
    → key_of sha (text_of r1) (text_of m.r2) ≡ ok key
    → IsTerminated key
    → length key ≡ 41
    → let entry = key_node info node key id in
      (t' : List NodeShmInfo) × (receive_respond malloc sha info (some t) res node r1 bytes len
        ≡ ok (key, some t'))
      × ((¬ All (IsTaken entry) t)
          → shm_read (some t') (length t) entry.client_id entry.server_id ≡ ok entry)
receive_respond_receives malloc sha info t res node r1 bytes len seq m key id client server n a max
      f₁ f₂ rv id_is decoded derived ended size =
    let c =
      filled-IsField 12 node.client_id info.client_id n.client_size client.1
        (omega (arith, client.0)) in
    let s =
      filled-IsField 12 node.server_id info.server_id n.server_size server.1
        (omega (arith, server.0)) in
    let after =
      stored_always t (key_node info node key id) a
        (record { client_end = c.1; server_end = s.1 }) in
    (
      after.0,
      receive_steps malloc sha info (some t) (some after.0) res node r1 bytes len
          (record { seq = seq; msg = m }) key _ _ _ decoded (rw rv refl)
          (session_key-text_of sha r1 m.r2 f₁.1 f₂.1 (omega (arith, f₁.0, f₂.0)) ∙ derived)
          (strcpy-filled node.client_id info.client_id client.1
            (omega (arith, length-text_of info.client_id client.1, n.client_size, client.0)))
          (strcpy-filled node.server_id info.server_id server.1
            (omega (arith, length-text_of info.server_id server.1, n.server_size, server.0)))
          (strcpy-filled node.seckey key ended
            (omega (arith, length-text_of key ended, n.seckey_size, size)))
          (ap (λ k. stored (some t) k (key_node info node key m.seckeyid)) max
            ∙ ap (λ i. stored (some t) (length t) (key_node info node key i)) id_is
            ∙ after.1),
      after.2,
    )
