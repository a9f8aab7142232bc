-- ===== src/KeyAgreement/Session/Keys.antt =====
-- The key agreement over sockets.
use safe_transmission.Common.{
  ℕ, ◌^◌, ◌≤◌, ◌<◌, ◌≡◌, not, ◌==◌, refl, sym, ap, ◌∙◌, arith, Bool, true, List, [], ◌∷◌, ◌++◌,
  Option, some, length, take, ok, ok_parts, ◌>>=◌, All,
}
use mathlib.Core.Path.{subst}
use safe_transmission.BaseAsn1.Memory.{Allocator, Grants}
use safe_transmission.SequenceAsn1.{empty}
use safe_transmission.Codec.CString.Fields.{text_of}
use safe_transmission.Codec.Request
use safe_transmission.Codec.Request.{RequestMsg, RequestCodec}
use safe_transmission.Codec.Respond.{RespondMsg}
use safe_transmission.SecKeyShm.{NodeShmInfo, shm_read}
use safe_transmission.SecKeyShm.Lookup.{IsNode}
use safe_transmission.SecKeyShm.Write.{IsTaken}
use safe_transmission.TcpSocket.Os.{Answer, Sys}
use safe_transmission.TcpSocket.Stream.Pieces.{Pieces}
use safe_transmission.TcpSocket.Timeout.Ready.{Ready}
use safe_transmission.TcpSocket.Message.{send_msg, recv_msg}
use safe_transmission.TcpSocket.Message.Frame.{send_msg-frame}
use safe_transmission.TcpSocket.Message.RoundTrip.{recv_msg-send_msg}
use safe_transmission.TcpSocket.Connect.{Dial, connect_to_host}
use safe_transmission.KeyAgreement.Digest.{Hmac, Sha}
use safe_transmission.KeyAgreement.Client.{ClientInfo, send_request, receive_respond}
use safe_transmission.KeyAgreement.Sending.{IsField}
use safe_transmission.KeyAgreement.Receiving.{key_node}
use safe_transmission.KeyAgreement.Agreement.{Buffers, HasBuffers, keys_agree}
use safe_transmission.KeyAgreement.{ServerInfo, sec_key_agree}
use safe_transmission.KeyAgreement.Session.{
  default_timeout, received, received_or, out_data, working, key_agree_sends, key_agree_receives,
}
use safe_transmission.KeyAgreement.Session.Delivery.{
  request_msg_decode-take, respond_msg_decode-take,
}

-- `sent` reaches a socket: the wait ends with it ready, and the bytes come in pieces, the length apart
-- from what is behind it, with any interruptions.
pub record Arrives (sent : List ℕ) (sys : Sys) : Type 0 where
  pub header : List ℕ
  pub body : List ℕ
  pub selects : List (Answer ℕ)
  pub mid : List (Answer (List ℕ))
  pub rest : List (Answer (List ℕ))
  pub ready : Ready selects sys.selects
  pub split : sent ≡ header ++ body
  pub four : length header ≡ 4
  pub head : Pieces mid sys.reads header
  pub tail : Pieces rest mid body

module _ (malloc : Allocator) (granted : Grants malloc (2 ^ 33)) where
  pub recv_msg-Arrives :
      (bytes : List ℕ) (len : ℕ) (sys sys' peer : Sys) (sent : List ℕ)
      → send_msg malloc (some bytes) len default_timeout sys ≡ ok (0, sent, sys')
      → Arrives sent peer
      → (peer' : Sys) × (recv_msg malloc true default_timeout peer
          ≡ ok (0, some (take len bytes ++ (0 ∷ []), len), peer'))
        × (len ≤ length bytes)
  recv_msg-Arrives bytes len sys sys' peer sent h a =
      let got =
        recv_msg-send_msg malloc malloc bytes len default_timeout default_timeout sys sys' peer sent
          a.header a.body h (λ k less. granted k (omega arith)) (omega arith) a.ready a.split a.four
          a.head a.tail in
      (got.0, got.1, (send_msg-frame malloc bytes len default_timeout sys sys' sent h).3)

  -- working, on a request that arrives and that secKeyAgree answers.
  working_steps :
      (hmac : Hmac) (sha : Sha) (rand : ℕ → ℕ) (info : ServerInfo) (m_msg : RequestMsg)
      (res res_msg : RespondMsg) (sys sys₁ : Sys) (bytes tail : List ℕ) (len code : ℕ)
      (d : RequestCodec) (key : List ℕ) (reply : List ℕ × ℕ)
      → recv_msg malloc true default_timeout sys
        ≡ ok (code, some (take len bytes ++ tail, len), sys₁)
      → len ≤ length bytes
      → Request.msg_decode malloc (record { seq = empty; msg = m_msg }) (some bytes) len ≡ ok d
      → d.msg.cmd_type ≡ 1
      → sec_key_agree malloc hmac sha info rand res res_msg d.msg ≡ ok (key, reply)
      → working malloc hmac sha rand info m_msg res res_msg sys
        ≡ (send_msg malloc (some reply.0) reply.1 default_timeout sys₁ >>= λ sent. ok (key, sent))
  unfolding working received out_data
  working_steps hmac sha rand info m_msg res res_msg sys sys₁ bytes tail len code d key reply got
        fits decoded kind answered =
      rw
        (
          got,
          request_msg_decode-take malloc bytes tail len fits (record { seq = empty; msg = m_msg }),
          decoded,
          answered,
          kind,
        )
        refl

  key_agree_receives_steps :
      (sha : Sha) (info : ClientInfo) (shm : Option (List NodeShmInfo)) (res : RespondMsg)
      (node : NodeShmInfo) (r1 : List ℕ) (old : ℕ) (sys sys₁ : Sys) (bytes tail : List ℕ)
      (len code : ℕ)
      → recv_msg malloc true default_timeout sys
        ≡ ok (code, some (take len bytes ++ tail, len), sys₁)
      → len ≤ length bytes
      → 0 < old
      → key_agree_receives malloc sha info shm res node r1 old sys
        ≡ receive_respond malloc sha info shm res node r1 (some bytes) len
  unfolding key_agree_receives received_or receive_respond
  key_agree_receives_steps sha info shm res node r1 old sys sys₁ bytes tail len code got fits
        asked =
      let not_null : not (old == 0) ≡ true = ground arith in
      rw
        (
          not_null,
          got,
          respond_msg_decode-take malloc bytes tail len fits (record { seq = empty; msg = res }),
        )
        refl

  -- The parts of a run of key_agree_sends whose message is known.
  key_agree_sends_parts :
      (hmac : Hmac) (rand : ℕ → ℕ) (info : ClientInfo) (has_ip : Bool) (port : ℕ)
      (req m_msg msg msg' : RequestMsg) (dial : Dial) (sys sys' : Sys) (len code : ℕ)
      (sent : List ℕ) (out : List ℕ × ℕ)
      → key_agree_sends malloc hmac rand info has_ip port req m_msg dial sys
        ≡ ok (msg, len, (code, sent, sys'))
      → send_request malloc hmac info rand req m_msg ≡ ok (msg', out)
      → (msg ≡ msg')
        × (len ≡ out.1)
        × (send_msg malloc (some out.0) out.1 default_timeout sys ≡ ok (code, sent, sys'))
  unfolding key_agree_sends
  key_agree_sends_parts hmac rand info has_ip port req m_msg msg msg' dial sys sys' len code sent
        out h made =
      let h' = rw made at h in
      let dialled = ok_parts (connect_to_host has_ip port default_timeout dial) _ h' in
      let went = ok_parts (send_msg malloc (some out.0) out.1 default_timeout sys) _ dialled.2 in
      (cc, cc, went.1 ∙ (cc))

-- If requests of up to 2 ^ 33 bytes are granted, the digests have 16 and 20 bytes, all arrays have their
-- declared lengths, both sides are configured with strings and with the same number of the server, the
-- client's segment has m_maxNode nodes whose identifiers are strings, sendMsg returned 0 to the client
-- and to ServerOperation::working, and what each of them sent arrives at the other, whose wait ends
-- with the socket ready, in pieces with any interruptions, the length apart from the bytes behind it,
-- then ClientOperation::secKeyAgree goes on to the key that the server has. If a node of the segment
-- was empty or had the client's identifiers, shmRead then finds the key there.
pub keys_agree_over_sockets :
    (malloc : Allocator) (hmac : Hmac) (sha : Sha) (client : ClientInfo) (server : ServerInfo)
    (rand rand' : ℕ → ℕ) (b : Buffers) (t : List NodeShmInfo) (has_ip : Bool) (port : ℕ)
    (dial : Dial) (sys sys₁ peer peer₁ sys₂ : Sys) (msg : RequestMsg) (len : ℕ)
    (sent key reply : List ℕ)
    → Grants malloc (2 ^ 33)
    → ((key text : List ℕ) → length (hmac key text) ≡ 16)
    → ((text : List ℕ) → length (sha text) ≡ 20)
    → HasBuffers b
    → IsField 12 client.client_id
    → IsField 12 client.server_id
    → IsField 12 server.server_id
    → text_of client.server_id ≡ text_of server.server_id
    → All IsNode t
    → client.max_node ≡ length t
    → key_agree_sends malloc hmac rand client has_ip port b.request b.request_encoder dial sys
      ≡ ok (msg, len, (0, sent, sys₁))
    → Arrives sent peer
    → working malloc hmac sha rand' server b.request_decoder b.respond b.respond_encoder peer
      ≡ ok (key, (0, reply, peer₁))
    → Arrives reply sys₂
    → (t' : List NodeShmInfo) × (key_agree_receives malloc sha client
          (some t)
          b.respond_decoder
          b.node
          msg.r1
          len
          sys₂
        ≡ ok (key, some t'))
      × ((¬ All (IsTaken (key_node client b.node key 100)) t)
          → shm_read
              (some t')
              (length t)
              (key_node client b.node key 100).client_id
              (key_node client b.node key 100).server_id
            ≡ ok (key_node client b.node key 100))
keys_agree_over_sockets malloc hmac sha client server rand rand' b t has_ip port dial sys sys₁ peer
      peer₁ sys₂ msg len sent key reply granted sized sized' arrays c s s' same nodes max h a h'
      a' =
    let k =
      keys_agree malloc hmac sha client server rand rand' b t granted sized sized' arrays c s s'
        same nodes max in
    let (_, out, d, key', answer, t', made, decoded, kind, answered, agreed, found) = k in
    let request =
      key_agree_sends_parts malloc granted hmac rand client has_ip port b.request b.request_encoder
        msg k.0 dial sys sys₁ len 0 sent out h made in
    let arrived = recv_msg-Arrives malloc granted out.0 out.1 sys sys₁ peer sent request.2 a in
    let steps =
      working_steps malloc granted hmac sha rand' server b.request_decoder b.respond
        b.respond_encoder peer arrived.0 out.0 (0 ∷ []) out.1 0 d key' answer arrived.1 arrived.2
        decoded kind answered in
    let respond =
      ok_parts (send_msg malloc (some answer.0) answer.1 default_timeout arrived.0) _
        (sym steps ∙ h') in
    let same_key : key' ≡ key = cc in
    let gone : send_msg malloc (some answer.0) answer.1 default_timeout arrived.0
        ≡ ok (0, reply, peer₁) =
      respond.1 ∙ (cc) in
    let back =
      recv_msg-Arrives malloc granted answer.0 answer.1 arrived.0 peer₁ sys₂ reply gone a' in
    let asked = (send_msg-frame malloc out.0 out.1 default_timeout sys sys₁ sent request.2).1 in
    let end =
      key_agree_receives_steps malloc granted sha client (some t) b.respond_decoder b.node msg.r1
        len sys₂ back.0 answer.0 (0 ∷ []) answer.1 0 back.1 back.2
        (omega (arith, asked, request.1)) in
    (
      t',
      end
          ∙ ap
              (λ m.
                receive_respond malloc sha client (some t) b.respond_decoder b.node m.r1
                  (some answer.0) answer.1)
              request.0
          ∙ agreed
          ∙ ap (λ k. ok (k, some t')) same_key,
      subst
          (λ k.
            (¬ All (IsTaken (key_node client b.node k 100)) t)
            → shm_read (some t') (length t) (key_node client b.node k 100).client_id
                (key_node client b.node k 100).server_id
              ≡ ok (key_node client b.node k 100))
          same_key found,
    )
