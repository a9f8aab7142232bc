-- ===== src/KeyAgreement/Agreement.antt =====
-- Client and server together, over a network that delivers every message.
use safe_transmission.Common.{ℕ, ◌^◌, ◌≡◌, sym, ◌∙◌, List, some, length, ok, All}
use safe_transmission.BaseAsn1.Memory.{Allocator, Grants}
use safe_transmission.SequenceAsn1.{empty}
use safe_transmission.Codec.CString.Fields.{text_of, filled, text_of_again}
use safe_transmission.Codec.Request
use safe_transmission.Codec.Request.{RequestMsg, RequestCodec}
use safe_transmission.Codec.Request.RoundTrip as RequestTrip
use safe_transmission.Codec.Request.Constructor as RequestNew
use safe_transmission.Codec.Respond.{RespondMsg}
use safe_transmission.Codec.Respond.RoundTrip as RespondTrip
use safe_transmission.Codec.Respond.Constructor as RespondNew
use safe_transmission.SecKeyShm.{NodeShmInfo, shm_read}
use safe_transmission.SecKeyShm.Lookup.{IsNode}
use safe_transmission.SecKeyShm.Write.{IsTaken}
use safe_transmission.KeyAgreement.Digest.{Hmac, Sha}
use safe_transmission.KeyAgreement.Client.{ClientInfo, send_request, receive_respond}
use safe_transmission.KeyAgreement.Sending.{IsField, send_request-IsRequest}
use safe_transmission.KeyAgreement.Answering.{sec_key_agree_answers}
use safe_transmission.KeyAgreement.Receiving.{HasNodeArrays, key_node, receive_respond_receives}
use safe_transmission.KeyAgreement.{ServerInfo, sec_key_agree}

-- A string that was copied twice.
text_of-filled_twice : (a b s : List ℕ) → text_of (filled a (filled b s)) ≡ text_of s
text_of-filled_twice a b s = text_of_again (filled b s) _ ∙ text_of_again s _

-- The buffers that the code writes before it reads them: the local messages, those of the codecs that
-- encode and of those that decode, and the client's local node.
pub record Buffers : Type 0 where
  pub request : RequestMsg
  pub request_encoder : RequestMsg
  pub request_decoder : RequestMsg
  pub respond : RespondMsg
  pub respond_encoder : RespondMsg
  pub respond_decoder : RespondMsg
  pub node : NodeShmInfo

-- Their arrays have the lengths that the structs declare.
pub record HasBuffers (b : Buffers) : Type 0 where
  pub request : RequestTrip.HasArrays b.request
  pub request_encoder : RequestTrip.HasArrays b.request_encoder
  pub request_decoder : RequestTrip.HasArrays b.request_decoder
  pub respond : RespondTrip.HasArrays b.respond
  pub respond_encoder : RespondTrip.HasArrays b.respond_encoder
  pub respond_decoder : RespondTrip.HasArrays b.respond_decoder
  pub node : HasNodeArrays b.node

-- If requests of up to 2 ^ 33 bytes are granted, the digests have 16 and 20 bytes, all arrays have their
-- declared lengths, both sides are configured with strings and with the same number of the server, and
-- the client's segment has m_maxNode nodes whose identifiers are strings, then
-- ClientOperation::secKeyAgree sends a request that the server decodes as one for a new key,
-- ServerOperation::secKeyAgree accepts it and answers, and the client derives from the answer the same
-- key as the server. If a node of the segment was empty or had the client's identifiers, shmRead
-- then finds the key there.
pub keys_agree :
    (malloc : Allocator) (hmac : Hmac) (sha : Sha) (client : ClientInfo) (server : ServerInfo)
    (rand rand' : ℕ → ℕ) (b : Buffers) (t : List NodeShmInfo)
    → Grants malloc (2 ^ 33)
    → ((key text : List ℕ) → length (hmac key text) ≡ 16)
    → ((text : List ℕ) → length (sha text) ≡ 20)
    → HasBuffers b
    → IsField 12 client.client_id
    → IsField 12 client.server_id
    → IsField 12 server.server_id
    → text_of client.server_id ≡ text_of server.server_id
    → All IsNode t
    → client.max_node ≡ length t
    → (msg : RequestMsg) × (out : List ℕ × ℕ) × (d : RequestCodec) × (key : List ℕ) × (reply : List
          ℕ
        × ℕ)
      × (t' : List NodeShmInfo) × (send_request malloc hmac client rand b.request b.request_encoder
          ≡ ok (msg, out))
      × (Request.msg_decode malloc
            (record { seq = empty; msg = b.request_decoder })
            (some out.0)
            out.1
          ≡ ok d)
      × (d.msg.cmd_type ≡ 1)
      × (sec_key_agree malloc hmac sha server rand' b.respond b.respond_encoder d.msg
          ≡ ok (key, reply))
      × (receive_respond malloc sha client
            (some t)
            b.respond_decoder
            b.node
            msg.r1
            (some reply.0)
            reply.1
          ≡ ok (key, some t'))
      × ((¬ All (IsTaken (key_node client b.node key 100)) t)
          → shm_read
              (some t')
              (length t)
              (key_node client b.node key 100).client_id
              (key_node client b.node key 100).server_id
            ≡ ok (key_node client b.node key 100))
keys_agree malloc hmac sha client server rand rand' b t granted sized sized' arrays c s s' same
      nodes max =
    let sent =
      send_request-IsRequest malloc hmac client rand b.request b.request_encoder sized
        arrays.request arrays.request_encoder c s in
    let msg = sent.0 in
    let q = sent.1 in
    let first =
      RequestTrip.msg_transfer malloc granted (RequestTrip.arrived b.request_encoder msg)
        (RequestNew.arrived-IsSendable b.request_encoder msg arrays.request_encoder q.sendable)
        empty (record { seq = empty; msg = b.request_decoder }) arrays.request_decoder in
    let d = RequestTrip.arrived b.request_decoder (RequestTrip.arrived b.request_encoder msg) in
    let d_sendable =
      RequestNew.arrived-IsSendable b.request_decoder (RequestTrip.arrived b.request_encoder msg)
        arrays.request_decoder
        (RequestNew.arrived-IsSendable b.request_encoder msg arrays.request_encoder q.sendable) in
    let r1_text = text_of-filled_twice b.request_decoder.r1 b.request_encoder.r1 msg.r1 in
    let answer =
      sec_key_agree_answers malloc hmac sha server rand' b.respond b.respond_encoder d q.code sized'
        d_sendable arrays.respond arrays.respond_encoder s'
        (rw
          (
            text_of-filled_twice b.request_decoder.client_id b.request_encoder.client_id
                msg.client_id,
            r1_text,
            q.client_text,
            sym same,
          )
          q.code_eq)
        q.code_end
        (text_of-filled_twice b.request_decoder.auth_code b.request_encoder.auth_code msg.auth_code
          ∙ q.code_text) in
    let p = answer.0 in
    let p_sendable =
      RespondNew.arrived-IsSendable b.respond_encoder p arrays.respond_encoder answer.2 in
    let second =
      RespondTrip.msg_transfer malloc granted (RespondTrip.arrived b.respond_encoder p) p_sendable
        empty (record { seq = empty; msg = b.respond_decoder }) arrays.respond_decoder in
    let final =
      RespondNew.arrived-IsSendable b.respond_decoder (RespondTrip.arrived b.respond_encoder p)
        arrays.respond_decoder p_sendable in
    let end =
      receive_respond_receives malloc sha client t b.respond_decoder b.node msg.r1 (some second.0.0)
        second.0.1 second.2
        (RespondTrip.arrived b.respond_decoder (RespondTrip.arrived b.respond_encoder p)) answer.1
        100 c s arrays.node nodes max (q.sendable.r1_size, q.sendable.r1_end)
        (final.r2_size, final.r2_end) answer.3 answer.4 second.4
        (rw (text_of-filled_twice b.respond_decoder.r2 b.respond_encoder.r2 p.r2, sym r1_text)
          answer.5)
        answer.6 answer.7 in
    (
      msg,
      first.0,
      record { seq = first.2; msg = d },
      answer.1,
      second.0,
      end.0,
      sent.2 first.0 first.1 first.3,
      first.4,
      q.kind,
      answer.8 second.0 second.1 second.3,
      end.1,
      end.2,
    )
