-- ===== src/KeyAgreement/Session.antt =====
-- ServerOperation::working, and ClientOperation::secKeyAgree with its socket: the two sides over a
-- connection.
pub mod Delivery
pub mod Keys
use safe_transmission.Common.{
  ℕ, Bool, true, not, List, Option, none, some, Result, ok, fault, ◌>>=◌, ◌>>◌, or_fault, ◌==◌,
  if◌then◌else◌,
}
use safe_transmission.BaseAsn1.Memory.{Allocator}
use safe_transmission.SequenceAsn1.{empty}
use safe_transmission.Codec.Request
use safe_transmission.Codec.Request.{RequestMsg}
use safe_transmission.Codec.Respond.{RespondMsg}
use safe_transmission.SecKeyShm.{NodeShmInfo}
use safe_transmission.TcpSocket.Os.{Sys}
use safe_transmission.TcpSocket.Message.{send_msg, recv_msg}
use safe_transmission.TcpSocket.Connect.{Dial, connect_to_host}
use safe_transmission.KeyAgreement.Digest.{Hmac, Sha}
use safe_transmission.KeyAgreement.Client.{ClientInfo, send_request, receive_respond}
use safe_transmission.KeyAgreement.{ServerInfo, sec_key_agree}

-- TIMEOUT.
abbrev pub default_timeout : ℕ
default_timeout = 1000

-- recvBuf and recvLen after recvMsg: recvLen has no value if that failed, and its use is undefined.
unfoldable pub received : Option (List ℕ × ℕ) → Result (List ℕ × ℕ)
received none = fault
received (some got) = ok got

-- outData and outLen after the switch: they have a value only if secKeyAgree was called and gave them
-- one. Its code is not looked at.
unfoldable pub out_data : ℕ → Result (List ℕ × (List ℕ × ℕ)) → Result (List ℕ × (List ℕ × ℕ))
out_data cmd_type answer = if cmd_type == 1 then or_fault answer else fault

module _ (malloc : Allocator) (hmac : Hmac) (sha : Sha) (rand : ℕ → ℕ) where
  -- The server's key, what sendMsg answers, what it has sent, and the state after the call. `m_msg` stands
  -- for the decoder's message before it is written, `res` and `res_msg` for those of secKeyAgree.
  unfoldable pub working :
      ServerInfo → RequestMsg → RespondMsg → RespondMsg → Sys → Result (List ℕ × (ℕ × List ℕ × Sys))
  working info m_msg res res_msg sys = do
    (code, got, sys₁) ← recv_msg malloc true default_timeout sys
    (bytes, len) ← received got
    codec ←
        or_fault (Request.msg_decode malloc (record { seq = empty; msg = m_msg }) (some bytes) len)
    (key, out) ←
        out_data codec.msg.cmd_type (sec_key_agree malloc hmac sha info rand res res_msg codec.msg)
    sent ← send_msg malloc (some out.0) out.1 default_timeout sys₁
    ok (key, sent)

-- The client's part up to the message that it sends: the message and the length of its encoding, with
-- what working has. What connectToHost answers is not looked at.
unfoldable pub key_agree_sends :
    Allocator
    → Hmac
    → (ℕ → ℕ)
    → ClientInfo
    → Bool
    → ℕ
    → RequestMsg
    → RequestMsg
    → Dial
    → Sys
    → Result (RequestMsg × ℕ × (ℕ × List ℕ × Sys))
key_agree_sends malloc hmac rand info has_ip port req m_msg dial sys = do
  (msg, out) ← send_request malloc hmac info rand req m_msg
  _ ← connect_to_host has_ip port default_timeout dial
  sent ← send_msg malloc (some out.0) out.1 default_timeout sys
  ok (msg, out.1, sent)

-- The rest: recvBuf is null, and outLen keeps its value, if recvMsg failed.
unfoldable pub received_or : ℕ → Option (List ℕ × ℕ) → Option (List ℕ) × ℕ
received_or len none = (none, len)
received_or len (some (bytes, n)) = (some bytes, n)

-- `len` is outLen, the length of the request. The client's copy of recvMsg differs from the server's in its
-- first test, by which a recvLen of 0 is answered by ParamError.
unfoldable pub key_agree_receives :
    Allocator
    → Sha
    → ClientInfo
    → Option (List NodeShmInfo)
    → RespondMsg
    → NodeShmInfo
    → List ℕ
    → ℕ
    → Sys
    → Result (List ℕ × Option (List NodeShmInfo))
key_agree_receives malloc sha info shm res node r1 len sys = do
  (_, got, _) ← recv_msg malloc (not (len == 0)) default_timeout sys
  let recv = received_or len got
  receive_respond malloc sha info shm res node r1 recv.0 recv.1
