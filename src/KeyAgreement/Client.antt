-- ===== src/KeyAgreement/Client.antt =====
-- Safe_transmission/ClientSeckey/ClientSeckey/ClientOperation.cpp: secKeyAgree, up to the message that
-- it sends, and from the message that it receives.
use safe_transmission.Common.{
  ℕ, List, Option, some, Result, ok, ◌>>=◌, ◌>>◌, guard, or_fault, attempt, minus_one, ◌==◌, not,
}
use safe_transmission.BaseAsn1.Memory.{Allocator}
use safe_transmission.SequenceAsn1.{empty}
use safe_transmission.Codec.CString.{strcpy}
use safe_transmission.Codec.Request
use safe_transmission.Codec.Request.{RequestMsg}
use safe_transmission.Codec.Respond.{RespondMsg, msg_decode}
use safe_transmission.SecKeyShm.{NodeShmInfo, shm_write}
use safe_transmission.KeyAgreement.Digest.{Hmac, Sha, authentication, session_key, get_rand_string}

-- The members that secKeyAgree reads, without the address of the server.
pub record ClientInfo : Type 0 where
  pub client_id : List ℕ
  pub server_id : List ℕ
  pub max_node : ℕ

-- The message, and its encoding. `req` stands for the local message and `m_msg` for the codec's before
-- they are written; `NewOrUpdate` is 1.
unfoldable pub send_request :
    Allocator
    → Hmac
    → ClientInfo
    → (ℕ → ℕ)
    → RequestMsg
    → RequestMsg
    → Result (RequestMsg × (List ℕ × ℕ))
send_request malloc hmac info rand req m_msg = do
  client_id ← strcpy req.client_id info.client_id
  server_id ← strcpy req.server_id info.server_id
  let r1 = get_rand_string rand 64
  code ← authentication hmac client_id server_id r1
  auth_code ← strcpy req.auth_code code
  let msg : RequestMsg = record {
    cmd_type = 1;
    client_id = client_id;
    auth_code = auth_code;
    server_id = server_id;
    r1 = r1;
  }
  codec ← Request.new_codec m_msg msg
  (out, _) ← or_fault (Request.msg_encode malloc codec)
  ok (msg, out)

-- The client's key, and the segment after the call. `res` stands for the codec's message and `node` for
-- the local node before they are written; `r1` is the one that was sent.
unfoldable pub receive_respond :
    Allocator
    → Sha
    → ClientInfo
    → Option (List NodeShmInfo)
    → RespondMsg
    → NodeShmInfo
    → List ℕ
    → Option (List ℕ)
    → ℕ
    → Result (List ℕ × Option (List NodeShmInfo))
receive_respond malloc sha info shm res node r1 bytes len = do
  codec ← or_fault (msg_decode malloc (record { seq = empty; msg = res }) bytes len)
  guard (not (codec.msg.rv == minus_one)) minus_one
  key ← session_key sha r1 codec.msg.r2
  client_id ← strcpy node.client_id info.client_id
  server_id ← strcpy node.server_id info.server_id
  seckey ← strcpy node.seckey key
  shm' ← attempt shm (do
    table ← shm_write shm info.max_node (record {
      status = 0;
      seckey_id = codec.msg.seckeyid;
      client_id = client_id;
      server_id = server_id;
      seckey = seckey;
    })
    ok (some table))
  ok (key, shm')
