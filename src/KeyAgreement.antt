-- ===== src/KeyAgreement.antt =====
-- Safe_transmission/ServerSeckey/ServerSeckey/ServerOperation.cpp and
-- Safe_transmission/ClientSeckey/ClientSeckey/ClientOperation.cpp: the two sides of the key agreement.
-- The digests of OpenSSL are parameters, functions of the bytes that they are given.
pub mod Digest
pub mod Strings
pub mod Random
pub mod Client
pub mod Sending
pub mod Answering
pub mod Receiving
pub mod Agreement
pub mod Session
use safe_transmission.Common.{ℕ, List, Result, ok, ◌>>=◌, ◌>>◌, guard, or_fault, minus_one}
use safe_transmission.BaseAsn1.Memory.{Allocator}
use safe_transmission.Codec.CString.{strcpy}
use safe_transmission.Codec.Request.{RequestMsg}
use safe_transmission.Codec.Respond.{RespondMsg, new_codec, msg_encode}
use safe_transmission.SecKeyShm.{strcmp_equal}
use safe_transmission.KeyAgreement.Digest.{Hmac, Sha, authentication, session_key, get_rand_string}

-- The member that secKeyAgree reads.
pub record ServerInfo : Type 0 where
  pub server_id : List ℕ

-- The server's key in hexadecimal, and the encoded response. `res` stands for the local message and
-- `m_msg` for the codec's before they are written, and `rand` for the numbers that rand() answers.
unfoldable pub sec_key_agree :
    Allocator
    → Hmac
    → Sha
    → ServerInfo
    → (ℕ → ℕ)
    → RespondMsg
    → RespondMsg
    → RequestMsg
    → Result (List ℕ × (List ℕ × ℕ))
sec_key_agree malloc hmac sha info rand res m_msg req = do
  code ← authentication hmac req.client_id info.server_id req.r1
  same ← strcmp_equal req.auth_code code
  guard same minus_one
  let r2 = get_rand_string rand 64
  key ← session_key sha req.r1 r2
  client_id ← strcpy res.client_id req.client_id
  server_id ← strcpy res.server_id info.server_id
  codec ←
      new_codec m_msg
        (record { rv = 0; client_id = client_id; server_id = server_id; r2 = r2; seckeyid = 100 })
  (out, _) ← or_fault (msg_encode malloc codec)
  ok (key, out)
