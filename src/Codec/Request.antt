-- ===== src/Codec/Request.antt =====
-- Safe_transmission/ServerSeckey/ServerSeckey/RequestCodec.cpp and RequestCodec.h.
pub mod RoundTrip
pub mod Constructor
pub mod Factory
pub mod Overflow
use safe_transmission.Common.{ℕ, List, Option, Result, ok, ◌>>=◌, attempt}
use safe_transmission.BaseAsn1.Memory.{Allocator}
use safe_transmission.SequenceAsn1.{
  SequenceAsn1, empty, write_head_node_int, read_head_node_int, pack_sequence, unpack_sequence,
}
use safe_transmission.Codec.CString.{strcpy, write_field, read_field}

-- `cmd_type` is an `int` as its bit pattern; the arrays have 12, 65, 12 and 64 characters.
pub record RequestMsg : Type 0 where
  pub cmd_type : ℕ
  pub client_id : List ℕ
  pub auth_code : List ℕ
  pub server_id : List ℕ
  pub r1 : List ℕ

pub record RequestCodec : Type 0 where
  pub seq : SequenceAsn1
  pub msg : RequestMsg

-- The constructor from a message: `m_msg` stands for the member's arrays before the copies.
unfoldable pub new_codec : RequestMsg → RequestMsg → Result RequestCodec
new_codec m_msg msg = do
  client_id ← strcpy m_msg.client_id msg.client_id
  auth_code ← strcpy m_msg.auth_code msg.auth_code
  server_id ← strcpy m_msg.server_id msg.server_id
  r1 ← strcpy m_msg.r1 msg.r1
  ok (record {
    seq = empty;
    msg = record {
      cmd_type = msg.cmd_type;
      client_id = client_id;
      auth_code = auth_code;
      server_id = server_id;
      r1 = r1;
    };
  })

module _ (malloc : Allocator) where
  -- The block and its length.
  unfoldable pub msg_encode : RequestCodec → Result ((List ℕ × ℕ) × RequestCodec)
  msg_encode c = do
    s₀ ← attempt c.seq (write_head_node_int malloc c.seq c.msg.cmd_type)
    s₁ ← write_field malloc s₀ c.msg.client_id
    s₂ ← write_field malloc s₁ c.msg.auth_code
    s₃ ← write_field malloc s₂ c.msg.server_id
    s₄ ← write_field malloc s₃ c.msg.r1
    (out, s₅) ← pack_sequence malloc s₄
    ok (out, record c { seq = s₅ })

  unfoldable pub msg_decode : RequestCodec → Option (List ℕ) → ℕ → Result RequestCodec
  msg_decode c bytes len = do
    s₀ ← unpack_sequence malloc c.seq bytes len
    (cmd_type, s₁) ← attempt (c.msg.cmd_type, s₀) (read_head_node_int malloc s₀)
    (client_id, s₂) ← read_field malloc s₁ c.msg.client_id
    (auth_code, s₃) ← read_field malloc s₂ c.msg.auth_code
    (server_id, s₄) ← read_field malloc s₃ c.msg.server_id
    (r1, s₅) ← read_field malloc s₄ c.msg.r1
    ok (record {
      seq = s₅;
      msg = record {
        cmd_type = cmd_type;
        client_id = client_id;
        auth_code = auth_code;
        server_id = server_id;
        r1 = r1;
      };
    })
