-- ===== src/Codec/Respond.antt =====
-- Safe_transmission/ServerSeckey/ServerSeckey/RespondCodec.cpp and RespondCodec.h.
pub mod RoundTrip
pub mod Constructor
pub mod Factory
pub mod Failure
use safe_transmission.Common.{ℕ, List, Option, Result, ok, ◌>>=◌, attempt}
use safe_transmission.BaseAsn1.Memory.{Allocator}
use safe_transmission.SequenceAsn1.{
  SequenceAsn1, empty, write_head_node_int, write_next_node_int, read_head_node_int,
  read_next_node_int, pack_sequence, unpack_sequence,
}
use safe_transmission.Codec.CString.{strcpy, write_field, read_field}

-- `rv` and `seckeyid` are `int`s as bit patterns; the arrays have 12, 12 and 64 characters.
pub record RespondMsg : Type 0 where
  pub rv : ℕ
  pub client_id : List ℕ
  pub server_id : List ℕ
  pub r2 : List ℕ
  pub seckeyid : ℕ

pub record RespondCodec : Type 0 where
  pub seq : SequenceAsn1
  pub msg : RespondMsg

-- The constructor from a message: `m_msg` stands for the member's arrays before the copies.
unfoldable pub new_codec : RespondMsg → RespondMsg → Result RespondCodec
new_codec m_msg msg = do
  client_id ← strcpy m_msg.client_id msg.client_id
  server_id ← strcpy m_msg.server_id msg.server_id
  r2 ← strcpy m_msg.r2 msg.r2
  ok (record {
    seq = empty;
    msg = record {
      rv = msg.rv;
      client_id = client_id;
      server_id = server_id;
      r2 = r2;
      seckeyid = msg.seckeyid;
    };
  })

module _ (malloc : Allocator) where
  -- The block and its length.
  unfoldable pub msg_encode : RespondCodec → Result ((List ℕ × ℕ) × RespondCodec)
  msg_encode c = do
    s₀ ← attempt c.seq (write_head_node_int malloc c.seq c.msg.rv)
    s₁ ← write_field malloc s₀ c.msg.client_id
    s₂ ← write_field malloc s₁ c.msg.server_id
    s₃ ← write_field malloc s₂ c.msg.r2
    s₄ ← attempt s₃ (write_next_node_int malloc s₃ c.msg.seckeyid)
    (out, s₅) ← pack_sequence malloc s₄
    ok (out, record c { seq = s₅ })

  unfoldable pub msg_decode : RespondCodec → Option (List ℕ) → ℕ → Result RespondCodec
  msg_decode c bytes len = do
    s₀ ← unpack_sequence malloc c.seq bytes len
    (rv, s₁) ← attempt (c.msg.rv, s₀) (read_head_node_int malloc s₀)
    (client_id, s₂) ← read_field malloc s₁ c.msg.client_id
    (server_id, s₃) ← read_field malloc s₂ c.msg.server_id
    (r2, s₄) ← read_field malloc s₃ c.msg.r2
    (seckeyid, s₅) ← read_next_node_int malloc s₄
    ok (record {
      seq = s₅;
      msg = record {
        rv = rv;
        client_id = client_id;
        server_id = server_id;
        r2 = r2;
        seckeyid = seckeyid;
      };
    })
