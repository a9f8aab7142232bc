-- ===== src/Codec/Respond/Constructor.antt =====
-- RespondCodec.cpp: the constructor from a message.
use safe_transmission.Common.{ℕ, ◌<◌, ◌≡◌, refl, arith, List, length, ok}
use safe_transmission.SequenceAsn1.{empty}
use safe_transmission.Codec.CString.Fields.{text_of, length-text_of, IsTerminated-again}
use safe_transmission.Codec.CString.{strcpy}
use safe_transmission.Codec.CString.Copy.{strcpy-filled, length-filled}
use safe_transmission.Codec.Respond.{RespondMsg, new_codec}
use safe_transmission.Codec.Respond.RoundTrip.{HasArrays, IsSendable, arrived}

constructor_steps :
    (old m : RespondMsg) (a0 a1 a2 : List ℕ)
    → strcpy old.client_id m.client_id ≡ ok a0
    → strcpy old.server_id m.server_id ≡ ok a1
    → strcpy old.r2 m.r2 ≡ ok a2
    → new_codec old m
      ≡ ok (record {
        seq = empty;
        msg = record { client_id = a0; server_id = a1; r2 = a2; rv = m.rv; seckeyid = m.seckeyid };
      })
unfolding new_codec
constructor_steps old m a0 a1 a2 h0 h1 h2 = rw (h0, h1, h2) refl

module _ (old m : RespondMsg) (a : HasArrays old) (s : IsSendable m) where
  client_id_fits : length (text_of m.client_id) < length old.client_id
  client_id_fits =
      omega (arith, length-text_of m.client_id s.client_end, s.client_size, a.client_size)

  server_id_fits : length (text_of m.server_id) < length old.server_id
  server_id_fits =
      omega (arith, length-text_of m.server_id s.server_end, s.server_size, a.server_size)

  r2_fits : length (text_of m.r2) < length old.r2
  r2_fits = omega (arith, length-text_of m.r2 s.r2_end, s.r2_size, a.r2_size)

  -- The codec's arrays are the old ones with the message's strings copied in.
  pub new_codec-arrived : new_codec old m ≡ ok (record { seq = empty; msg = arrived old m })
  new_codec-arrived =
      constructor_steps old m _ _ _
        (strcpy-filled old.client_id m.client_id s.client_end client_id_fits)
        (strcpy-filled old.server_id m.server_id s.server_end server_id_fits)
        (strcpy-filled old.r2 m.r2 s.r2_end r2_fits)

  pub arrived-IsSendable : IsSendable (arrived old m)
  arrived-IsSendable = record {
    arrays = record {
      client_size =
          omega (arith, length-filled old.client_id m.client_id client_id_fits, a.client_size);
      server_size =
          omega (arith, length-filled old.server_id m.server_id server_id_fits, a.server_size);
      r2_size = omega (arith, length-filled old.r2 m.r2 r2_fits, a.r2_size);
    };
    rv_range = s.rv_range;
    seckeyid_range = s.seckeyid_range;
    client_end = IsTerminated-again m.client_id _;
    server_end = IsTerminated-again m.server_id _;
    r2_end = IsTerminated-again m.r2 _;
  }
