-- ===== src/Codec/Request/Constructor.antt =====
-- RequestCodec.cpp: the constructor from a message.
use safe_transmission.Common.{ℕ, ◌<◌, ◌≡◌, refl, arith, List, length, ok}
use safe_transmission.SequenceAsn1.{empty}
use safe_transmission.Codec.CString.Fields.{text_of, length-text_of, IsTerminated-again}
use safe_transmission.Codec.CString.{strcpy}
use safe_transmission.Codec.CString.Copy.{strcpy-filled, length-filled}
use safe_transmission.Codec.Request.{RequestMsg, new_codec}
use safe_transmission.Codec.Request.RoundTrip.{HasArrays, IsSendable, arrived}

constructor_steps :
    (old m : RequestMsg) (a0 a1 a2 a3 : List ℕ)
    → strcpy old.client_id m.client_id ≡ ok a0
    → strcpy old.auth_code m.auth_code ≡ ok a1
    → strcpy old.server_id m.server_id ≡ ok a2
    → strcpy old.r1 m.r1 ≡ ok a3
    → new_codec old m
      ≡ ok (record {
        seq = empty;
        msg = record {
          client_id = a0;
          auth_code = a1;
          server_id = a2;
          r1 = a3;
          cmd_type = m.cmd_type;
        };
      })
unfolding new_codec
constructor_steps old m a0 a1 a2 a3 h0 h1 h2 h3 = rw (h0, h1, h2, h3) refl

module _ (old m : RequestMsg) (a : HasArrays old) (s : IsSendable m) where
  client_id_fits : length (text_of m.client_id) < length old.client_id
  client_id_fits =
      omega (arith, length-text_of m.client_id s.client_end, s.client_size, a.client_size)

  auth_code_fits : length (text_of m.auth_code) < length old.auth_code
  auth_code_fits = omega (arith, length-text_of m.auth_code s.auth_end, s.auth_size, a.auth_size)

  server_id_fits : length (text_of m.server_id) < length old.server_id
  server_id_fits =
      omega (arith, length-text_of m.server_id s.server_end, s.server_size, a.server_size)

  r1_fits : length (text_of m.r1) < length old.r1
  r1_fits = omega (arith, length-text_of m.r1 s.r1_end, s.r1_size, a.r1_size)

  -- The codec's arrays are the old ones with the message's strings copied in.
  pub new_codec-arrived : new_codec old m ≡ ok (record { seq = empty; msg = arrived old m })
  new_codec-arrived =
      constructor_steps old m _ _ _ _
        (strcpy-filled old.client_id m.client_id s.client_end client_id_fits)
        (strcpy-filled old.auth_code m.auth_code s.auth_end auth_code_fits)
        (strcpy-filled old.server_id m.server_id s.server_end server_id_fits)
        (strcpy-filled old.r1 m.r1 s.r1_end r1_fits)

  pub arrived-IsSendable : IsSendable (arrived old m)
  arrived-IsSendable = record {
    arrays = record {
      client_size =
          omega (arith, length-filled old.client_id m.client_id client_id_fits, a.client_size);
      auth_size =
          omega (arith, length-filled old.auth_code m.auth_code auth_code_fits, a.auth_size);
      server_size =
          omega (arith, length-filled old.server_id m.server_id server_id_fits, a.server_size);
      r1_size = omega (arith, length-filled old.r1 m.r1 r1_fits, a.r1_size);
    };
    cmd_range = s.cmd_range;
    client_end = IsTerminated-again m.client_id _;
    auth_end = IsTerminated-again m.auth_code _;
    server_end = IsTerminated-again m.server_id _;
    r1_end = IsTerminated-again m.r1 _;
  }
