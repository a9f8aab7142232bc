-- ===== src/Runs/Messages.antt =====
-- Runs of the codecs.
use safe_transmission.Common.{
  ℕ, zero, suc, ◌^◌, ◌≡◌, refl, arith, List, [], ◌∷◌, ◌++◌, some, take, ok, fault,
}
use safe_transmission.BaseAsn1.Integer.RoundTrip.{integer_node, int_bytes}
use safe_transmission.BaseAsn1.Strings.RoundTrip.{string_node}
use safe_transmission.BaseAsn1.Header.{length_field, count_length_of_size}
use safe_transmission.BaseAsn1.Sequence.RoundTrip.{sequence_node}
use safe_transmission.SequenceAsn1.{empty}
use safe_transmission.Codec.CString.Fields.{text_of}
use safe_transmission.Codec.Request
use safe_transmission.Codec.Request.{RequestMsg, RequestCodec}
use safe_transmission.Codec.Request.Factory as RequestFactory
use safe_transmission.Codec.Request.Factory.{request_through_factories}
use safe_transmission.Codec.Request.Overflow.{request_overflow}
use safe_transmission.Codec.Respond
use safe_transmission.Codec.Respond.{RespondMsg, RespondCodec}
use safe_transmission.Codec.Respond.Factory as RespondFactory
use safe_transmission.Codec.Respond.Factory.{respond_through_factories}
use safe_transmission.Codec.Respond.Failure.{respond_failure_faults}
use safe_transmission.Runs.Elements.{always, granted}

abbrev pub zeros : ℕ → List ℕ
zeros zero = []
zeros (suc n) = 0 ∷ zeros n

-- An array of `n` characters that begins with `text`.
abbrev pub array : ℕ → List ℕ → List ℕ
array n text = take n (text ++ zeros n)

abbrev pub request : RequestMsg
request = record {
  cmd_type = 1;
  client_id = array 12 (0x31 ∷ 0x31 ∷ []);
  auth_code = array 65 (0x61 ∷ []);
  server_id = array 12 (0x32 ∷ []);
  r1 = array 64 (0x7e ∷ 0x21 ∷ []);
}

abbrev sender : RequestCodec
sender = record { seq = empty; msg = request }

abbrev pub receiver : RequestCodec
receiver = record {
  seq = empty;
  msg = record {
    cmd_type = 0;
    client_id = zeros 12;
    auth_code = zeros 65;
    server_id = zeros 12;
    r1 = zeros 64;
  };
}

request_through_factories_example :
    (c : RequestCodec) × (d : RequestCodec) × (out : List ℕ × ℕ) × (c' : RequestCodec)
    × (d' : RequestCodec) × (RequestFactory.create_codec receiver.msg
          (RequestFactory.new_factory_of request)
        ≡ ok c)
    × (RequestFactory.create_codec receiver.msg RequestFactory.new_factory ≡ ok d)
    × (Request.msg_encode always c ≡ ok (out, c'))
    × (Request.msg_decode always d (some out.0) out.1 ≡ ok d')
    × (d'.msg.cmd_type ≡ 1)
    × (text_of d'.msg.client_id ≡ text_of request.client_id)
    × (text_of d'.msg.auth_code ≡ text_of request.auth_code)
    × (text_of d'.msg.server_id ≡ text_of request.server_id)
    × (text_of d'.msg.r1 ≡ text_of request.r1)
request_through_factories_example =
    request_through_factories always receiver.msg receiver.msg request (granted (2 ^ 33))
      (record {
        arrays = record {
          client_size = refl;
          auth_size = refl;
          server_size = refl;
          r1_size = refl;
        };
        cmd_range = omega arith;
        client_end = tt;
        auth_end = tt;
        server_end = tt;
        r1_end = tt;
      })
      (record { client_size = refl; auth_size = refl; server_size = refl; r1_size = refl })
      (record { client_size = refl; auth_size = refl; server_size = refl; r1_size = refl })

abbrev long_client : List ℕ
long_client = 1 ∷ 2 ∷ 3 ∷ 4 ∷ 5 ∷ 6 ∷ 7 ∷ 8 ∷ 9 ∷ 10 ∷ 11 ∷ 12 ∷ 0 ∷ []

request_overflow_example :
    Request.msg_decode always receiver
      (some (sequence_node (integer_node 1 ∷ string_node 19 long_client ∷ [])).p_data)
      (sequence_node (integer_node 1 ∷ string_node 19 long_client ∷ [])).data_len
    ≡ fault
unfolding int_bytes length_field count_length_of_size
request_overflow_example =
    request_overflow always (granted (2 ^ 33)) receiver 1 long_client [] (omega arith) (omega arith)
      (omega arith) tt (omega arith)

abbrev respond : RespondMsg
respond = record {
  rv = 0;
  client_id = array 12 (0x31 ∷ 0x31 ∷ []);
  server_id = array 12 (0x32 ∷ []);
  r2 = array 64 (0x41 ∷ []);
  seckeyid = 100;
}

abbrev pub no_respond : RespondMsg
no_respond = record {
  rv = 0;
  client_id = zeros 12;
  server_id = zeros 12;
  r2 = zeros 64;
  seckeyid = 0;
}

respond_through_factories_example :
    (c : RespondCodec) × (d : RespondCodec) × (out : List ℕ × ℕ) × (c' : RespondCodec)
    × (d' : RespondCodec) × (RespondFactory.create_codec no_respond
          (RespondFactory.new_factory_of respond)
        ≡ ok c)
    × (RespondFactory.create_codec no_respond RespondFactory.new_factory ≡ ok d)
    × (Respond.msg_encode always c ≡ ok (out, c'))
    × (Respond.msg_decode always d (some out.0) out.1 ≡ ok d')
    × (d'.msg.rv ≡ 0)
    × (text_of d'.msg.client_id ≡ text_of respond.client_id)
    × (text_of d'.msg.server_id ≡ text_of respond.server_id)
    × (text_of d'.msg.r2 ≡ text_of respond.r2)
    × (d'.msg.seckeyid ≡ 100)
respond_through_factories_example =
    respond_through_factories always no_respond no_respond respond (granted (2 ^ 33))
      (record {
        arrays = record { client_size = refl; server_size = refl; r2_size = refl };
        rv_range = omega arith;
        seckeyid_range = omega arith;
        client_end = tt;
        server_end = tt;
        r2_end = tt;
      })
      (record { client_size = refl; server_size = refl; r2_size = refl })
      (record { client_size = refl; server_size = refl; r2_size = refl })

respond_failure_faults_example :
    Respond.msg_encode always (record { seq = empty; msg = record respond { rv = 0xFFFF_FFFF } })
    ≡ fault
respond_failure_faults_example =
    respond_failure_faults always (granted (2 ^ 33)) (record respond { rv = 0xFFFF_FFFF })
      (omega arith) (omega arith) tt (omega arith)
