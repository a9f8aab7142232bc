-- ===== src/KeyAgreement/Sending.antt =====
-- ClientOperation::secKeyAgree up to its request.
use safe_transmission.Common.{ℕ, ◌+◌, ◌<◌, ◌≡◌, refl, arith, List, [], ◌∷◌, ◌++◌, length, ok}
use safe_transmission.BaseAsn1.Memory.{Allocator}
use safe_transmission.SequenceAsn1.{SequenceAsn1, empty}
use safe_transmission.Codec.CString.{strcpy}
use safe_transmission.Codec.CString.Fields.{
  text_of, IsTerminated, filled, length-text_of, text_of_again, IsTerminated-again,
}
use safe_transmission.Codec.CString.Copy.{strcpy-filled, length-filled}
use safe_transmission.Codec.Request.{RequestMsg, RequestCodec, new_codec, msg_encode}
use safe_transmission.Codec.Request.RoundTrip.{HasArrays, IsSendable, arrived}
use safe_transmission.Codec.Request.Constructor.{new_codec-arrived}
use safe_transmission.KeyAgreement.Digest.{Hmac, authentication, get_rand_string}
use safe_transmission.KeyAgreement.Strings.{
  code_of, authentication-text_of, hex_string_fits, rand_string-IsTerminated, length-rand_string,
}
use safe_transmission.KeyAgreement.Client.{ClientInfo, send_request}

-- An array of `n` characters that holds a string.
abbrev pub IsField : ℕ → List ℕ → Type 0
IsField n s = (length s ≡ n) × IsTerminated s

pub get_rand_string-IsField : (rand : ℕ → ℕ) → IsField 64 (get_rand_string rand 64)
unfolding get_rand_string
get_rand_string-IsField rand = (length-rand_string rand 0 63, rand_string-IsTerminated rand 0 63)

pub filled-IsField :
    (n : ℕ) (dst src : List ℕ)
    → length dst ≡ n
    → IsTerminated src
    → length src < n + 1
    → IsField n (filled dst src)
filled-IsField n dst src d t fits = (
  omega (arith, length-filled dst src (omega (arith, length-text_of src t)), d),
  IsTerminated-again src _,
)

send_steps :
    (malloc : Allocator) (hmac : Hmac) (info : ClientInfo) (rand : ℕ → ℕ) (req old : RequestMsg)
    (c s code a : List ℕ) (codec codec' : RequestCodec) (out : List ℕ × ℕ)
    → strcpy req.client_id info.client_id ≡ ok c
    → strcpy req.server_id info.server_id ≡ ok s
    → authentication hmac c s (get_rand_string rand 64) ≡ ok code
    → strcpy req.auth_code code ≡ ok a
    → let msg : RequestMsg = record {
      cmd_type = 1;
      client_id = c;
      auth_code = a;
      server_id = s;
      r1 = get_rand_string rand 64;
    } in
      new_codec old msg ≡ ok codec
      → msg_encode malloc codec ≡ ok (out, codec')
      → send_request malloc hmac info rand req old ≡ ok (msg, out)
unfolding send_request
send_steps malloc hmac info rand req old c s code a codec codec' out h₁ h₂ h₃ h₄ h₅ h₆ =
    rw (h₁, h₂, h₃, h₄, h₅, h₆) refl

-- A request that the client sends.
pub record IsRequest (hmac : Hmac) (info : ClientInfo) (msg : RequestMsg) : Type 0 where
  pub sendable : IsSendable msg
  pub kind : msg.cmd_type ≡ 1
  pub client_text : text_of msg.client_id ≡ text_of info.client_id
  pub server_text : text_of msg.server_id ≡ text_of info.server_id
  pub code : List ℕ
  pub code_eq :
      code_of hmac (text_of info.client_id) (text_of info.server_id) (text_of msg.r1) ≡ ok code
  pub code_end : IsTerminated code
  pub code_text : text_of msg.auth_code ≡ text_of code

-- Its message, and what is left to do once the message is encoded.
pub send_request-IsRequest :
    (malloc : Allocator) (hmac : Hmac) (info : ClientInfo) (rand : ℕ → ℕ) (req old : RequestMsg)
    → ((key text : List ℕ) → length (hmac key text) ≡ 16)
    → HasArrays req
    → HasArrays old
    → IsField 12 info.client_id
    → IsField 12 info.server_id
    → (msg : RequestMsg) × IsRequest hmac info msg
      × ((out : List ℕ × ℕ) (s₁ : SequenceAsn1)
          → msg_encode malloc (record { seq = empty; msg = arrived old msg })
            ≡ ok (out, record { seq = s₁; msg = arrived old msg })
          → send_request malloc hmac info rand req old ≡ ok (msg, out))
send_request-IsRequest malloc hmac info rand req old sized r o client server =
    let r1 = get_rand_string rand 64 in
    let r1_field = get_rand_string-IsField rand in
    let c = filled req.client_id info.client_id in
    let s = filled req.server_id info.server_id in
    let c_field =
      filled-IsField 12 req.client_id info.client_id r.client_size client.1
        (omega (arith, client.0)) in
    let s_field =
      filled-IsField 12 req.server_id info.server_id r.server_size server.1
        (omega (arith, server.0)) in
    let seckey = 35 ∷ (text_of info.client_id ++ 64 ∷ (text_of info.server_id ++ 35 ∷ [])) in
    let digits =
      hex_string_fits 16 (hmac seckey (text_of r1)) (omega (arith, sized seckey (text_of r1))) in
    let a_field =
      filled-IsField 65 req.auth_code digits.0 r.auth_size digits.2 (omega (arith, digits.3)) in
    let msg : RequestMsg = record {
      cmd_type = 1;
      client_id = c;
      auth_code = filled req.auth_code digits.0;
      server_id = s;
      r1 = r1;
    } in
    let sendable : IsSendable msg = record {
      arrays = record {
        client_size = c_field.0;
        auth_size = a_field.0;
        server_size = s_field.0;
        r1_size = r1_field.0;
      };
      cmd_range = omega arith;
      client_end = c_field.1;
      auth_end = a_field.1;
      server_end = s_field.1;
      r1_end = r1_field.1;
    } in
    (
      msg,
      record {
        sendable = sendable;
        kind = refl;
        client_text = text_of_again info.client_id _;
        server_text = text_of_again info.server_id _;
        code = digits.0;
        code_eq = digits.1;
        code_end = digits.2;
        code_text = text_of_again digits.0 _;
      },
      λ out s₁ h.
          send_steps malloc hmac info rand req old _ _ _ _ _ _ out
            (strcpy-filled req.client_id info.client_id client.1
              (omega (arith, length-text_of info.client_id client.1, r.client_size, client.0)))
            (strcpy-filled req.server_id info.server_id server.1
              (omega (arith, length-text_of info.server_id server.1, r.server_size, server.0)))
            (rw
              (
                authentication-text_of hmac c s r1 c_field.1 s_field.1 r1_field.1
                    (omega (arith, c_field.0, s_field.0)),
                text_of_again info.client_id _,
                text_of_again info.server_id _,
              )
              digits.1)
            (strcpy-filled req.auth_code digits.0 digits.2
              (omega (arith, length-text_of digits.0 digits.2, r.auth_size, digits.3)))
            (new_codec-arrived old msg o sendable) h,
    )
