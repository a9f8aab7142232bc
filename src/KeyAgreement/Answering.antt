-- ===== src/KeyAgreement/Answering.antt =====
-- ServerOperation::secKeyAgree on a request with the right authentication code, and on another.
use safe_transmission.Common.{
  ℕ, ◌≡◌, ◌≢◌, refl, ap, ◌∙◌, arith, true, false, List, ◌++◌, length, ok, err, minus_one,
}
use safe_transmission.BaseAsn1.Memory.{Allocator}
use safe_transmission.SequenceAsn1.{SequenceAsn1, empty}
use safe_transmission.Codec.CString.{strcpy}
use safe_transmission.Codec.CString.Fields.{text_of, IsTerminated, filled, length-text_of}
use safe_transmission.Codec.CString.Copy.{strcpy-filled}
use safe_transmission.Codec.Request.{RequestMsg}
use safe_transmission.Codec.Request.RoundTrip.{IsSendable}
use safe_transmission.Codec.Respond.{RespondMsg, RespondCodec, new_codec, msg_encode}
use safe_transmission.Codec.Respond.RoundTrip
use safe_transmission.Codec.Respond.RoundTrip.{HasArrays, arrived}
use safe_transmission.Codec.Respond.Constructor.{new_codec-arrived}
use safe_transmission.SecKeyShm.{strcmp_equal}
use safe_transmission.SecKeyShm.Lookup.{
  texts_equal, strcmp_equal-texts_equal, texts_equal_self, ≢→texts_equal,
}
use safe_transmission.KeyAgreement.Digest.{Hmac, Sha, authentication, session_key, get_rand_string}
use safe_transmission.KeyAgreement.Strings.{
  code_of, key_of, authentication-text_of, session_key-text_of, hex_string_fits,
}
use safe_transmission.KeyAgreement.Sending.{IsField, get_rand_string-IsField, filled-IsField}
use safe_transmission.KeyAgreement.{ServerInfo, sec_key_agree}

module _ (malloc : Allocator) (hmac : Hmac) (sha : Sha) (info : ServerInfo) (rand : ℕ → ℕ)
    (res old : RespondMsg) (req : RequestMsg) where
  answer_steps :
      (code key c s : List ℕ) (codec codec' : RespondCodec) (out : List ℕ × ℕ)
      → authentication hmac req.client_id info.server_id req.r1 ≡ ok code
      → strcmp_equal req.auth_code code ≡ ok true
      → session_key sha req.r1 (get_rand_string rand 64) ≡ ok key
      → strcpy res.client_id req.client_id ≡ ok c
      → strcpy res.server_id info.server_id ≡ ok s
      → new_codec old (record {
        rv = 0;
        client_id = c;
        server_id = s;
        r2 = get_rand_string rand 64;
        seckeyid = 100;
      })
        ≡ ok codec
      → msg_encode malloc codec ≡ ok (out, codec')
      → sec_key_agree malloc hmac sha info rand res old req ≡ ok (key, out)
  unfolding sec_key_agree
  answer_steps code key c s codec codec' out h₁ h₂ h₃ h₄ h₅ h₆ h₇ =
      rw (h₁, h₂, h₃, h₄, h₅, h₆, h₇) refl

  -- The response, the key, and what is left to do once the response is encoded.
  pub sec_key_agree_answers :
      (code : List ℕ)
      → ((text : List ℕ) → length (sha text) ≡ 20)
      → IsSendable req
      → HasArrays res
      → HasArrays old
      → IsField 12 info.server_id
      → code_of hmac (text_of req.client_id) (text_of info.server_id) (text_of req.r1) ≡ ok code
      → IsTerminated code
      → text_of req.auth_code ≡ text_of code
      → (p : RespondMsg) × (key : List ℕ) × RoundTrip.IsSendable p
        × (p.rv ≡ 0)
        × (p.seckeyid ≡ 100)
        × (key_of sha (text_of req.r1) (text_of p.r2) ≡ ok key)
        × IsTerminated key
        × (length key ≡ 41)
        × ((out : List ℕ × ℕ) (s₁ : SequenceAsn1)
            → msg_encode malloc (record { seq = empty; msg = arrived old p })
              ≡ ok (out, record { seq = s₁; msg = arrived old p })
            → sec_key_agree malloc hmac sha info rand res old req ≡ ok (key, out))
  sec_key_agree_answers code sized q r o server coded ended same =
      let r2 = get_rand_string rand 64 in
      let r2_field = get_rand_string-IsField rand in
      let c_field =
        filled-IsField 12 res.client_id req.client_id r.client_size q.client_end
          (omega (arith, q.client_size)) in
      let s_field =
        filled-IsField 12 res.server_id info.server_id r.server_size server.1
          (omega (arith, server.0)) in
      let both = text_of req.r1 ++ text_of r2 in
      let digits = hex_string_fits 20 (sha both) (omega (arith, sized both)) in
      let p : RespondMsg = record {
        rv = 0;
        client_id = filled res.client_id req.client_id;
        server_id = filled res.server_id info.server_id;
        r2 = r2;
        seckeyid = 100;
      } in
      let sendable : RoundTrip.IsSendable p = record {
        arrays = record { client_size = c_field.0; server_size = s_field.0; r2_size = r2_field.0 };
        rv_range = omega arith;
        seckeyid_range = omega arith;
        client_end = c_field.1;
        server_end = s_field.1;
        r2_end = r2_field.1;
      } in
      (
        p,
        digits.0,
        sendable,
        refl,
        refl,
        digits.1,
        digits.2,
        omega (arith, digits.3),
        λ out s₁ h.
            answer_steps code digits.0 _ _ _ _ out
              (authentication-text_of hmac req.client_id info.server_id req.r1 q.client_end server.1
                  q.r1_end (omega (arith, q.client_size, server.0))
                ∙ coded)
              (strcmp_equal-texts_equal req.auth_code code q.auth_end ended
                ∙ ap (λ t. ok (texts_equal t (text_of code))) same
                ∙ ap ok (texts_equal_self (text_of code)))
              (session_key-text_of sha req.r1 r2 q.r1_end r2_field.1
                  (omega (arith, q.r1_size, r2_field.0))
                ∙ digits.1)
              (strcpy-filled res.client_id req.client_id q.client_end (
                omega
                  (arith, length-text_of req.client_id q.client_end, r.client_size, q.client_size)))
              (strcpy-filled res.server_id info.server_id server.1
                (omega (arith, length-text_of info.server_id server.1, r.server_size, server.0)))
              (new_codec-arrived old p o sendable) h,
      )

  refuse_steps :
      (code : List ℕ)
      → authentication hmac req.client_id info.server_id req.r1 ≡ ok code
      → strcmp_equal req.auth_code code ≡ ok false
      → sec_key_agree malloc hmac sha info rand res old req ≡ err minus_one
  unfolding sec_key_agree
  refuse_steps code h₁ h₂ = rw (h₁, h₂) refl

  -- If the arrays of the request have their declared lengths and hold strings, its type is not negative,
  -- the server's number is a string in an array of 12, and `code` is the
  -- authentication code for the client's number, the server's own number and the request's random
  -- string, then ServerOperation::secKeyAgree answers -1 to a request that brings any other code.
  pub sec_key_agree_refuses :
      (code : List ℕ)
      → IsSendable req
      → IsField 12 info.server_id
      → code_of hmac (text_of req.client_id) (text_of info.server_id) (text_of req.r1) ≡ ok code
      → IsTerminated code
      → text_of req.auth_code ≢ text_of code
      → sec_key_agree malloc hmac sha info rand res old req ≡ err minus_one
  sec_key_agree_refuses code q server coded ended other =
      refuse_steps code
        (authentication-text_of hmac req.client_id info.server_id req.r1 q.client_end server.1
            q.r1_end (omega (arith, q.client_size, server.0))
          ∙ coded)
        (strcmp_equal-texts_equal req.auth_code code q.auth_end ended
          ∙ ap ok (≢→texts_equal (text_of req.auth_code) (text_of code) other))
