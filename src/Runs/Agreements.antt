-- ===== src/Runs/Agreements.antt =====
-- Runs of the key agreement.
use safe_transmission.Common.{
  ℕ, ◌+◌, ◌*◌, ◌^◌, ◌≡◌, refl, arith, List, [], ◌∷◌, ◌++◌, some, length, take, ok, err, minus_one,
  All, length-take, length-append,
}
use safe_transmission.SequenceAsn1.{empty}
use safe_transmission.Codec.CString.Fields.{text_of}
use safe_transmission.Codec.Request
use safe_transmission.Codec.Request.{RequestMsg, RequestCodec}
use safe_transmission.SecKeyShm.{NodeShmInfo, shm_read}
use safe_transmission.SecKeyShm.Lookup.{texts_equal, texts_equal→≢}
use safe_transmission.SecKeyShm.Write.{IsTaken}
use safe_transmission.KeyAgreement.{ServerInfo, sec_key_agree}
use safe_transmission.KeyAgreement.Client.{ClientInfo, send_request, receive_respond}
use safe_transmission.KeyAgreement.Digest.{hex_string, hex_digit, get_rand_string}
use safe_transmission.KeyAgreement.Random.{IsAllowed, get_rand_string_full}
use safe_transmission.KeyAgreement.Answering.{sec_key_agree_refuses}
use safe_transmission.KeyAgreement.Receiving.{key_node}
use safe_transmission.KeyAgreement.Agreement.{Buffers, HasBuffers, keys_agree}
use safe_transmission.Runs.Elements.{always, granted}
use safe_transmission.Runs.Messages.{zeros, array, request, receiver, no_respond}
use safe_transmission.Runs.Storage.{table, blank}

-- Digests that keep the first bytes.
abbrev pub digest : ℕ → List ℕ → List ℕ
digest n text = take n (text ++ zeros n)

abbrev pub mac : List ℕ → List ℕ → List ℕ
mac key text = digest 16 (key ++ text)

pub length-digest_16 : (text : List ℕ) → length (digest 16 text) ≡ 16
length-digest_16 text =
    length-take 16 (text ++ zeros 16) (omega (arith, length-append text (zeros 16)))

pub length-digest_20 : (text : List ℕ) → length (digest 20 text) ≡ 20
length-digest_20 text =
    length-take 20 (text ++ zeros 20) (omega (arith, length-append text (zeros 20)))

abbrev pub server : ServerInfo
server = record { server_id = array 12 (0x32 ∷ []) }

-- "#11@2#~!" in hexadecimal, and zeros.
abbrev right_code : List ℕ
right_code =
    50 ∷ 51 ∷ 51 ∷ 49 ∷ 51 ∷ 49 ∷ 52 ∷ 48 ∷ 51 ∷ 50 ∷ 50 ∷ 51 ∷ 55 ∷ 101 ∷ 50 ∷ 49 ∷ 48 ∷ 48 ∷ 48
    ∷ 48 ∷ 48 ∷ 48 ∷ 48 ∷ 48 ∷ 48 ∷ 48 ∷ 48 ∷ 48 ∷ 48 ∷ 48 ∷ 48 ∷ 48 ∷ 0 ∷ []

sec_key_agree_refuses_example :
    sec_key_agree always mac (digest 20) server (λ n. n) no_respond no_respond request
    ≡ err minus_one
unfolding text_of texts_equal hex_string hex_digit
sec_key_agree_refuses_example =
    sec_key_agree_refuses always mac (digest 20) server (λ n. n) no_respond no_respond request
      right_code
      (record {
        arrays = record {
          client_size = refl;
          auth_size = refl;
          server_size = refl;
          r1_size = refl;
        };
        cmd_range = omega arith;
        client_end = tt;
        auth_end = tt;
        server_end = tt;
        r1_end = tt;
      })
      (refl, tt) refl tt (texts_equal→≢ _ _ refl)

abbrev pub client : ClientInfo
client = record { client_id = array 12 (0x35 ∷ []); server_id = array 12 (0x32 ∷ []); max_node = 2 }

abbrev pub buffers : Buffers
buffers = record {
  request = receiver.msg;
  request_encoder = receiver.msg;
  request_decoder = receiver.msg;
  respond = no_respond;
  respond_encoder = no_respond;
  respond_decoder = no_respond;
  node = blank;
}

pub buffers-HasBuffers : HasBuffers buffers
buffers-HasBuffers = record {
  request = record { client_size = refl; auth_size = refl; server_size = refl; r1_size = refl };
  request_encoder = record {
    client_size = refl;
    auth_size = refl;
    server_size = refl;
    r1_size = refl;
  };
  request_decoder = record {
    client_size = refl;
    auth_size = refl;
    server_size = refl;
    r1_size = refl;
  };
  respond = record { client_size = refl; server_size = refl; r2_size = refl };
  respond_encoder = record { client_size = refl; server_size = refl; r2_size = refl };
  respond_decoder = record { client_size = refl; server_size = refl; r2_size = refl };
  node = record { client_size = refl; server_size = refl; seckey_size = refl };
}

keys_agree_example :
    (msg : RequestMsg) × (out : List ℕ × ℕ) × (d : RequestCodec) × (key : List ℕ) × (reply : List ℕ
      × ℕ)
    × (t' : List NodeShmInfo) × (send_request always mac client
          (λ n. n)
          buffers.request
          buffers.request_encoder
        ≡ ok (msg, out))
    × (Request.msg_decode always
          (record { seq = empty; msg = buffers.request_decoder })
          (some out.0)
          out.1
        ≡ ok d)
    × (d.msg.cmd_type ≡ 1)
    × (sec_key_agree always mac
          (digest 20)
          server
          (λ n. n + 7)
          buffers.respond
          buffers.respond_encoder
          d.msg
        ≡ ok (key, reply))
    × (receive_respond always
          (digest 20)
          client
          (some table)
          buffers.respond_decoder
          buffers.node
          msg.r1
          (some reply.0)
          reply.1
        ≡ ok (key, some t'))
    × ((¬ All (IsTaken (key_node client buffers.node key 100)) table)
        → shm_read
            (some t')
            2
            (key_node client buffers.node key 100).client_id
            (key_node client buffers.node key 100).server_id
          ≡ ok (key_node client buffers.node key 100))
keys_agree_example =
    keys_agree always mac (digest 20) client server (λ n. n) (λ n. n + 7) buffers table
      (granted (2 ^ 33)) (λ key text. length-digest_16 (key ++ text)) length-digest_20
      buffers-HasBuffers (refl, tt) (refl, tt) (refl, tt) refl
      (
        record { client_end = tt; server_end = tt },
        (record { client_end = tt; server_end = tt }, tt),
      )
      refl

get_rand_string_full_example :
    (length (get_rand_string (λ n. 5 * n) 3) ≡ 3)
    × (length (text_of (get_rand_string (λ n. 5 * n) 3)) ≡ 2)
    × All IsAllowed (text_of (get_rand_string (λ n. 5 * n) 3))
get_rand_string_full_example = get_rand_string_full (λ n. 5 * n) 3 (omega arith)
