-- ===== src/KeyAgreement/Strings.antt =====
-- The strings of the key agreement: what sprintf and strcpy leave for strings that end.
use safe_transmission.Common.{
  ℕ, zero, suc, ◌+◌, ◌*◌, ◌/◌, ◌%◌, ◌<◌, ◌≤◌, ◌≡◌, refl, ap, arith, List, [], ◌∷◌, ◌++◌, take,
  length, length-append, Result, ok,
}
use safe_transmission.Codec.CString.Fields.{text_of, IsTerminated, strlen-text_of, length-text_of}
use safe_transmission.KeyAgreement.Digest.{
  Hmac, Sha, hex_digit, rand_string, rand_char, hex_string, string, authentication, session_key,
}

take_text : (s : List ℕ) → IsTerminated s → take (length (text_of s)) s ≡ text_of s
unfolding text_of
take_text [] t = absurd t
take_text (zero ∷ p) t = refl
take_text (suc b ∷ p) t = ap (◌∷◌ (suc b)) (take_text p t)

pub string-text_of : (s : List ℕ) → IsTerminated s → string s ≡ ok (text_of s)
unfolding string
string-text_of s t = rw (strlen-text_of s t, take_text s t) refl

IsTerminated-cons : (b : ℕ) (p : List ℕ) → IsTerminated p → IsTerminated (b ∷ p)
IsTerminated-cons zero p t = tt
IsTerminated-cons (suc b) p t = t

pub rand_string-IsTerminated : (rand : ℕ → ℕ) (i n : ℕ) → IsTerminated (rand_string rand i n)
unfolding rand_string
rand_string-IsTerminated rand i zero = tt
rand_string-IsTerminated rand i (suc n) =
    IsTerminated-cons (rand_char (rand (2 * i) % 4) (rand (2 * i + 1))) _
      (rand_string-IsTerminated rand (suc i) n)

pub length-rand_string : (rand : ℕ → ℕ) (i n : ℕ) → length (rand_string rand i n) ≡ suc n
unfolding rand_string
length-rand_string rand i zero = refl
length-rand_string rand i (suc n) = ap suc (length-rand_string rand (suc i) n)

-- An array of a digest's digits.
pub hex_string_fits :
    (n : ℕ) (md : List ℕ)
    → n ≤ length md
    → (h : List ℕ) × (hex_string n md ≡ ok h) × IsTerminated h × (length h ≡ 2 * n + 1)
unfolding hex_string
hex_string_fits zero md fits = (0 ∷ [], refl, tt, refl)
hex_string_fits (suc n) [] fits = absurd (omega arith)
hex_string_fits (suc n) (b ∷ md) fits =
    let rest = hex_string_fits n md (omega arith) in
    (
      hex_digit (b / 16) ∷ hex_digit (b % 16) ∷ rest.0,
      rw (rest.1) refl,
      IsTerminated-cons (hex_digit (b / 16)) (hex_digit (b % 16) ∷ rest.0)
          (IsTerminated-cons (hex_digit (b % 16)) rest.0 rest.2),
      omega (arith, rest.3),
    )

-- The authentication code and the session key, as functions of texts.
abbrev pub code_of : Hmac → List ℕ → List ℕ → List ℕ → Result (List ℕ)
code_of hmac c s r = hex_string 16 (hmac (35 ∷ (c ++ 64 ∷ (s ++ 35 ∷ []))) r)

abbrev pub key_of : Sha → List ℕ → List ℕ → Result (List ℕ)
key_of sha a b = hex_string 20 (sha (a ++ b))

pub authentication-text_of :
    (hmac : Hmac) (c s r : List ℕ)
    → IsTerminated c
    → IsTerminated s
    → IsTerminated r
    → length c + length s < 1000
    → authentication hmac c s r ≡ code_of hmac (text_of c) (text_of s) (text_of r)
unfolding authentication
authentication-text_of hmac c s r tc ts tr small = ground (
  arith,
  string-text_of c tc,
  string-text_of s ts,
  string-text_of r tr,
  length-text_of c tc,
  length-text_of s ts,
  length-append (text_of c) (64 ∷ (text_of s ++ 35 ∷ [])),
  length-append (text_of s) (35 ∷ []),
)

pub session_key-text_of :
    (sha : Sha) (a b : List ℕ)
    → IsTerminated a
    → IsTerminated b
    → length a + length b < 1000
    → session_key sha a b ≡ key_of sha (text_of a) (text_of b)
unfolding session_key
session_key-text_of sha a b ta tb small = ground (
  arith,
  string-text_of a ta,
  string-text_of b tb,
  length-text_of a ta,
  length-text_of b tb,
  length-append (text_of a) (text_of b),
)
