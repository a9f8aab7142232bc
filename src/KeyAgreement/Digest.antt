-- ===== src/KeyAgreement/Digest.antt =====
-- What both sides compute: the random strings, the authentication code and the session key, of
-- ServerOperation.cpp and ClientOperation.cpp. A format by sprintf is written to an array of 1024.
use safe_transmission.Common.{
  ℕ, zero, suc, ◌+◌, ◌-◌, ◌*◌, ◌/◌, ◌%◌, List, [], ◌∷◌, ◌++◌, ltb, ◌==◌, if◌then◌else◌, take,
  length, Result, ok, fault, ◌>>=◌, ◌>>◌, need,
}
use safe_transmission.Codec.CString.{strlen}

-- HMAC(EVP_md5(), key, data), and SHA1(data).
abbrev pub Hmac : Type 0
Hmac = List ℕ → List ℕ → List ℕ

abbrev pub Sha : Type 0
Sha = List ℕ → List ℕ

-- "~!@#$%^&*()_+"
abbrev sz : List ℕ
sz = 126 ∷ 33 ∷ 64 ∷ 35 ∷ 36 ∷ 37 ∷ 94 ∷ 38 ∷ 42 ∷ 40 ∷ 41 ∷ 95 ∷ 43 ∷ []

-- `s[n]`, for an index below the length.
unfoldable pub char_at : List ℕ → ℕ → ℕ
char_at [] n = 0
char_at (c ∷ s) zero = c
char_at (c ∷ s) (suc n) = char_at s n

-- The switch, on the two numbers that a round draws.
unfoldable pub rand_char : ℕ → ℕ → ℕ
rand_char flag number =
    if flag == 0
    then number % 10 + 48
    else if flag == 1
    then number % 26 + 97
    else if flag == 2
    then number % 26 + 65
    else char_at sz (number % 13)

-- The rounds from the i-th on; `rand k` is what the k-th call of rand() after srand() answers.
unfoldable pub rand_string : (ℕ → ℕ) → ℕ → ℕ → List ℕ
rand_string rand i zero = 0 ∷ []
rand_string rand i (suc n) =
    rand_char (rand (2 * i) % 4) (rand (2 * i + 1)) ∷ rand_string rand (suc i) n

-- The buffer of `len` characters, where `len` is positive.
unfoldable pub get_rand_string : (ℕ → ℕ) → ℕ → List ℕ
get_rand_string rand len = rand_string rand 0 (len - 1)

-- The loop of sprintf with "%02x", over the first bytes of a digest.
unfoldable pub hex_digit : ℕ → ℕ
hex_digit d = if ltb d 10 then d + 48 else d + 87

unfoldable pub hex_string : ℕ → List ℕ → Result (List ℕ)
hex_string zero md = ok (0 ∷ [])
hex_string (suc n) [] = fault
hex_string (suc n) (b ∷ md) = do
  more ← hex_string n md
  ok (hex_digit (b / 16) ∷ hex_digit (b % 16) ∷ more)

-- "%s" of sprintf.
unfoldable pub string : List ℕ → Result (List ℕ)
string s = do n ← strlen s; ok (take n s)

-- `md1`, from "#%s@%s#" and the first random string.
unfoldable pub authentication : Hmac → List ℕ → List ℕ → List ℕ → Result (List ℕ)
authentication hmac client server r1 = do
  c ← string client
  s ← string server
  let seckey = 35 ∷ (c ++ 64 ∷ (s ++ 35 ∷ []))
  need (ltb (length seckey) 1024)
  text ← string r1
  hex_string 16 (hmac seckey text)

-- `tmpBuf1`, from "%s%s".
unfoldable pub session_key : Sha → List ℕ → List ℕ → Result (List ℕ)
session_key sha r1 r2 = do
  a ← string r1
  b ← string r2
  need (ltb (length (a ++ b)) 1024)
  hex_string 20 (sha (a ++ b))
