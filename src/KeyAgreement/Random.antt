-- ===== src/KeyAgreement/Random.antt =====
-- getRandString of ServerOperation.cpp and ClientOperation.cpp.
use safe_transmission.Common.{
  ℕ, zero, suc, ◌+◌, ◌-◌, ◌*◌, ◌%◌, ◌<◌, ◌≡◌, refl, sym, ap, arith, List, [], ◌∷◌, length, All,
}
use mathlib.Core.Path.{subst}
use safe_transmission.Codec.CString.Fields.{text_of}
use safe_transmission.KeyAgreement.Digest.{char_at, rand_char, rand_string, get_rand_string}
use safe_transmission.KeyAgreement.Strings.{length-rand_string}

-- A visible character of ASCII.
abbrev pub IsAllowed : ℕ → Type 0
IsAllowed c = 32 < c × c < 127

char_at-IsAllowed : (s : List ℕ) (n : ℕ) → All IsAllowed s → n < length s → IsAllowed (char_at s n)
unfolding char_at
char_at-IsAllowed [] n a h = absurd (omega arith)
char_at-IsAllowed (c ∷ s) zero a h = a.0
char_at-IsAllowed (c ∷ s) (suc n) a h = char_at-IsAllowed s n a.1 (omega arith)

rand_char-IsAllowed : (flag number : ℕ) → IsAllowed (rand_char flag number)
unfolding rand_char
rand_char-IsAllowed flag number = ground (
  arith,
  char_at-IsAllowed (126 ∷ 33 ∷ 64 ∷ 35 ∷ 36 ∷ 37 ∷ 94 ∷ 38 ∷ 42 ∷ 40 ∷ 41 ∷ 95 ∷ 43 ∷ [])
      (number % 13) (omega arith) (omega arith),
)

text_of-allowed : (c : ℕ) (p : List ℕ) → IsAllowed c → text_of (c ∷ p) ≡ c ∷ text_of p
unfolding text_of
text_of-allowed zero p a = absurd (omega (arith, a))
text_of-allowed (suc c) p a = refl

text_of_zero : text_of (0 ∷ []) ≡ []
unfolding text_of
text_of_zero = refl

rand_string_visible :
    (rand : ℕ → ℕ) (i n : ℕ)
    → (length (text_of (rand_string rand i n)) ≡ n) × All IsAllowed (text_of (rand_string rand i n))
unfolding rand_string
rand_string_visible rand i zero =
    (ap length text_of_zero, subst (λ t. All IsAllowed t) (sym text_of_zero) tt)
rand_string_visible rand i (suc n) =
    let c = rand_char-IsAllowed (rand (2 * i) % 4) (rand (2 * i + 1)) in
    let rest = rand_string_visible rand (suc i) n in
    rw
      (text_of-allowed (rand_char (rand (2 * i) % 4) (rand (2 * i + 1)))
        (rand_string rand (suc i) n) c)
      (ap suc rest.0, (c, rest.1))

-- Whatever rand() answers, getRandString fills a buffer of `len` characters, `len` being positive, with
-- a string of `len - 1` characters, each of them visible.
pub get_rand_string_full :
    (rand : ℕ → ℕ) (len : ℕ)
    → 0 < len
    → (length (get_rand_string rand len) ≡ len)
      × (length (text_of (get_rand_string rand len)) ≡ len - 1)
      × All IsAllowed (text_of (get_rand_string rand len))
unfolding get_rand_string
get_rand_string_full rand len h =
    let all = rand_string_visible rand 0 (len - 1) in
    (omega (arith, length-rand_string rand 0 (len - 1)), all.0, all.1)
