-- ===== src/Codec/CString/Fields.antt =====
-- The text of an array, and what is left of it after a copy.
use safe_transmission.Common.{
  ℕ, zero, suc, ◌<◌, ◌≡◌, refl, ap, arith, List, [], ◌∷◌, ◌++◌, length, take, drop, ok,
  length-append,
}
use safe_transmission.Codec.CString.{strlen, overwrite}

-- The characters before the terminating zero.
unfoldable pub text_of : List ℕ → List ℕ
text_of [] = []
text_of (zero ∷ p) = []
text_of (suc b ∷ p) = suc b ∷ text_of p

-- A zero stands in the array.
abbrev pub IsTerminated : List ℕ → Type 0
IsTerminated [] = ⊥
IsTerminated (zero ∷ p) = Unit {0}
IsTerminated (suc b ∷ p) = IsTerminated p

pub strlen-text_of :
    (field : List ℕ) → IsTerminated field → strlen field ≡ ok (length (text_of field))
unfolding strlen text_of
strlen-text_of [] t = absurd t
strlen-text_of (zero ∷ p) t = refl
strlen-text_of (suc b ∷ p) t = rw (strlen-text_of p t)

-- The text with its zero is the front of the array.
pub take-text_of :
    (field : List ℕ)
    → IsTerminated field
    → take (suc (length (text_of field))) field ≡ text_of field ++ (0 ∷ [])
unfolding text_of
take-text_of [] t = absurd t
take-text_of (zero ∷ p) t = refl
take-text_of (suc b ∷ p) t = ap (◌∷◌ (suc b)) (take-text_of p t)

pub length-text_of : (field : List ℕ) → IsTerminated field → length (text_of field) < length field
unfolding text_of
length-text_of [] t = absurd t
length-text_of (zero ∷ p) t = omega arith
length-text_of (suc b ∷ p) t = omega (arith, length-text_of p t)

pub text_of_again :
    (field rest : List ℕ) → text_of ((text_of field ++ (0 ∷ [])) ++ rest) ≡ text_of field
unfolding text_of
text_of_again [] rest = refl
text_of_again (zero ∷ p) rest = refl
text_of_again (suc b ∷ p) rest = ap (◌∷◌ (suc b)) (text_of_again p rest)

pub IsTerminated-again : (field rest : List ℕ) → IsTerminated ((text_of field ++ (0 ∷ [])) ++ rest)
unfolding text_of
IsTerminated-again [] rest = tt
IsTerminated-again (zero ∷ p) rest = tt
IsTerminated-again (suc b ∷ p) rest = IsTerminated-again p rest

-- The array `old` with the text of `field` copied in.
abbrev pub filled : List ℕ → List ℕ → List ℕ
filled old field = (text_of field ++ (0 ∷ [])) ++ drop (length (text_of field ++ (0 ∷ []))) old

pub overwrite-filled :
    (old field : List ℕ)
    → length (text_of field) < length old
    → overwrite old (text_of field ++ (0 ∷ [])) ≡ ok (filled old field)
unfolding overwrite
overwrite-filled old field h = ground (arith, length-append (text_of field) (0 ∷ []))
