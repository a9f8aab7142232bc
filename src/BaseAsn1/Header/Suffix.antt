-- ===== src/BaseAsn1/Header/Suffix.antt =====
-- The pointer that the readers of tags and lengths return stands in the block that they were given.
use safe_transmission.Common.{
  ℕ, zero, suc, ◌+◌, ◌-◌, ◌*◌, ◌%◌, ◌^◌, ◌≡◌, ap, ◌∙◌, arith, List, [], ◌∷◌, ◌++◌, inl, inr,
  append_assoc, Bool-cases, ◌==◌, ok,
}
use safe_transmission.BaseAsn1.Memory.{Allocator, top_bit}
use safe_transmission.BaseAsn1.Header.{
  get_tag_info, get_length_info, long_tag, length_info, read_big_endian,
}

abbrev pub Suffix : List ℕ → List ℕ → Type 0
Suffix p rest = (front : List ℕ) × (front ++ rest ≡ p)

pub Suffix-cons : (b : ℕ) {p rest : List ℕ} → Suffix p rest → Suffix (b ∷ p) rest
Suffix-cons b (front, e) = (b ∷ front, ap (◌∷◌ b) e)

pub Suffix-trans : (p q : List ℕ) {r : List ℕ} → Suffix p q → Suffix q r → Suffix p r
Suffix-trans p q {r} (f, e) (g, d) = (f ++ g, append_assoc f g r ∙ (ap (◌++◌ f) d ∙ e))

long_tag_suffix :
    (p : List ℕ) (value size v s : ℕ) (rest : List ℕ)
    → long_tag p value size ≡ ok (v, s, rest)
    → Suffix p rest
unfolding long_tag
long_tag_suffix [] value size v s rest e = cc
long_tag_suffix (c ∷ p) value size v s rest e = elim (Bool-cases (top_bit c)) [
  | inl last ↦ (c ∷ [], ground arith)
  | inr more ↦
      Suffix-cons c
        (long_tag_suffix p ((value + c % 128) * 256 % 2 ^ 64) (size + 1) v s rest (ground arith))
]

pub get_tag_info_suffix :
    (malloc : Allocator) (p : List ℕ) (v s : ℕ) (rest : List ℕ)
    → get_tag_info malloc p ≡ ok (v, s, rest)
    → Suffix p rest
unfolding get_tag_info
get_tag_info_suffix malloc [] v s rest e = absurd (ground arith)
get_tag_info_suffix malloc (b ∷ p) v s rest e = elim (Bool-cases (b % 32 == 31)) [
  | inl long ↦ Suffix-cons b (long_tag_suffix p 0 0 v s rest (ground arith))
  | inr short ↦ (b ∷ [], ground arith)
]

read_big_endian_suffix :
    (k : ℕ) (p : List ℕ) (acc v : ℕ) (rest : List ℕ)
    → read_big_endian k p acc ≡ ok (v, rest)
    → Suffix p rest
unfolding read_big_endian
read_big_endian_suffix k [] acc v rest e = absurd (ground arith)
read_big_endian_suffix zero (b ∷ p) acc v rest e = (b ∷ [], ground arith)
read_big_endian_suffix (suc k) (b ∷ p) acc v rest e =
    Suffix-cons b (read_big_endian_suffix k p ((acc + b) * 256 % 2 ^ 64) v rest e)

length_info_suffix :
    (p : List ℕ) (v s : ℕ) (rest : List ℕ) → length_info p ≡ ok (v, s, rest) → Suffix p rest
unfolding length_info
length_info_suffix [] v s rest e = cc
length_info_suffix (b ∷ p) v s rest e = elim (Bool-cases (top_bit b)) [
  | inl long ↦ Suffix-cons b (read_big_endian_suffix (b % 128 - 1) p 0 v rest (ground arith))
  | inr short ↦ (b ∷ [], ground arith)
]

pub get_length_info_suffix :
    (malloc : Allocator) (p : List ℕ) (v s : ℕ) (rest : List ℕ)
    → get_length_info malloc p ≡ ok (v, s, rest)
    → Suffix p rest
unfolding get_length_info
get_length_info_suffix malloc p v s rest e = length_info_suffix p v s rest (ground arith)
