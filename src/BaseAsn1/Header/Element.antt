-- ===== src/BaseAsn1/Header/Element.antt =====
-- DER_ItAsn1_GetLengthInfo of BaseASN1.cpp, which takes a whole element; nothing calls it.
use safe_transmission.Common.{
  ℕ, zero, suc, ◌+◌, ◌*◌, ◌/◌, ◌%◌, ◌^◌, ◌≡◌, ◌≢◌, arith, Bool, List, [], ◌∷◌, ◌||◌, ◌==◌,
  if◌then◌else◌, Result, ok, fault, ◌>>=◌,
}

-- `b & 80`, for a byte.
abbrev has_80 : ℕ → Bool
has_80 b = (b / 64 % 2 == 1) || (b / 16 % 2 == 1)

-- The loop over the bytes of a long tag: the pointer behind the one at which it ends.
unfoldable skip_tag : List ℕ → Result (List ℕ)
skip_tag [] = fault
skip_tag (c ∷ p) = let later = skip_tag p in if has_80 c then ok p else later

-- `n` rounds of `iSize |= *(++pData); iSize <<= 8`, on an `int`.
unfoldable read_shifted : ℕ → List ℕ → ℕ → Result ℕ
read_shifted zero p size = ok size
read_shifted (suc n) [] size = fault
read_shifted (suc n) (b ∷ p) size = read_shifted n p ((size + b) * 256 % 2 ^ 32)

-- The length and the size that are read at a pointer.
unfoldable length_at : List ℕ → Result (ℕ × ℕ)
length_at [] = fault
length_at (b ∷ p) =
    let long : Result (ℕ × ℕ) = read_shifted (b % 128) p 0 >>= λ value. ok (value, b % 128) in
    if has_80 b then long else ok (b % 128, 1)

unfoldable element_length_info : List ℕ → Result (ℕ × ℕ)
element_length_info (tag ∷ next ∷ p) =
    let long : Result (ℕ × ℕ) = skip_tag p >>= length_at in
    if tag % 32 == 31 then long else length_at p
element_length_info _ = fault

-- For a short tag the byte of the length does not count: what is read is the byte behind it.
length_byte_skipped :
    (tag n m : ℕ) (p : List ℕ)
    → tag % 32 ≢ 31
    → element_length_info (tag ∷ n ∷ p) ≡ element_length_info (tag ∷ m ∷ p)
unfolding element_length_info
length_byte_skipped tag n m p short = ground (arith, short)
