-- ===== src/BaseAsn1/Header/Bounds.antt =====
-- What the readers of tags and lengths consume, on any input.
use safe_transmission.Common.{
  ℕ, zero, suc, ◌+◌, ◌-◌, ◌*◌, ◌%◌, ◌^◌, ◌≤◌, ◌<◌, ◌≡◌, ◌≢◌, arith, List, [], ◌∷◌, ok, stuck,
  length, All, IsByte,
}
use safe_transmission.BaseAsn1.Memory.{Allocator}
use safe_transmission.BaseAsn1.Header.{
  get_tag_info, get_length_info, long_tag, length_info, read_big_endian,
}

long_tag_takes :
    (p : List ℕ) (value size v s : ℕ) (rest : List ℕ)
    → long_tag p value size ≡ ok (v, s, rest)
    → (size + 2 ≤ s) × (s + length rest ≡ size + 1 + length p) × (All IsByte p → All IsByte rest)
unfolding long_tag
long_tag_takes [] value size v s rest e = cc
long_tag_takes (c ∷ p) value size v s rest e =
    ground (arith, long_tag_takes p ((value + c % 128) * 256 % 2 ^ 64) (size + 1) v s rest)

-- A tag takes one byte at least, and its size is what was consumed.
pub get_tag_info_takes :
    (malloc : Allocator) (p : List ℕ) (v s : ℕ) (rest : List ℕ)
    → get_tag_info malloc p ≡ ok (v, s, rest)
    → (1 ≤ s) × (s + length rest ≡ length p) × (All IsByte p → All IsByte rest)
unfolding get_tag_info
get_tag_info_takes malloc [] v s rest e = ground arith
get_tag_info_takes malloc (b ∷ p) v s rest e = ground (arith, long_tag_takes p 0 0 v s rest)

-- What the value is below, where `k` rounds are left.
abbrev room : ℕ → ℕ
room zero = 2 ^ 32
room (suc zero) = 2 ^ 24
room (suc (suc zero)) = 2 ^ 16
room _ = 2 ^ 8

read_big_endian_below :
    (k : ℕ) (p : List ℕ) (acc v : ℕ) (rest : List ℕ)
    → read_big_endian k p acc ≡ ok (v, rest)
    → k ≤ 3
    → acc + 256 ≤ room k
    → All IsByte p
    → (v < 2 ^ 32) × (length p ≡ suc k + length rest) × All IsByte rest
unfolding read_big_endian
read_big_endian_below zero [] acc v rest e hk h bs = cc
read_big_endian_below zero (b ∷ p) acc v rest e hk h bs = ground arith
read_big_endian_below (suc k) [] acc v rest e hk h bs = cc
read_big_endian_below (suc zero) (b ∷ p) acc v rest e hk h (hb, bs) =
    ground (arith, read_big_endian_below 0 p ((acc + b) * 256 % 2 ^ 64) v rest e)
read_big_endian_below (suc (suc zero)) (b ∷ p) acc v rest e hk h (hb, bs) =
    ground (arith, read_big_endian_below 1 p ((acc + b) * 256 % 2 ^ 64) v rest e)
read_big_endian_below (suc (suc (suc zero))) (b ∷ p) acc v rest e hk h (hb, bs) =
    ground (arith, read_big_endian_below 2 p ((acc + b) * 256 % 2 ^ 64) v rest e)
read_big_endian_below (suc (suc (suc (suc k)))) (b ∷ p) acc v rest e hk h (hb, bs) =
    absurd (omega arith)

room_start : (k : ℕ) → k ≤ 3 → 0 + 256 ≤ room k
room_start zero h = omega arith
room_start (suc zero) h = omega arith
room_start (suc (suc zero)) h = omega arith
room_start (suc (suc (suc k))) h = omega arith

length_info_below :
    (p : List ℕ) (v s : ℕ) (rest : List ℕ)
    → length_info p ≡ ok (v, s, rest)
    → All IsByte p
    → (v < 2 ^ 32)
      × (1 ≤ s)
      × (s ≤ 5)
      × (s + length rest ≤ length p)
      × (length p ≤ s + 1 + length rest)
      × (All IsByte p → All IsByte rest)
unfolding length_info
length_info_below [] v s rest e bs = cc
length_info_below (b ∷ p) v s rest e (hb, bs) =
    ground (arith, room_start (b % 128 - 1), read_big_endian_below (b % 128 - 1) p 0 v rest)

-- A length is below 2 ^ 32, in a field of one to five bytes; one more is consumed where the field
-- begins with 0x80.
pub get_length_info_below :
    (malloc : Allocator) (p : List ℕ) (v s : ℕ) (rest : List ℕ)
    → get_length_info malloc p ≡ ok (v, s, rest)
    → All IsByte p
    → (v < 2 ^ 32)
      × (1 ≤ s)
      × (s ≤ 5)
      × (s + length rest ≤ length p)
      × (length p ≤ s + 1 + length rest)
      × (All IsByte p → All IsByte rest)
unfolding get_length_info
get_length_info_below malloc p v s rest e bs = ground (arith, length_info_below p v s rest)

long_tag-ne-stuck : (p : List ℕ) (value size : ℕ) → long_tag p value size ≢ stuck
unfolding long_tag
long_tag-ne-stuck [] value size = λ e. cc
long_tag-ne-stuck (c ∷ p) value size =
    ground (arith, long_tag-ne-stuck p ((value + c % 128) * 256 % 2 ^ 64) (size + 1))

pub get_tag_info-ne-stuck : (malloc : Allocator) (p : List ℕ) → get_tag_info malloc p ≢ stuck
unfolding get_tag_info
get_tag_info-ne-stuck malloc [] = ground arith
get_tag_info-ne-stuck malloc (b ∷ p) = ground (arith, long_tag-ne-stuck p 0 0)

read_big_endian-ne-stuck : (k : ℕ) (p : List ℕ) (acc : ℕ) → read_big_endian k p acc ≢ stuck
unfolding read_big_endian
read_big_endian-ne-stuck k [] acc = ground arith
read_big_endian-ne-stuck zero (b ∷ p) acc = λ e. cc
read_big_endian-ne-stuck (suc k) (b ∷ p) acc =
    read_big_endian-ne-stuck k p ((acc + b) * 256 % 2 ^ 64)

pub get_length_info-ne-stuck : (malloc : Allocator) (p : List ℕ) → get_length_info malloc p ≢ stuck
unfolding get_length_info length_info
get_length_info-ne-stuck malloc [] = λ e. cc
get_length_info-ne-stuck malloc (b ∷ p) = ground (arith, read_big_endian-ne-stuck (b % 128 - 1) p 0)
