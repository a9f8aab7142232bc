-- ===== src/BaseAsn1/Header/RoundTrip.antt =====
-- The length field read back.
use safe_transmission.Common.{
  ℕ, zero, suc, ◌^◌, ◌≤◌, ◌<◌, ◌≡◌, arith, List, ◌∷◌, ◌++◌, true, ok, length,
}
use safe_transmission.BaseAsn1.Memory.{Allocator, ulong_size}
use safe_transmission.BaseAsn1.Header.{
  get_tag_info, get_length_info, count_length_of_size, length_field, length_info, length_bytes,
  read_big_endian,
}

read_length_bytes :
    (k v : ℕ) (rest : List ℕ)
    → k < 4
    → v < 256 ^ suc k
    → read_big_endian k (length_bytes (suc k) v ++ rest) 0 ≡ ok (v, rest)
unfolding read_big_endian length_bytes
read_length_bytes zero v rest hk h = ground arith
read_length_bytes (suc zero) v rest hk h = ground arith
read_length_bytes (suc (suc zero)) v rest hk h = ground arith
read_length_bytes (suc (suc (suc zero))) v rest hk h = ground arith
read_length_bytes (suc (suc (suc (suc k)))) v rest hk h = absurd (omega arith)

-- What `length_field` writes for a length below 2 ^ 32, `length_info` reads back.
pub length_info-length_field :
    (v : ℕ) (rest : List ℕ)
    → v < 2 ^ 32
    → length_info (length_field (count_length_of_size v) v ++ rest)
      ≡ ok (v, count_length_of_size v, rest)
unfolding length_info length_field count_length_of_size
length_info-length_field v rest h = ground (
  arith,
  read_length_bytes 0 v rest,
  read_length_bytes 1 v rest,
  read_length_bytes 2 v rest,
  read_length_bytes 3 v rest,
)

module _ (malloc : Allocator) (granted : malloc ulong_size ≡ true) where
  -- If a request for a number is granted, DER_ItAsn1_Low_GetLengthInfo reads every length below 2 ^ 32
  -- back from the field that the writers put down for it, of the size that
  -- DER_ItAsn1_Low_Count_LengthOfSize counts, and leaves the pointer behind that field.
  pub get_length_info-length_field :
      (v : ℕ) (rest : List ℕ)
      → v < 2 ^ 32
      → get_length_info malloc (length_field (count_length_of_size v) v ++ rest)
        ≡ ok (v, count_length_of_size v, rest)
  unfolding get_length_info
  get_length_info-length_field v rest h = rw (length_info-length_field v rest h, granted)

  -- A short tag below 31, or one with the top bit set.
  pub get_tag_info-short :
      (tag : ℕ) (rest : List ℕ) → tag < 31 → get_tag_info malloc (tag ∷ rest) ≡ ok (tag, 1, rest)
  unfolding get_tag_info
  get_tag_info-short tag rest h = rw granted (ground arith)

  pub get_length_info-short :
      (len : ℕ) (rest : List ℕ)
      → len < 128
      → get_length_info malloc (len ∷ rest) ≡ ok (len, 1, rest)
  unfolding get_length_info length_info
  get_length_info-short len rest h = ground arith

pub length-length_field :
    (v : ℕ) → v < 2 ^ 32 → length (length_field (count_length_of_size v) v) ≡ count_length_of_size v
unfolding length_field count_length_of_size
length-length_field v h = ground arith

pub count_bounds :
    (v : ℕ) → v < 2 ^ 32 → (1 ≤ count_length_of_size v) × (count_length_of_size v ≤ 5)
unfolding count_length_of_size
count_bounds v h = ground arith
