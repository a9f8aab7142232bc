-- ===== src/BaseAsn1/Header/Sizes.antt =====
-- How long a length field is.
use safe_transmission.Common.{ℕ, zero, suc, ◌/◌, ◌<◌, ◌^◌, ◌≡◌, ◌≢◌, ◌↔◌, arith, ltb, if◌then◌else◌}
use safe_transmission.BaseAsn1.Header.{count_length_of_size}

-- The number of bytes of a value below 256 ^ fuel.
abbrev pub byte_count : ℕ → ℕ → ℕ
byte_count zero v = 0
byte_count (suc fuel) v = if ltb v 256 then 1 else suc (byte_count fuel (v / 256))

-- The size of the definite length field that DER asks for.
abbrev pub der_size : ℕ → ℕ
der_size v = if ltb v 128 then 1 else suc (byte_count 4 v)

-- Among the lengths below 2 ^ 32, DER_ItAsn1_Low_Count_LengthOfSize answers the size that DER asks
-- for exactly where the length is not 65535.
pub count_length_of_size-der_size :
    (v : ℕ) → v < 2 ^ 32 → (count_length_of_size v ≡ der_size v) ↔ (v ≢ 65535)
unfolding count_length_of_size
count_length_of_size-der_size v h = ((λ e. ground arith), (λ n. ground arith))
