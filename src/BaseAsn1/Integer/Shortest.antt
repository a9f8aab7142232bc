-- ===== src/BaseAsn1/Integer/Shortest.antt =====
-- The form in which integers are written.
use safe_transmission.Common.{
  ℕ, ◌+◌, ◌*◌, ◌^◌, ◌≤◌, ◌<◌, ◌≡◌, arith, List, [], ◌∷◌, ok, err, All, IsByte, ◌↔◌,
}
use native.Mathlib.Decide.{dec_lt}
use safe_transmission.BaseAsn1.Memory.{Allocator, AnyBuf, Grants, data_range_err}
use safe_transmission.BaseAsn1.Integer.{int_to_char, write_integer}
use safe_transmission.BaseAsn1.Integer.RoundTrip.{integer_node, write_integer-integer_node}

-- The value of bytes, most significant first, above `acc`.
abbrev pub value_from : ℕ → List ℕ → ℕ
value_from acc [] = acc
value_from acc (b ∷ p) = value_from (acc * 256 + b) p

-- A number that is not negative, in two's complement, with no byte to spare: the top bit is clear,
-- and a zero in front stands only before a byte whose top bit is set.
abbrev pub IsShortest : List ℕ → Type 0
IsShortest [] = ⊥
IsShortest (b ∷ []) = b < 128
IsShortest (b ∷ c ∷ p) = (b < 128) × (b ≡ 0 → 128 ≤ c)

-- Whatever DER_ItAsn1_Low_IntToChar writes for a value is a list of bytes that stand for that value,
-- in the shortest two's complement form of a number that is not negative.
pub int_to_char-IsShortest :
    (malloc : Allocator) (v : ℕ) (bytes : List ℕ)
    → int_to_char malloc v ≡ ok bytes
    → (value_from 0 bytes ≡ v) × IsShortest bytes × All IsByte bytes
unfolding int_to_char
int_to_char-IsShortest malloc v bytes e = ground arith

-- If requests of up to 64 bytes are granted, DER_ItAsn1_WriteInteger writes a node exactly for the
-- values below 2 ^ 32, and answers DataRangeErr for all others.
pub write_integer_range :
    (malloc : Allocator) (v : ℕ)
    → Grants malloc 64
    → (((buf : AnyBuf) × (write_integer malloc v ≡ ok buf)) ↔ (v < 2 ^ 32))
      × ((write_integer malloc v ≡ err data_range_err) ↔ (2 ^ 32 ≤ v))
unfolding write_integer int_to_char
write_integer_range malloc v granted = elim (dec_lt v (2 ^ 32)) [
  | yes small ↦
      let written = write_integer-integer_node malloc granted v small in
      (((λ _. small), (λ _. (integer_node v, written))), ((λ e. cc), (λ big. absurd (omega arith))))
  | no big ↦ (
    ((λ w. cc (refused big)), (λ small. absurd (big small))),
    ((λ _. omega arith), (λ _. refused big)),
  )
]
  where
    refused : ¬ (v < 2 ^ 32) → write_integer malloc v ≡ err data_range_err
    refused big = ground arith
