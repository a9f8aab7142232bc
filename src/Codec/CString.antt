-- ===== src/Codec/CString.antt =====
-- Arrays of `char` that hold a string: what strlen, strcpy and memcpy do with them.
pub mod Fields
pub mod Copy
pub mod Transfer
use safe_transmission.Common.{
  ℕ, zero, suc, ◌+◌, List, [], ◌∷◌, ◌++◌, leb, take, drop, length, Option, some, Result, ok, fault,
  ◌>>=◌, ◌>>◌, need, attempt, to_int,
}
use safe_transmission.BaseAsn1.Memory.{Allocator}
use safe_transmission.SequenceAsn1.{SequenceAsn1, write_next_node_str, read_next_node_str}

-- The characters before the terminating zero; a string that is not terminated is read past its array.
unfoldable pub strlen : List ℕ → Result ℕ
strlen [] = fault
strlen (zero ∷ p) = ok 0
strlen (suc b ∷ p) = do n ← strlen p; ok (suc n)

-- `memcpy(dst, bytes, length bytes)` into an array.
unfoldable pub overwrite : List ℕ → List ℕ → Result (List ℕ)
overwrite dst bytes = do
  need (leb (length bytes) (length dst))
  ok (bytes ++ drop (length bytes) dst)

unfoldable pub strcpy : List ℕ → List ℕ → Result (List ℕ)
strcpy dst src = do n ← strlen src; overwrite dst (take (suc n) src)

module _ (malloc : Allocator) where
  -- `writeNextNode(field, strlen(field) + 1)`, its code not looked at.
  unfoldable pub write_field : SequenceAsn1 → List ℕ → Result SequenceAsn1
  write_field s field = do
    n ← strlen field
    attempt s (write_next_node_str malloc s (some field) (to_int (suc n)))

  -- `readNextNode(field)`, its code not looked at: after an error the array and the cursor stay.
  unfoldable pub read_field : SequenceAsn1 → List ℕ → Result (List ℕ × SequenceAsn1)
  read_field s field = do
    (bytes, s') ← attempt ([], s) (read_next_node_str malloc s)
    field' ← overwrite field bytes
    ok (field', s')
