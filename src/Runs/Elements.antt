-- ===== src/Runs/Elements.antt =====
-- Runs of BaseASN1.
use safe_transmission.Common.{
  ℕ, ◌+◌, ◌^◌, ◌≤◌, ◌≡◌, ◌≢◌, ◌↔◌, refl, arith, true, List, [], ◌∷◌, ◌++◌, length, ok, err, fault,
  stuck, All, IsByte,
}
use mathlib.Core.List.{map}
use safe_transmission.BaseAsn1.Memory.{Allocator, AnyBuf, Grants, length_err, read_bytes}
use safe_transmission.BaseAsn1.Header.{
  get_tag_info, get_length_info, count_length_of_size, length_field,
}
use safe_transmission.BaseAsn1.Header.Sizes.{count_length_of_size-der_size, der_size}
use safe_transmission.BaseAsn1.Integer.{int_to_char, write_integer, read_integer}
use safe_transmission.BaseAsn1.Integer.RoundTrip.{read_integer-write_integer}
use safe_transmission.BaseAsn1.Integer.Shortest.{int_to_char-IsShortest, value_from, IsShortest}
use safe_transmission.BaseAsn1.Sequence.{
  write_sequence, read_sequence, copy_nodes, total_length, read_items, read_item, null_pointer,
  all_freed,
}
use safe_transmission.BaseAsn1.Sequence.RoundTrip.{
  IsElement, received, contents, read_sequence-write_sequence,
}
use safe_transmission.BaseAsn1.Sequence.Exact.{read_sequence_exact}
use safe_transmission.BaseAsn1.Sequence.Termination.{read_sequence-ne-stuck}
use safe_transmission.BaseAsn1.Sequence.DoubleFree.{read_sequence_frees_twice}

-- An allocator that grants everything.
abbrev pub always : Allocator
always n = true

pub granted : (n : ℕ) → Grants always n
granted n k h = refl

abbrev pub node : List ℕ → ℕ → AnyBuf
node bytes type = record {
  p_data = bytes;
  data_len = length bytes;
  unused_bits = 0;
  memory_type = 2;
  data_type = type;
}

-- The integer 200 and the string "ab".
abbrev two_hundred : AnyBuf
two_hundred = node (2 ∷ 2 ∷ 0 ∷ 200 ∷ []) 2

abbrev ab : AnyBuf
ab = node (19 ∷ 2 ∷ 97 ∷ 98 ∷ []) 19

abbrev pair : AnyBuf
pair = node (0x30 ∷ 8 ∷ 2 ∷ 2 ∷ 0 ∷ 200 ∷ 19 ∷ 2 ∷ 97 ∷ 98 ∷ []) 16

writes_two_hundred : write_integer always 200 ≡ ok two_hundred
unfolding write_integer int_to_char
writes_two_hundred = refl

writes_pair : write_sequence always (two_hundred ∷ ab ∷ []) ≡ ok pair
unfolding write_sequence total_length copy_nodes read_bytes count_length_of_size length_field
writes_pair = refl

reads_pair : read_sequence always pair ≡ ok (two_hundred ∷ ab ∷ [])
unfolding read_sequence get_tag_info get_length_info read_items read_item read_bytes
reads_pair = refl

-- A length of 65535 is given a zero byte that it does not need.
padded_length : length_field (count_length_of_size 65535) 65535 ≡ 0x83 ∷ 0 ∷ 255 ∷ 255 ∷ []
unfolding length_field count_length_of_size
padded_length = refl

-- A length field that begins with 0x80 is counted as one byte, and two are consumed.
indefinite_length : get_length_info always (0x80 ∷ 7 ∷ 1 ∷ []) ≡ ok (7, 1, 1 ∷ [])
unfolding get_length_info
indefinite_length = refl

count_length_of_size-der_size_example :
    (count_length_of_size 256 ≡ der_size 256) ↔ (◌≢◌ {A = ℕ} 256 65535)
count_length_of_size-der_size_example = count_length_of_size-der_size 256 (omega arith)

read_integer-write_integer_example :
    (buf : AnyBuf) × (write_integer always 0x8000 ≡ ok buf) × (read_integer always buf ≡ ok 0x8000)
read_integer-write_integer_example =
    read_integer-write_integer always (granted 64) 0x8000 (omega arith)

two_hundred_bytes : int_to_char always 200 ≡ ok (0 ∷ 200 ∷ [])
unfolding int_to_char
two_hundred_bytes = refl

int_to_char-IsShortest_example :
    (value_from 0 (0 ∷ 200 ∷ []) ≡ 200) × IsShortest (0 ∷ 200 ∷ []) × All IsByte (0 ∷ 200 ∷ [])
int_to_char-IsShortest_example = int_to_char-IsShortest always 200 (0 ∷ 200 ∷ []) two_hundred_bytes

abbrev Elements : List AnyBuf → Type 0
Elements ns = All IsElement ns

two_hundred-IsElement : IsElement two_hundred
unfolding length_field count_length_of_size
two_hundred-IsElement = record {
  content = 0 ∷ 200 ∷ [];
  short = omega arith;
  fits = omega arith;
  layout = refl;
  measured = refl;
}

ab-IsElement : IsElement ab
unfolding length_field count_length_of_size
ab-IsElement = record {
  content = 97 ∷ 98 ∷ [];
  short = omega arith;
  fits = omega arith;
  layout = refl;
  measured = refl;
}

read_sequence-write_sequence_example :
    (buf : AnyBuf) × (write_sequence always (two_hundred ∷ ab ∷ []) ≡ ok buf)
    × (read_sequence always buf ≡ ok (map received (two_hundred ∷ ab ∷ [])))
read_sequence-write_sequence_example =
    read_sequence-write_sequence always (granted (2 ^ 33)) (two_hundred ∷ ab ∷ [])
      (two_hundred-IsElement, (ab-IsElement, tt)) (omega arith)

read_sequence_exact_example :
    (front : List ℕ) × (back : List ℕ) × (front ++ (contents (two_hundred ∷ ab ∷ []) ++ back)
      ≡ pair.p_data)
    × (pair.data_len ≤ length front + length (contents (two_hundred ∷ ab ∷ [])))
    × (length front + length (contents (two_hundred ∷ ab ∷ [])) ≤ pair.data_len + 1)
    × All (λ n. n.data_len ≡ length n.p_data) (two_hundred ∷ ab ∷ [])
read_sequence_exact_example =
    read_sequence_exact always pair (two_hundred ∷ ab ∷ []) reads_pair (omega arith)

-- The block ends inside the second element.
abbrev cut : AnyBuf
cut = node (0x30 ∷ 8 ∷ 2 ∷ 2 ∷ 0 ∷ 200 ∷ 19 ∷ 2 ∷ 97 ∷ []) 16

read_sequence-ne-stuck_example : read_sequence always cut ≢ stuck
read_sequence-ne-stuck_example = read_sequence-ne-stuck always cut (omega arith)

-- The second element announces five bytes of length.
abbrev bad : AnyBuf
bad = node (0x30 ∷ 6 ∷ 2 ∷ 2 ∷ 0 ∷ 200 ∷ 19 ∷ 0x85 ∷ []) 16

read_sequence_frees_twice_example :
    (read_sequence always bad ≡ fault)
    × (read_sequence always (record bad { p_data = 0x30 ∷ 0x85 ∷ [] }) ≡ err length_err)
    × (read_item always
          (record all_freed { length_value = null_pointer; length_size = null_pointer })
          (19 ∷ 0x85 ∷ [])
        ≡ err length_err)
unfolding length_field count_length_of_size
read_sequence_frees_twice_example =
    read_sequence_frees_twice always (granted (2 ^ 33)) 19 0x85 [] (omega arith) (omega arith)
      (omega arith) (two_hundred ∷ []) bad (two_hundred-IsElement, tt) (omega arith) refl refl
