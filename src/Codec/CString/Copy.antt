-- ===== src/Codec/CString/Copy.antt =====
-- A string copied over an array.
use safe_transmission.Common.{
  ℕ, ◌<◌, ◌≡◌, arith, List, [], ◌∷◌, ◌++◌, drop, length, ok, length-append, length-drop,
}
use safe_transmission.Codec.CString.{strcpy}
use safe_transmission.Codec.CString.Fields.{
  text_of, IsTerminated, strlen-text_of, take-text_of, filled, overwrite-filled,
}

pub strcpy-filled :
    (dst src : List ℕ)
    → IsTerminated src
    → length (text_of src) < length dst
    → strcpy dst src ≡ ok (filled dst src)
unfolding strcpy
strcpy-filled dst src t fits =
    rw (strlen-text_of src t, take-text_of src t) (overwrite-filled dst src fits)

pub length-filled :
    (dst src : List ℕ) → length (text_of src) < length dst → length (filled dst src) ≡ length dst
length-filled dst src fits = ground (
  arith,
  length-append (text_of src ++ (0 ∷ [])) (drop (length (text_of src ++ (0 ∷ []))) dst),
  length-append (text_of src) (0 ∷ []),
  length-drop (length (text_of src ++ (0 ∷ []))) dst,
)
