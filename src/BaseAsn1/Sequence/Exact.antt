-- ===== src/BaseAsn1/Sequence/Exact.antt =====
-- DER_ItAsn1_ReadSequence on any block: its loop ends, and what it returns is what the block holds.
use safe_transmission.Common.{
  ℕ, zero, suc, ◌+◌, ◌-◌, ◌%◌, ◌^◌, ◌≤◌, ◌<◌, ◌≡◌, refl, ap, ◌∙◌, arith, List, [], ◌∷◌, ◌++◌, ◌==◌,
  true, u64, to_int, is_positive, Bool-cases, inl, inr, ok, guard, on_error, ◌>>=◌, on_error-eq-ok,
  ok_parts, length, append_assoc, length-append, drop, take, take-append-drop, length-take,
  length-drop, All, IsByte,
}
use safe_transmission.BaseAsn1.Memory.{
  Allocator, AnyBuf, read_bytes, memory_err, invalid_tag, length_not_equal, alloc, anybuf_size,
}
use safe_transmission.BaseAsn1.Tag
use safe_transmission.BaseAsn1.Header.Suffix.{
  Suffix-trans, get_tag_info_suffix, get_length_info_suffix,
}
use safe_transmission.BaseAsn1.Header.{get_tag_info, get_length_info}
use safe_transmission.BaseAsn1.Header.Bounds.{get_tag_info_takes, get_length_info_below}
use safe_transmission.BaseAsn1.Sequence.{
  Numbers, no_numbers, with_tag, with_length, release_tag, release_length, all_freed, read_item,
  read_items, read_sequence,
}
use safe_transmission.BaseAsn1.Sequence.RoundTrip.{contents}

-- A block of bytes below 2 GB.
abbrev pub IsBlock : List ℕ → Type 0
IsBlock p = All IsByte p × (length p < 2 ^ 31)

All-drop : (n : ℕ) (p : List ℕ) → All IsByte p → All IsByte (drop n p)
All-drop zero p h = h
All-drop (suc n) [] h = h
All-drop (suc n) (b ∷ p) (hb, h) = All-drop n p h

read_bytes_ok :
    (n : ℕ) (p bytes : List ℕ) → read_bytes n p ≡ ok bytes → (n ≤ length p) × (bytes ≡ take n p)
unfolding read_bytes
read_bytes_ok n p bytes e = ground arith

-- A round takes the element's bytes from the front of the block, two at least.
abbrev pub Takes : List ℕ → AnyBuf → List ℕ → Type 0
Takes p n rest =
    (n.p_data ++ rest ≡ p)
    × (n.data_len ≡ length n.p_data)
    × (2 ≤ n.data_len)
    × IsBlock rest
    × (length rest + n.data_len ≡ length p)

pub read_item-Takes :
    (malloc : Allocator) (old : Numbers) (p : List ℕ) (n : AnyBuf) (rest : List ℕ)
    (numbers : Numbers)
    → read_item malloc old p ≡ ok (n, rest, numbers)
    → IsBlock p
    → Takes p n rest
unfolding read_item
read_item-Takes malloc old p n rest numbers e (bs, small) =
    let ((tag, tag_size, q), tagged, e₁) =
      ok_parts (on_error (release_tag old) (get_tag_info malloc p)) _ e in
    let clean = release_length (with_tag old) >>= release_tag in
    let clean_all = release_length (with_length (with_tag old)) >>= release_tag in
    let ((len, len_size, r), sized, e₂) =
      ok_parts (on_error clean (get_length_info malloc q)) _ e₁ in
    let t =
      get_tag_info_takes malloc p tag tag_size q
        (on_error-eq-ok (release_tag old) (get_tag_info malloc p) tagged) in
    let l =
      get_length_info_below malloc q len len_size r
        (on_error-eq-ok clean (get_length_info malloc q) sized) (t.2 bs) in
    let size : ℕ = u64 (tag_size + len_size + len) in
    let (_, _, e₃) = ok_parts (on_error clean_all (guard (malloc size) memory_err)) _ e₂ in
    let (bytes, copied, e₄) = ok_parts (read_bytes size p) _ e₃ in
    let (_, _, e₅) = ok_parts (alloc malloc anybuf_size) _ e₄ in
    let c = read_bytes_ok size p bytes copied in
    ground (
      arith,
      t,
      l,
      c,
      e₅,
      length-take size p,
      length-drop size p,
      take-append-drop size p,
      All-drop size p bs,
    )

-- The blocks of `ns` are the front of `p`, `left` bytes long, and each node knows its length.
abbrev Fills : List ℕ → ℕ → List AnyBuf → Type 0
Fills p left ns =
    (back : List ℕ) × (contents ns ++ back ≡ p)
    × (length (contents ns) ≡ left)
    × All (λ n. n.data_len ≡ length n.p_data) ns

Fills-cons :
    (p rest : List ℕ) (n : AnyBuf) (left : ℕ) (ns : List AnyBuf)
    → IsBlock p
    → Takes p n rest
    → left < 2 ^ 31
    → Fills rest (to_int (left + 2 ^ 64 - n.data_len)) ns
    → Fills p left (n ∷ ns)
Fills-cons p rest n left ns (bs, small) t h (back, e, l, ms) =
    let front = length-append n.p_data (contents ns) in
    let behind = length-append (contents ns) back in
    (
      back,
      append_assoc n.p_data (contents ns) back ∙ (ap (◌++◌ n.p_data) e ∙ t.0),
      omega (arith, ap length e, front, behind, l, t),
      (t.1, ms),
    )

Fills-nil : (p : List ℕ) (left : ℕ) (ns : List AnyBuf) → left ≡ 0 → ns ≡ [] → Fills p left ns
Fills-nil p left ns l e = rw (e, l) (p, refl, refl, tt)

-- A round of the loop that ends well: the element, and the rounds behind it.
read_items_round :
    (malloc : Allocator) (fuel : ℕ) (old : Numbers) (p : List ℕ) (left : ℕ) (ns : List AnyBuf)
    → read_items malloc (suc fuel) old p left ≡ ok (ns, 0)
    → is_positive left ≡ true
    → (n : AnyBuf) × (rest : List ℕ) × (numbers : Numbers) × (ms : List AnyBuf) × (read_item malloc
          old p
        ≡ ok (n, rest, numbers))
      × (read_items malloc fuel numbers rest (to_int (left + 2 ^ 64 - n.data_len)) ≡ ok (ms, 0))
      × (n ∷ ms ≡ ns)
unfolding read_items
read_items_round malloc fuel old p left ns e more =
    let e' = rw more at e in
    let ((n, rest, numbers), item, e₁) = ok_parts (read_item malloc old p) _ e' in
    let left' : ℕ = to_int (left + 2 ^ 64 - n.data_len) in
    let ((ms, z), items, e₂) = ok_parts (read_items malloc fuel numbers rest left') _ e₁ in
    (n, rest, numbers, ms, item, cc, cc)

read_items_exact :
    (malloc : Allocator) (fuel : ℕ) (old : Numbers) (p : List ℕ) (left : ℕ) (ns : List AnyBuf)
    → read_items malloc fuel old p left ≡ ok (ns, 0)
    → IsBlock p
    → left < 2 ^ 32
    → Fills p left ns
unfolding read_items
read_items_exact malloc zero old p left ns e b h = Fills-nil p left ns (ground arith) (ground arith)
read_items_exact malloc (suc fuel) old p left ns e b h = elim (Bool-cases (is_positive left)) [
  | inl more ↦
      let (n, rest, numbers, ms, item, items, q) =
        read_items_round malloc fuel old p left ns e more in
      let t = read_item-Takes malloc old p n rest numbers item b in
      rw (← q) (
        Fills-cons p rest n left ms b t (ground arith)
          (read_items_exact malloc fuel numbers rest _ ms items t.3 (omega arith)))
  | inr done ↦ Fills-nil p left ns (ground arith) (ground arith)
]

-- Whatever DER_ItAsn1_ReadSequence returns for a block of bytes below 2 GB is a stretch of that block:
-- the blocks of the nodes stand in it one behind the other, in order, with nothing left out between
-- them, each node's length is the length of its block, and the stretch ends where the length of the
-- whole says, or one byte later.
pub read_sequence_exact :
    (malloc : Allocator) (buf : AnyBuf) (ns : List AnyBuf)
    → read_sequence malloc buf ≡ ok ns
    → IsBlock buf.p_data
    → (front : List ℕ) × (back : List ℕ) × (front ++ (contents ns ++ back) ≡ buf.p_data)
      × (buf.data_len ≤ length front + length (contents ns))
      × (length front + length (contents ns) ≤ buf.data_len + 1)
      × All (λ n. n.data_len ≡ length n.p_data) ns
unfolding read_sequence
read_sequence_exact malloc buf ns e (bs, small) =
    let ((tag, tag_size, p), tagged, e₁) = ok_parts (get_tag_info malloc buf.p_data) _ e in
    let tagged_only = release_tag (with_tag no_numbers) in
    let (_, _, e₂) =
      ok_parts (on_error tagged_only (guard (tag % 256 == Tag.sequence_id) invalid_tag)) _ e₁ in
    let ((len, len_size, q), sized', e₃) =
      ok_parts (on_error tagged_only (get_length_info malloc p)) _ e₂ in
    let sized = on_error-eq-ok tagged_only (get_length_info malloc p) sized' in
    let all = release_length (with_length (with_tag no_numbers)) >>= release_tag in
    let check = guard (buf.data_len == u64 (tag_size + len_size + len)) length_not_equal in
    let (_, measured', e₄) = ok_parts (on_error all check) _ e₃ in
    let measured = on_error-eq-ok all check measured' in
    let ((ms, left), items, e₅) =
      ok_parts (read_items malloc (suc (length q)) all_freed q (to_int len)) _ e₄ in
    let t = get_tag_info_takes malloc buf.p_data tag tag_size p tagged in
    let l = get_length_info_below malloc p len len_size q sized (t.2 bs) in
    let m : buf.data_len ≡ u64 (tag_size + len_size + len) = ground arith in
    let (f, fe) =
      Suffix-trans buf.p_data p (get_tag_info_suffix malloc buf.p_data tag tag_size p tagged)
        (get_length_info_suffix malloc p len len_size q sized) in
    let done : left ≡ 0 = ground arith in
    let same : ms ≡ ns = ground arith in
    let (back, be, bl, bm) =
      read_items_exact malloc (suc (length q)) all_freed q (to_int len) ms
        (items ∙ ap (λ z. ok (ms, z)) done) (l.5 (t.2 bs), omega (arith, t, l)) (omega arith) in
    rw (← same) (
      f,
      back,
      ap (◌++◌ f) be ∙ fe,
      omega (arith, ap length fe, length-append f q, t, l, m, bl),
      omega (arith, ap length fe, length-append f q, t, l, m, bl),
      bm,
    )
