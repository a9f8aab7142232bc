-- ===== src/BaseAsn1/Sequence/Termination.antt =====
-- The loop of DER_ItAsn1_ReadSequence ends on any block.
use safe_transmission.Common.{
  ℕ, zero, suc, ◌+◌, ◌-◌, ◌%◌, ◌^◌, ◌<◌, ◌≢◌, arith, List, ◌==◌, u64, to_int, is_positive,
  Bool-cases, inl, inr, stuck, guard, ◌>>=◌, on_error, on_error-eq-ok, >>=-ne-stuck,
  on_error-ne-stuck, guard-ne-stuck, length,
}
use safe_transmission.BaseAsn1.Memory.{
  Allocator, AnyBuf, read_bytes, invalid_tag, length_not_equal, length_err,
}
use safe_transmission.BaseAsn1.Tag
use safe_transmission.BaseAsn1.Header.Suffix.{}
use safe_transmission.BaseAsn1.Header.{get_tag_info, get_length_info}
use safe_transmission.BaseAsn1.Header.Bounds.{
  get_tag_info_takes, get_length_info_below, get_tag_info-ne-stuck, get_length_info-ne-stuck,
}
use safe_transmission.BaseAsn1.Sequence.{
  Pointer, null_pointer, to_number, dangling, release, Numbers, no_numbers, with_tag, with_length,
  release_tag, release_length, all_freed, read_item, read_items, read_sequence,
}
use safe_transmission.BaseAsn1.Sequence.Exact.{IsBlock, read_item-Takes}

read_bytes-ne-stuck : (n : ℕ) (p : List ℕ) → read_bytes n p ≢ stuck
unfolding read_bytes
read_bytes-ne-stuck n p = ground arith

release-ne-stuck : (p : Pointer) → release p ≢ stuck
release-ne-stuck null_pointer = λ e. cc
release-ne-stuck to_number = λ e. cc
release-ne-stuck dangling = λ e. cc

release_tag-ne-stuck : (n : Numbers) → release_tag n ≢ stuck
release_tag-ne-stuck n =
    >>=-ne-stuck (release n.tag_value) _ (release-ne-stuck n.tag_value)
      λ _ _. >>=-ne-stuck (release n.tag_size) _ (release-ne-stuck n.tag_size) λ _ _ e. cc

release_length-ne-stuck : (n : Numbers) → release_length n ≢ stuck
release_length-ne-stuck n =
    >>=-ne-stuck (release n.length_value) _ (release-ne-stuck n.length_value)
      λ _ _. >>=-ne-stuck (release n.length_size) _ (release-ne-stuck n.length_size) λ _ _ e. cc

release_all-ne-stuck : (n : Numbers) → (release_length n >>= release_tag) ≢ stuck
release_all-ne-stuck n =
    >>=-ne-stuck (release_length n) release_tag (release_length-ne-stuck n)
      λ m _. release_tag-ne-stuck m

read_item-ne-stuck :
    (malloc : Allocator) (old : Numbers) (p : List ℕ) → read_item malloc old p ≢ stuck
unfolding read_item
read_item-ne-stuck malloc old p =
    >>=-ne-stuck (on_error (release_tag old) (get_tag_info malloc p)) _
      (on_error-ne-stuck _ _ (release_tag-ne-stuck old) (get_tag_info-ne-stuck malloc p))
      λ (t, s, q) _.
        >>=-ne-stuck
          (on_error (release_length (with_tag old) >>= release_tag) (get_length_info malloc q)) _
          (on_error-ne-stuck _ _ (release_all-ne-stuck (with_tag old))
            (get_length_info-ne-stuck malloc q))
          λ a _. ground (arith, read_bytes-ne-stuck (u64 (s + a.1 + a.0)) p)

-- Each round shortens the block, so more fuel than its length is never used up.
read_items-ne-stuck :
    (malloc : Allocator) (fuel : ℕ) (old : Numbers) (p : List ℕ) (left : ℕ)
    → IsBlock p
    → length p < fuel
    → read_items malloc fuel old p left ≢ stuck
unfolding read_items
read_items-ne-stuck malloc zero old p left b h = absurd (omega arith)
read_items-ne-stuck malloc (suc fuel) old p left b h = elim (Bool-cases (is_positive left)) [
  | inl more ↦ rw more (
      >>=-ne-stuck (read_item malloc old p) _ (read_item-ne-stuck malloc old p)
        λ (n, rest, numbers) item.
          let t = read_item-Takes malloc old p n rest numbers item b in
          >>=-ne-stuck (read_items malloc fuel numbers rest (to_int (left + 2 ^ 64 - n.data_len))) _
            (read_items-ne-stuck malloc fuel numbers rest _ t.3 (omega (arith, t))) λ a _ e. cc)
  | inr done ↦ rw done (λ e. cc)
]

-- DER_ItAsn1_ReadSequence comes to an end on every block of bytes below 2 GB, whatever the block
-- holds: its loop makes no more rounds than the block has bytes, and one.
pub read_sequence-ne-stuck :
    (malloc : Allocator) (buf : AnyBuf) → IsBlock buf.p_data → read_sequence malloc buf ≢ stuck
unfolding read_sequence
read_sequence-ne-stuck malloc buf (bs, small) =
    >>=-ne-stuck (get_tag_info malloc buf.p_data) _ (get_tag_info-ne-stuck malloc buf.p_data)
      λ (tag, tag_size, p) tagged.
        >>=-ne-stuck
          (on_error (release_tag (with_tag no_numbers))
            (guard (tag % 256 == Tag.sequence_id) invalid_tag))
          _
          (on_error-ne-stuck _ _ (release_tag-ne-stuck (with_tag no_numbers)) (guard-ne-stuck _ _))
          λ _ _.
            >>=-ne-stuck (on_error (release_tag (with_tag no_numbers)) (get_length_info malloc p)) _
              (on_error-ne-stuck _ _ (release_tag-ne-stuck (with_tag no_numbers))
                (get_length_info-ne-stuck malloc p))
              λ (len, len_size, q) sized'.
                let sized =
                  on_error-eq-ok (release_tag (with_tag no_numbers)) (get_length_info malloc p)
                    sized' in
                >>=-ne-stuck
                  (on_error (release_length (with_length (with_tag no_numbers)) >>= release_tag)
                    (guard (buf.data_len == u64 (tag_size + len_size + len)) length_not_equal))
                  _
                  (on_error-ne-stuck _ _ (release_all-ne-stuck (with_length (with_tag no_numbers)))
                    (guard-ne-stuck _ _))
                  λ _ _.
                    let t = get_tag_info_takes malloc buf.p_data tag tag_size p tagged in
                    let l = get_length_info_below malloc p len len_size q sized (t.2 bs) in
                    >>=-ne-stuck (read_items malloc (suc (length q)) all_freed q (to_int len)) _
                      (read_items-ne-stuck malloc (suc (length q)) all_freed q (to_int len)
                        (l.5 (t.2 bs), omega (arith, t, l)) (omega arith))
                      λ a _.
                        >>=-ne-stuck (guard (a.1 == 0) length_err) _ (guard-ne-stuck _ _)
                          λ _ _ e. cc
