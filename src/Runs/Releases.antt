-- ===== src/Runs/Releases.antt =====
-- Runs of the release of chains.
use safe_transmission.Common.{
  ℕ, suc, ◌≡◌, refl, arith, [], ◌∷◌, none, some, ok, fault, ◌==◌, if◌then◌else◌,
}
use safe_transmission.BaseAsn1.Release.{any_buf, bytes, Heap, free_anybuf, free_queue}
use safe_transmission.BaseAsn1.Release.Blocks.{last, link, member, free_anybuf_frees}

-- A node with bytes at 5, then one without, and a block of others.
abbrev heap : Heap
heap = record {
  block = λ q.
      if q == 3
      then some (any_buf (some 5) (some 4))
      else if q == 4
      then some (any_buf none none)
      else if q == 5
      then some bytes
      else if q == 6
      then some bytes
      else none;
  next = 7;
}

free_anybuf_frees_example :
    (h' : Heap) × (free_anybuf 2 (some 3) heap ≡ ok h')
    × (free_queue 2 (some 3) heap ≡ ok (0, h'))
    × ((q : ℕ) → h'.block q ≡ (if member q (5 ∷ 3 ∷ 4 ∷ []) then none else heap.block q))
    × ((fuel : ℕ) → free_anybuf (suc fuel) (some 3) h' ≡ fault)
free_anybuf_frees_example =
    free_anybuf_frees 3 ((3, some 5) ∷ (4, none) ∷ []) heap
      (link 3 4 (some 5) ((4, none) ∷ []) refl (last 4 none refl))
      ((bytes, refl), ((any_buf (some 5) (some 4), refl), ((any_buf none none, refl), tt)))
      (((omega arith), (omega arith, tt)), ((omega arith, tt), (tt, tt)))
