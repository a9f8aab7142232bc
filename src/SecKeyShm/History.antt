-- ===== src/SecKeyShm/History.antt =====
-- The table of keys as a map from pairs of identifiers to the node that was written last under them.
use safe_transmission.Common.{
  ℕ, ◌≡◌, inl, inr, refl, sym, ap, arith, ◌∙◌, true, false, List, [], ◌∷◌, none, some, minus_one,
  ok, err, length, All, Bool-cases,
}
use safe_transmission.Codec.CString.Fields.{text_of, IsTerminated}
use safe_transmission.SecKeyShm.{NodeShmInfo, is_empty_node, shm_write, shm_read}
use safe_transmission.SecKeyShm.Lookup.{
  IsNode, has_ids, first_of, found, has_ids→≡, text_of-is_empty_node, texts_equal, texts_equal→≢,
}
use safe_transmission.SecKeyShm.Write.{
  Apart, has_ids-Apart, shm_read-first_of, shm_read-shm_write, shm_read-shm_write_other,
}
use mathlib.Core.Path.{subst₂}

-- Calls of shmWrite on a segment that held `t`: what it holds after them, and the nodes that were
-- written, the last one first. A call that answers -1 leaves both.
pub data Written (t : List NodeShmInfo) : List NodeShmInfo → List NodeShmInfo → Type 0 where
  no_call : Written t t []
  stored :
      {u u' history : List NodeShmInfo} (info : NodeShmInfo)
      → Written t u history
      → IsNode info
      → shm_write (some u) (length t) info ≡ ok u'
      → Written t u' (info ∷ history)
  refused :
      {u history : List NodeShmInfo} (info : NodeShmInfo)
      → Written t u history
      → shm_write (some u) (length t) info ≡ err minus_one
      → Written t u history

-- What the calls keep.
Written-keeps :
    {t u history : List NodeShmInfo}
    → All IsNode t
    → Written t u history
    → (length u ≡ length t) × All IsNode u
Written-keeps a no_call = (refl, a)
Written-keeps a (stored {u} {u'} info w i h) =
    let before = Written-keeps a w in
    let after =
      shm_read-shm_write u u' info before.1 i (ap (λ n. shm_write (some u) n info) before.0 ∙ h) in
    (after.0 ∙ before.0, after.1)
Written-keeps a (refused info w h) = Written-keeps a w

module _ (c s : List ℕ) where
  Apart-has_ids :
      (n : NodeShmInfo)
      → has_ids (text_of c) (text_of s) n ≡ false
      → Apart (text_of n.client_id) (text_of n.server_id) (text_of c) (text_of s)
  unfolding has_ids
  Apart-has_ids n h = elim (Bool-cases (texts_equal (text_of n.client_id) (text_of c))) [
    | inr differs ↦ inl (texts_equal→≢ (text_of n.client_id) (text_of c) differs)
    | inl equal ↦ inr (texts_equal→≢ (text_of n.server_id) (text_of s) (ground (arith, h, equal)))
  ]

  first_of_cleared :
      (t : List NodeShmInfo)
      → Apart [] [] (text_of c) (text_of s)
      → All (λ n. is_empty_node n ≡ true) t
      → first_of (has_ids (text_of c) (text_of s)) t ≡ none
  unfolding first_of
  first_of_cleared [] used e = refl
  first_of_cleared (n ∷ t) used e =
      let ids = text_of-is_empty_node n e.0 in
      let differs =
        has_ids-Apart (text_of c) (text_of s) n
          (subst₂ (λ x y. Apart x y (text_of c) (text_of s)) (sym ids.0) (sym ids.1) used) in
      rw differs (first_of_cleared t used e.1)

  -- shmRead with other arrays that hold the same strings.
  shm_read_same_texts :
      (t : List NodeShmInfo) (c' s' : List ℕ)
      → All IsNode t
      → IsTerminated c
      → IsTerminated s
      → IsTerminated c'
      → IsTerminated s'
      → (text_of c' ≡ text_of c) × (text_of s' ≡ text_of s)
      → shm_read (some t) (length t) c s ≡ shm_read (some t) (length t) c' s'
  shm_read_same_texts t c' s' a hc hs hc' hs' same =
      shm_read-first_of t c s a hc hs
      ∙ ap found (
          sym (
            ap (λ x. first_of (has_ids x (text_of s')) t) same.0
            ∙ ap (λ y. first_of (has_ids (text_of c) y) t) same.1))
      ∙ sym (shm_read-first_of t c' s' a hc' hs')

-- In a mapped segment of m_maxNode nodes that was cleared, after any calls of SecKeyShm::shmWrite with
-- nodes whose identifiers are strings, some of which may have answered -1, SecKeyShm::shmRead with two
-- strings, not both without a character, copies out the node that was stored last under them, and
-- answers -1 if none was.
pub shm_read-Written :
    (t u history : List NodeShmInfo) (c s : List ℕ)
    → All IsNode t
    → All (λ n. is_empty_node n ≡ true) t
    → Written t u history
    → IsTerminated c
    → IsTerminated s
    → Apart [] [] (text_of c) (text_of s)
    → shm_read (some u) (length t) c s ≡ found (first_of (has_ids (text_of c) (text_of s)) history)
unfolding first_of found
shm_read-Written t u history c s a e no_call hc hs used =
    shm_read-first_of t c s a hc hs ∙ ap found (first_of_cleared c s t used e)
shm_read-Written t u history c s a e (stored {u = before} {history = older} info w i h) hc hs used =
    let kept = Written-keeps a w in
    let call = ap (λ n. shm_write (some before) n info) kept.0 ∙ h in
    let after = shm_read-shm_write before u info kept.1 i call in
    elim (Bool-cases (has_ids (text_of c) (text_of s) info)) [
      | inl same ↦
          let ids = has_ids→≡ (text_of c) (text_of s) info same in
          rw same (
            ap (λ n. shm_read (some u) n c s) (sym (after.0 ∙ kept.0))
            ∙ shm_read_same_texts c s u info.client_id info.server_id after.1 hc hs i.client_end
                i.server_end ids
            ∙ ap (λ n. shm_read (some u) n info.client_id info.server_id) after.0
            ∙ after.2)
      | inr other ↦ rw other (
          ap (λ n. shm_read (some u) n c s) (sym kept.0)
          ∙ shm_read-shm_write_other before u info c s kept.1 i hc hs (Apart-has_ids c s info other)
              used call
          ∙ ap (λ n. shm_read (some before) n c s) kept.0
          ∙ shm_read-Written t before older c s a e w hc hs used)
    ]
shm_read-Written t u history c s a e (refused info w h) hc hs used =
    shm_read-Written t u history c s a e w hc hs used
