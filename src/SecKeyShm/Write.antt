-- ===== src/SecKeyShm/Write.antt =====
-- What shmWrite does to the table, as shmRead sees it.
use safe_transmission.Common.{
  ℕ, ◌≡◌, ◌≢◌, ◌⊎◌, inl, inr, refl, sym, ap, arith, ◌∙◌, Bool, true, false, List, [], ◌∷◌, Option,
  none, some, minus_one, ok, err, length, All, Bool-cases,
}
use safe_transmission.Codec.CString.Fields.{text_of, IsTerminated}
use safe_transmission.SecKeyShm.{NodeShmInfo, is_empty_node, shm_write, shm_read}
use safe_transmission.SecKeyShm.Lookup.{
  IsNode, has_ids, first_of, exchange, found, has_ids_self, has_ids→≡, text_of-is_empty_node,
  write_same-exchange, write_empty-exchange, read_same-first_of,
}
use safe_transmission.SecKeyShm.Exchange.{
  first_of-exchange_self, first_of-exchange_new, first_of-exchange_other, first_of-eq-none,
  exchange-eq-none, exchange-none, length-exchange, All-exchange,
}
use mathlib.Core.Path.{subst₂}

-- A node that has the identifiers of `info`.
abbrev pub twin : NodeShmInfo → NodeShmInfo → Bool
twin info = has_ids (text_of info.client_id) (text_of info.server_id)

pub Option-cases {ℓ} : {A : Type ℓ} (o : Option A) → (o ≡ none) ⊎ ((a : A) × (o ≡ some a))
Option-cases none = inl refl
Option-cases (some a) = inr (a, refl)

-- The three outcomes, by the two loops.
pub shm_write-cases :
    (t : List NodeShmInfo) (info : NodeShmInfo)
    → All IsNode t
    → IsNode info
    → ((t' : List NodeShmInfo) × (exchange (twin info) info t ≡ some t')
        × (shm_write (some t) (length t) info ≡ ok t'))
      ⊎ ((t' : List NodeShmInfo) × (exchange (twin info) info t ≡ none)
          × (exchange is_empty_node info t ≡ some t')
          × (shm_write (some t) (length t) info ≡ ok t'))
      ⊎ ((exchange (twin info) info t ≡ none)
          × (exchange is_empty_node info t ≡ none)
          × (shm_write (some t) (length t) info ≡ err minus_one))
unfolding shm_write
shm_write-cases t info a i =
    let same = write_same-exchange t info a i in
    let empty = write_empty-exchange t info in
    elim (Option-cases (exchange (twin info) info t)) [
      | inr e ↦ inl (e.0, e.1, ground (arith, same, e.1))
      | inl none_same ↦ elim (Option-cases (exchange is_empty_node info t)) [
        | inr e ↦ inr (inl (e.0, none_same, e.1, ground (arith, same, empty, none_same, e.1)))
        | inl none_empty ↦
            inr (inr (none_same, none_empty, ground (arith, same, empty, none_same, none_empty)))
      ]
    ]

pub shm_read-first_of :
    (t : List NodeShmInfo) (c s : List ℕ)
    → All IsNode t
    → IsTerminated c
    → IsTerminated s
    → shm_read (some t) (length t) c s ≡ found (first_of (has_ids (text_of c) (text_of s)) t)
unfolding shm_read
shm_read-first_of t c s a hc hs = read_same-first_of t c s a hc hs

-- A call that succeeds wrote in one of the two loops.
shm_write-eq-ok :
    (t t' : List NodeShmInfo) (info : NodeShmInfo)
    → All IsNode t
    → IsNode info
    → shm_write (some t) (length t) info ≡ ok t'
    → (exchange (twin info) info t ≡ some t')
      ⊎ ((exchange (twin info) info t ≡ none) × (exchange is_empty_node info t ≡ some t'))
shm_write-eq-ok t t' info a i h = elim (shm_write-cases t info a i) [
  | inl (u, e, w) ↦ inl cc
  | inr (inl (u, absent, e, w)) ↦ inr (absent, cc)
  | inr (inr w) ↦ absurd (let f = w.2 in cc)
]

written_found :
    (t t' : List NodeShmInfo) (info : NodeShmInfo)
    → IsNode info
    → length t' ≡ length t
    → All IsNode t'
    → first_of (twin info) t' ≡ some info
    → shm_read (some t') (length t) info.client_id info.server_id ≡ ok info
unfolding found
written_found t t' info i l a f =
    rw (sym l, shm_read-first_of t' info.client_id info.server_id a i.client_end i.server_end, f)
      refl

-- In a mapped segment of m_maxNode nodes, if every node's identifiers are strings, and the new node's
-- are, then a call of SecKeyShm::shmWrite that succeeds keeps the number of nodes and that every node's identifiers are strings, and
-- SecKeyShm::shmRead with the new node's identifiers then copies out the new node.
pub shm_read-shm_write :
    (t t' : List NodeShmInfo) (info : NodeShmInfo)
    → All IsNode t
    → IsNode info
    → shm_write (some t) (length t) info ≡ ok t'
    → (length t' ≡ length t)
      × All IsNode t'
      × (shm_read (some t') (length t) info.client_id info.server_id ≡ ok info)
shm_read-shm_write t t' info a i h = elim (shm_write-eq-ok t t' info a i h) [
  | inl e ↦
      let l = length-exchange info (twin info) t t' e in
      let b = All-exchange info IsNode (twin info) t t' i a e in
      (
        l,
        b,
        written_found t t' info i l b
            (first_of-exchange_self info (twin info) t t' (has_ids_self info) e),
      )
  | inr (absent, e) ↦
      let l = length-exchange info is_empty_node t t' e in
      let b = All-exchange info IsNode is_empty_node t t' i a e in
      (
        l,
        b,
        written_found t t' info i l b (
            first_of-exchange_new info is_empty_node (twin info) t t' (has_ids_self info)
              (first_of-eq-none info (twin info) t absent) e),
      )
]

-- Two pairs of texts that are not the same pair.
abbrev pub Apart : List ℕ → List ℕ → List ℕ → List ℕ → Type 0
Apart c s c' s' = (c ≢ c') ⊎ (s ≢ s')

pub has_ids-Apart :
    (c s : List ℕ) (n : NodeShmInfo)
    → Apart (text_of n.client_id) (text_of n.server_id) c s
    → has_ids c s n ≡ false
has_ids-Apart c s n apart = elim (Bool-cases (has_ids c s n)) [
  | inr differs ↦ differs
  | inl equal ↦
      let same = has_ids→≡ c s n equal in
      elim apart [ inl client ↦ absurd (client same.0) | inr server ↦ absurd (server same.1) ]
]

written_elsewhere :
    (p : NodeShmInfo → Bool) (t t' : List NodeShmInfo) (info : NodeShmInfo) (c s : List ℕ)
    → All IsNode t
    → IsNode info
    → IsTerminated c
    → IsTerminated s
    → Apart (text_of info.client_id) (text_of info.server_id) (text_of c) (text_of s)
    → ((n : NodeShmInfo)
        → p n ≡ true
        → Apart (text_of n.client_id) (text_of n.server_id) (text_of c) (text_of s))
    → exchange p info t ≡ some t'
    → shm_read (some t') (length t) c s ≡ shm_read (some t) (length t) c s
written_elsewhere p t t' info c s a i hc hs other apart e =
    ap (λ k. shm_read (some t') k c s) (sym (length-exchange info p t t' e))
    ∙ shm_read-first_of t' c s (All-exchange info IsNode p t t' i a e) hc hs
    ∙ ap found (
        first_of-exchange_other info p (has_ids (text_of c) (text_of s)) t t'
          (has_ids-Apart (text_of c) (text_of s) info other)
          (λ n h. has_ids-Apart (text_of c) (text_of s) n (apart n h)) e)
    ∙ sym (shm_read-first_of t c s a hc hs)

-- In a mapped segment of m_maxNode nodes, if every node's identifiers are strings, and the new node's
-- are, then a call of SecKeyShm::shmWrite that succeeds changes nothing for SecKeyShm::shmRead with any other pair of strings, unless both of
-- them are without a character.
pub shm_read-shm_write_other :
    (t t' : List NodeShmInfo) (info : NodeShmInfo) (c s : List ℕ)
    → All IsNode t
    → IsNode info
    → IsTerminated c
    → IsTerminated s
    → Apart (text_of info.client_id) (text_of info.server_id) (text_of c) (text_of s)
    → Apart [] [] (text_of c) (text_of s)
    → shm_write (some t) (length t) info ≡ ok t'
    → shm_read (some t') (length t) c s ≡ shm_read (some t) (length t) c s
shm_read-shm_write_other t t' info c s a i hc hs other used h =
    elim (shm_write-eq-ok t t' info a i h) [
      | inl e ↦
          written_elsewhere (twin info) t t' info c s a i hc hs other
            (λ n h.
              let ids = has_ids→≡ (text_of info.client_id) (text_of info.server_id) n h in
              subst₂ (λ x y. Apart x y (text_of c) (text_of s)) (sym ids.0) (sym ids.1) other)
            e
      | inr e ↦
          written_elsewhere is_empty_node t t' info c s a i hc hs other
            (λ n h.
              let ids = text_of-is_empty_node n h in
              subst₂ (λ x y. Apart x y (text_of c) (text_of s)) (sym ids.0) (sym ids.1) used)
            e.1
    ]

-- A node that shmWrite does not touch for `info`.
abbrev pub IsTaken : NodeShmInfo → NodeShmInfo → Type 0
IsTaken info n = (twin info n ≡ false) × (is_empty_node n ≡ false)

All-both :
    (p q : NodeShmInfo → Bool) (t : List NodeShmInfo)
    → All (λ n. p n ≡ false) t
    → All (λ n. q n ≡ false) t
    → All (λ n. (p n ≡ false) × (q n ≡ false)) t
All-both p q [] a b = tt
All-both p q (n ∷ t) a b = ((a.0, b.0), All-both p q t a.1 b.1)

All-each :
    (p q : NodeShmInfo → Bool) (t : List NodeShmInfo)
    → All (λ n. (p n ≡ false) × (q n ≡ false)) t
    → All (λ n. p n ≡ false) t × All (λ n. q n ≡ false) t
All-each p q [] a = (tt, tt)
All-each p q (n ∷ t) a = let rest = All-each p q t a.1 in ((a.0.0, rest.0), (a.0.1, rest.1))

-- In a mapped segment of m_maxNode nodes, if every node's identifiers are strings, and the new node's
-- are, then SecKeyShm::shmWrite answers -1
-- if no node of the table is empty and none has the identifiers of the new one, and in every other
-- case it succeeds.
pub shm_write_full :
    (t : List NodeShmInfo) (info : NodeShmInfo)
    → All IsNode t
    → IsNode info
    → (All (IsTaken info) t × (shm_write (some t) (length t) info ≡ err minus_one))
      ⊎ ((¬ All (IsTaken info) t)
          × (t' : List NodeShmInfo) × (shm_write (some t) (length t) info ≡ ok t'))
shm_write_full t info a i = elim (shm_write-cases t info a i) [
  | inl w ↦ inr (
    (λ taken. absurd (
        let n = exchange-none info (twin info) t (All-each (twin info) is_empty_node t taken).0 in
        cc)),
    w.0,
    w.2,
  )
  | inr (inl w) ↦ inr (
    (λ taken. absurd (
        let n = exchange-none info is_empty_node t (All-each (twin info) is_empty_node t taken).1 in
        cc)),
    w.0,
    w.3,
  )
  | inr (inr w) ↦ inl (
    All-both (twin info) is_empty_node t (exchange-eq-none info (twin info) t w.0)
        (exchange-eq-none info is_empty_node t w.1),
    w.2,
  )
]
