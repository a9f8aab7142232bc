-- ===== src/SecKeyShm/Lookup.antt =====
-- What a table of nodes holds under a pair of identifiers, and the loops of SecKeyShm as searches.
use safe_transmission.Common.{
  ℕ, zero, suc, ◌≡◌, ◌≢◌, refl, sym, ap, ◌∙◌, arith, Bool, true, false, ◌&&◌, List, [], ◌∷◌, Option,
  none, some, ◌==◌, if◌then◌else◌, minus_one, Result, ok, err, length, All, Bool-cases, inl, inr,
}
use safe_transmission.Codec.CString.Fields.{text_of, IsTerminated}
use safe_transmission.SecKeyShm.{
  NodeShmInfo, strcmp_equal, same_ids, write_same, write_empty, is_empty_node, all_zero, read_same,
}
use mathlib.Core.Option.{map}

-- The identifiers of a node are strings.
pub record IsNode (n : NodeShmInfo) : Type 0 where
  pub client_end : IsTerminated n.client_id
  pub server_end : IsTerminated n.server_id

unfoldable pub texts_equal : List ℕ → List ℕ → Bool
texts_equal [] [] = true
texts_equal [] (b ∷ q) = false
texts_equal (a ∷ p) [] = false
texts_equal (a ∷ p) (b ∷ q) = (a == b) && texts_equal p q

-- A node carries the two texts.
unfoldable pub has_ids : List ℕ → List ℕ → NodeShmInfo → Bool
has_ids c s n = texts_equal (text_of n.client_id) c && texts_equal (text_of n.server_id) s

-- The first node that passes a test, and the table with that node exchanged.
unfoldable pub first_of : (NodeShmInfo → Bool) → List NodeShmInfo → Option NodeShmInfo
first_of p [] = none
first_of p (n ∷ t) = if p n then some n else first_of p t

unfoldable pub exchange :
    (NodeShmInfo → Bool) → NodeShmInfo → List NodeShmInfo → Option (List NodeShmInfo)
exchange p info [] = none
exchange p info (n ∷ t) = if p n then some (info ∷ t) else map (◌∷◌ n) (exchange p info t)

pub strcmp_equal-texts_equal :
    (a b : List ℕ)
    → IsTerminated a
    → IsTerminated b
    → strcmp_equal a b ≡ ok (texts_equal (text_of a) (text_of b))
unfolding strcmp_equal texts_equal text_of
strcmp_equal-texts_equal [] b ha hb = absurd ha
strcmp_equal-texts_equal (a ∷ p) [] ha hb = absurd hb
strcmp_equal-texts_equal (zero ∷ p) (zero ∷ q) ha hb = refl
strcmp_equal-texts_equal (zero ∷ p) (suc b ∷ q) ha hb = ground arith
strcmp_equal-texts_equal (suc a ∷ p) (zero ∷ q) ha hb = ground arith
strcmp_equal-texts_equal (suc a ∷ p) (suc b ∷ q) ha hb =
    ground (arith, strcmp_equal-texts_equal p q ha hb)

pub same_ids-has_ids :
    (n : NodeShmInfo) (c s : List ℕ)
    → IsNode n
    → IsTerminated c
    → IsTerminated s
    → same_ids n c s ≡ ok (has_ids (text_of c) (text_of s) n)
unfolding same_ids has_ids
same_ids-has_ids n c s h hc hs = ground (
  arith,
  strcmp_equal-texts_equal n.client_id c h.client_end hc,
  strcmp_equal-texts_equal n.server_id s h.server_end hs,
)

pub texts_equal→≡ : (p q : List ℕ) → texts_equal p q ≡ true → p ≡ q
unfolding texts_equal
texts_equal→≡ [] [] h = refl
texts_equal→≡ [] (b ∷ q) h = cc
texts_equal→≡ (a ∷ p) [] h = cc
texts_equal→≡ (a ∷ p) (b ∷ q) h = ground (arith, texts_equal→≡ p q)

pub texts_equal_self : (p : List ℕ) → texts_equal p p ≡ true
unfolding texts_equal
texts_equal_self [] = refl
texts_equal_self (a ∷ p) = ground (arith, texts_equal_self p)

pub texts_equal→≢ : (p q : List ℕ) → texts_equal p q ≡ false → p ≢ q
texts_equal→≢ p q h e =
    absurd (let clash = sym h ∙ ap (texts_equal p) (sym e) ∙ texts_equal_self p in cc)

pub ≢→texts_equal : (p q : List ℕ) → p ≢ q → texts_equal p q ≡ false
≢→texts_equal p q h = elim (Bool-cases (texts_equal p q)) [
  | inl e ↦ absurd (h (texts_equal→≡ p q e))
  | inr e ↦ e
]

pub has_ids_self : (n : NodeShmInfo) → has_ids (text_of n.client_id) (text_of n.server_id) n ≡ true
unfolding has_ids
has_ids_self n =
    ground (arith, texts_equal_self (text_of n.client_id), texts_equal_self (text_of n.server_id))

pub has_ids→≡ :
    (c s : List ℕ) (n : NodeShmInfo)
    → has_ids c s n ≡ true
    → (text_of n.client_id ≡ c) × (text_of n.server_id ≡ s)
unfolding has_ids
has_ids→≡ c s n h =
    ground (arith, texts_equal→≡ (text_of n.client_id) c, texts_equal→≡ (text_of n.server_id) s)

text_of-all_zero : (p : List ℕ) → all_zero p ≡ true → text_of p ≡ []
unfolding text_of all_zero
text_of-all_zero [] h = refl
text_of-all_zero (zero ∷ p) h = refl
text_of-all_zero (suc b ∷ p) h = ground arith

-- An empty node has the identifiers of no characters.
pub text_of-is_empty_node :
    (n : NodeShmInfo)
    → is_empty_node n ≡ true
    → (text_of n.client_id ≡ []) × (text_of n.server_id ≡ [])
unfolding is_empty_node
text_of-is_empty_node n h =
    ground (arith, text_of-all_zero n.client_id, text_of-all_zero n.server_id)

pub write_same-exchange :
    (t : List NodeShmInfo) (info : NodeShmInfo)
    → All IsNode t
    → IsNode info
    → write_same (length t) t info
      ≡ ok (exchange (has_ids (text_of info.client_id) (text_of info.server_id)) info t)
unfolding write_same exchange
write_same-exchange [] info a i = refl
write_same-exchange (n ∷ t) info a i = ground (
  arith,
  same_ids-has_ids n info.client_id info.server_id a.0 i.client_end i.server_end,
  write_same-exchange t info a.1 i,
)

pub write_empty-exchange :
    (t : List NodeShmInfo) (info : NodeShmInfo)
    → write_empty (length t) t info ≡ ok (exchange is_empty_node info t)
unfolding write_empty exchange
write_empty-exchange [] info = refl
write_empty-exchange (n ∷ t) info = ground (arith, write_empty-exchange t info)

-- A search's outcome as the code answers it.
unfoldable pub found : Option NodeShmInfo → Result NodeShmInfo
found none = err minus_one
found (some n) = ok n

pub read_same-first_of :
    (t : List NodeShmInfo) (c s : List ℕ)
    → All IsNode t
    → IsTerminated c
    → IsTerminated s
    → read_same (length t) t c s ≡ found (first_of (has_ids (text_of c) (text_of s)) t)
unfolding read_same first_of found
read_same-first_of [] c s a hc hs = refl
read_same-first_of (n ∷ t) c s a hc hs =
    ground (arith, same_ids-has_ids n c s a.0 hc hs, read_same-first_of t c s a.1 hc hs)
