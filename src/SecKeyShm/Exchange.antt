-- ===== src/SecKeyShm/Exchange.antt =====
-- Searches in a table in which a node was exchanged.
use safe_transmission.Common.{
  suc, ◌≡◌, ◌⊎◌, refl, sym, ap, arith, Bool, true, false, List, [], ◌∷◌, Option, none, some, length,
  All, inl, inr, Bool-cases,
}
use safe_transmission.SecKeyShm.{NodeShmInfo}
use safe_transmission.SecKeyShm.Lookup.{first_of, exchange}
use mathlib.Core.Option.{map}
use mathlib.Core.Path.{subst}

map-cons-eq-some :
    (n : NodeShmInfo) (m : Option (List NodeShmInfo)) (t' : List NodeShmInfo)
    → map (◌∷◌ n) m ≡ some t'
    → (u : List NodeShmInfo) × (m ≡ some u) × (t' ≡ n ∷ u)
map-cons-eq-some n none t' h = cc
map-cons-eq-some n (some u) t' h = (u, refl, cc)

-- A table with a node exchanged has the exchange at its head or in its tail.
exchange-cases :
    (p : NodeShmInfo → Bool) (info n : NodeShmInfo) (t t' : List NodeShmInfo)
    → exchange p info (n ∷ t) ≡ some t'
    → ((p n ≡ true) × (t' ≡ info ∷ t))
      ⊎ ((p n ≡ false) × (u : List NodeShmInfo) × (exchange p info t ≡ some u) × (t' ≡ n ∷ u))
unfolding exchange
exchange-cases p info n t t' h = elim (Bool-cases (p n)) [
  | inl e ↦ inl (e, ground arith)
  | inr e ↦
      let u = map-cons-eq-some n (exchange p info t) t' (ground arith) in inr (e, u.0, u.1, u.2)
]

module _ (info : NodeShmInfo) where
  pub first_of-exchange_self :
      (p : NodeShmInfo → Bool) (t t' : List NodeShmInfo)
      → p info ≡ true
      → exchange p info t ≡ some t'
      → first_of p t' ≡ some info
  unfolding first_of exchange
  first_of-exchange_self p [] t' self h = cc
  first_of-exchange_self p (n ∷ t) t' self h = elim (exchange-cases p info n t t' h) [
    | inl a ↦ rw (a.1, self) refl
    | inr b ↦ rw (b.3, b.0) (first_of-exchange_self p t b.1 self b.2)
  ]

  -- A node that was not there before.
  pub first_of-exchange_new :
      (p q : NodeShmInfo → Bool) (t t' : List NodeShmInfo)
      → q info ≡ true
      → first_of q t ≡ none
      → exchange p info t ≡ some t'
      → first_of q t' ≡ some info
  unfolding first_of exchange
  first_of-exchange_new p q [] t' self before h = cc
  first_of-exchange_new p q (n ∷ t) t' self before h = elim (exchange-cases p info n t t' h) [
    | inl a ↦ rw (a.1, self) refl
    | inr b ↦ ground (arith, first_of-exchange_new p q t b.1 self)
  ]

  -- Another search does not see the exchange.
  pub first_of-exchange_other :
      (p q : NodeShmInfo → Bool) (t t' : List NodeShmInfo)
      → q info ≡ false
      → ((n : NodeShmInfo) → p n ≡ true → q n ≡ false)
      → exchange p info t ≡ some t'
      → first_of q t' ≡ first_of q t
  unfolding first_of exchange
  first_of-exchange_other p q [] t' other apart h = cc
  first_of-exchange_other p q (n ∷ t) t' other apart h = elim (exchange-cases p info n t t' h) [
    | inl a ↦ rw (a.1, other, apart n a.0) refl
    | inr b ↦ ground (arith, first_of-exchange_other p q t b.1 other apart b.2)
  ]

  pub exchange-eq-none :
      (p : NodeShmInfo → Bool) (t : List NodeShmInfo)
      → exchange p info t ≡ none
      → All (λ n. p n ≡ false) t
  unfolding exchange
  exchange-eq-none p [] h = tt
  exchange-eq-none p (n ∷ t) h = ground (arith, exchange-eq-none p t)

  pub exchange-none :
      (p : NodeShmInfo → Bool) (t : List NodeShmInfo)
      → All (λ n. p n ≡ false) t
      → exchange p info t ≡ none
  unfolding exchange
  exchange-none p [] a = refl
  exchange-none p (n ∷ t) a = rw (a.0, exchange-none p t a.1) refl

  pub first_of-eq-none :
      (p : NodeShmInfo → Bool) (t : List NodeShmInfo)
      → exchange p info t ≡ none
      → first_of p t ≡ none
  unfolding first_of exchange
  first_of-eq-none p [] h = refl
  first_of-eq-none p (n ∷ t) h = ground (arith, first_of-eq-none p t)

  pub length-exchange :
      (p : NodeShmInfo → Bool) (t t' : List NodeShmInfo)
      → exchange p info t ≡ some t'
      → length t' ≡ length t
  unfolding exchange
  length-exchange p [] t' h = cc
  length-exchange p (n ∷ t) t' h = elim (exchange-cases p info n t t' h) [
    | inl a ↦ rw (a.1) refl
    | inr b ↦ rw (b.3) (ap suc (length-exchange p t b.1 b.2))
  ]

  pub All-exchange {ℓ} :
      (P : NodeShmInfo → Type ℓ) (p : NodeShmInfo → Bool) (t t' : List NodeShmInfo)
      → P info
      → All P t
      → exchange p info t ≡ some t'
      → All P t'
  unfolding exchange
  All-exchange P p [] t' i a h = cc
  All-exchange P p (n ∷ t) t' i a h = elim (exchange-cases p info n t t' h) [
    | inl b ↦ subst (λ u. All P u) (sym b.1) (i, a.1)
    | inr b ↦ subst (λ u. All P u) (sym b.3) (a.0, All-exchange P p t b.1 i a.1 b.2)
  ]
