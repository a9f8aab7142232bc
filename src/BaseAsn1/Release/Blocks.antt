-- ===== src/BaseAsn1/Release/Blocks.antt =====
-- Which blocks a chain's release gives back.
use safe_transmission.Common.{
  ℕ, suc, ◌≡◌, ◌≢◌, refl, ap, ◌∙◌, arith, Bool, true, false, ◌||◌, List, [], ◌∷◌, ◌++◌, Option,
  none, some, length, All, ok, fault, ◌==◌, if◌then◌else◌,
}
use safe_transmission.BaseAsn1.Release.{
  Block, any_buf, Heap, without, free, free_data, load, free_node, free_chain, free_anybuf,
  free_queue,
}

-- The nodes from `p` on, with what their pData point to.
pub data IsChain (f : ℕ → Option Block) : ℕ → List (ℕ × Option ℕ) → Type 0 where
  last : (p : ℕ) (d : Option ℕ) → f p ≡ some (any_buf d none) → IsChain f p ((p, d) ∷ [])
  link :
      (p q : ℕ) (d : Option ℕ) (rest : List (ℕ × Option ℕ))
      → f p ≡ some (any_buf d (some q))
      → IsChain f q rest
      → IsChain f p ((p, d) ∷ rest)

abbrev pub data_of : Option ℕ → List ℕ
data_of none = []
data_of (some q) = q ∷ []

-- The blocks of a chain, in the order in which they are freed.
abbrev pub blocks : List (ℕ × Option ℕ) → List ℕ
blocks [] = []
blocks ((p, d) ∷ rest) = data_of d ++ (p ∷ blocks rest)

abbrev pub Distinct : List ℕ → Type 0
Distinct [] = Unit {0}
Distinct (p ∷ ps) = All (λ q. p ≢ q) ps × Distinct ps

abbrev pub IsBlock : (ℕ → Option Block) → ℕ → Type 0
IsBlock f p = (b : Block) × (f p ≡ some b)

unfoldable pub member : ℕ → List ℕ → Bool
member q [] = false
member q (p ∷ ps) = (p == q) || member q ps

-- The heap without some blocks.
abbrev pub minus : (ℕ → Option Block) → List ℕ → ℕ → Option Block
minus f ps q = if member q ps then none else f q

free_there :
    (p : ℕ) (h : Heap) → IsBlock h.block p → free p h ≡ ok (record h { block = without h.block p })
unfolding free
free_there p h (b, e) = rw (e, free) refl

free_node_there :
    (p : ℕ) (d : Option ℕ) (h : Heap)
    → All (IsBlock h.block) (data_of d ++ (p ∷ []))
    → Distinct (data_of d ++ (p ∷ []))
    → (h' : Heap) × (free_node p d h ≡ ok h')
      × ((q : ℕ) → h'.block q ≡ minus h.block (data_of d ++ (p ∷ [])) q)
unfolding free_node free_data member
free_node_there p none h (b, _) apart =
    (record h { block = without h.block p }, free_there p h b, λ q. ground arith)
free_node_there p (some x) h (a, (b, _)) ((other, _), _) =
    let h' : Heap = record h { block = without h.block x } in
    let still : h'.block p ≡ h.block p = ground (arith, other) in
    (
      record h' { block = without h'.block p },
      rw (free_there x h a) (free_there p h' (b.0, still ∙ b.1)),
      λ q. ground arith,
    )

module _ (d : Option ℕ) (p : ℕ) (r : List ℕ) where
  All-split {ℓ} :
      (P : ℕ → Type ℓ)
      → All P (data_of d ++ (p ∷ r))
      → All P (data_of d ++ (p ∷ [])) × P p × All P r
  All-split P =
      elim d
        as (λ d. All P (data_of d ++ (p ∷ r)) → All P (data_of d ++ (p ∷ [])) × P p × All P r) [
          | none ↦ λ a. ((a.0, tt), a.0, a.1)
          | some x ↦ λ a. ((a.0, (a.1.0, tt)), a.1.0, a.1.1)
        ]

not_member : (p : ℕ) (r : List ℕ) → All (λ q. p ≢ q) r → All (λ q. member q (p ∷ []) ≡ false) r
unfolding member
not_member p [] a = tt
not_member p (q ∷ r) a = (ground (arith, a.0), not_member p r a.1)

not_member_two :
    (x p : ℕ) (r : List ℕ)
    → All (λ q. x ≢ q) r
    → All (λ q. p ≢ q) r
    → All (λ q. member q (x ∷ p ∷ []) ≡ false) r
unfolding member
not_member_two x p [] a b = tt
not_member_two x p (q ∷ r) a b = (ground (arith, a.0, b.0), not_member_two x p r a.1 b.1)

Distinct-split :
    (d : Option ℕ) (p : ℕ) (r : List ℕ)
    → Distinct (data_of d ++ (p ∷ r))
    → Distinct (data_of d ++ (p ∷ []))
      × Distinct r
      × All (λ q. member q (data_of d ++ (p ∷ [])) ≡ false) r
Distinct-split none p r (a, b) = ((tt, tt), b, not_member p r a)
Distinct-split (some x) p r ((e, a), (b, c)) = (((e, tt), (tt, tt)), c, not_member_two x p r a b)

-- Blocks that are not touched.
kept :
    (f g : ℕ → Option Block) (front r : List ℕ)
    → ((q : ℕ) → g q ≡ minus f front q)
    → All (λ q. member q front ≡ false) r
    → All (λ q. g q ≡ f q) r
kept f g front [] e a = tt
kept f g front (q ∷ r) e a = (ground (arith, e q, a.0), kept f g front r e a.1)

IsBlock-same :
    (f g : ℕ → Option Block) (r : List ℕ)
    → All (λ q. g q ≡ f q) r
    → All (IsBlock f) r
    → All (IsBlock g) r
IsBlock-same f g [] e a = tt
IsBlock-same f g (q ∷ r) (e, es) ((b, h), a) = ((b, e ∙ h), IsBlock-same f g r es a)

IsChain-same :
    (f g : ℕ → Option Block) (p : ℕ) (xs : List (ℕ × Option ℕ))
    → All (λ q. g q ≡ f q) (blocks xs)
    → IsChain f p xs
    → IsChain g p xs
IsChain-same f g p _ e (last _ d h) = last p d ((All-split d p [] _ e).1 ∙ h)
IsChain-same f g p _ e (link _ q d rest h c) =
    let (_, at, es) = All-split d p (blocks rest) _ e in
    link p q d rest (at ∙ h) (IsChain-same f g q rest es c)

minus-append :
    (f : ℕ → Option Block) (d : Option ℕ) (p : ℕ) (r : List ℕ) (q : ℕ)
    → minus (minus f (data_of d ++ (p ∷ []))) r q ≡ minus f (data_of d ++ (p ∷ r)) q
unfolding member
minus-append f none p r q = ground arith
minus-append f (some x) p r q = ground arith

load_there :
    (p : ℕ) (h : Heap) (d n : Option ℕ) → h.block p ≡ some (any_buf d n) → load p h ≡ ok (d, n)
unfolding load
load_there p h d n e = rw (e, load) refl

free_chain_there :
    (p : ℕ) (xs : List (ℕ × Option ℕ)) (h : Heap)
    → IsChain h.block p xs
    → All (IsBlock h.block) (blocks xs)
    → Distinct (blocks xs)
    → (h' : Heap) × (free_chain (length xs) p h ≡ ok h')
      × ((q : ℕ) → h'.block q ≡ minus h.block (blocks xs) q)
unfolding free_chain
free_chain_there p _ h (last _ d e) there apart =
    let (h', freed, rest) = free_node_there p d h there apart in
    (h', rw (load_there p h d none e, freed) refl, rest)
free_chain_there p ((_, d) ∷ rest) h (link _ q _ _ e c) there apart =
    let (now, at, later) = All-split d p (blocks rest) _ there in
    let (one, others, elsewhere) = Distinct-split d p (blocks rest) apart in
    let (h₁, freed, gone) = free_node_there p d h now one in
    let same = kept h.block h₁.block (data_of d ++ (p ∷ [])) (blocks rest) gone elsewhere in
    let (h', freed', gone') =
      free_chain_there q rest h₁ (IsChain-same h.block h₁.block q rest same c)
        (IsBlock-same h.block h₁.block (blocks rest) same later) others in
    (
      h',
      rw (load_there p h d (some q) e, freed) freed',
      λ x.
          gone' x
          ∙ ap (λ b. if member x (blocks rest) then none else b) (gone x)
          ∙ minus-append h.block d p (blocks rest) x,
    )

chain_start :
    {f : ℕ → Option Block} {p : ℕ} {xs : List (ℕ × Option ℕ)}
    → IsChain f p xs
    → member p (blocks xs) ≡ true
unfolding member
chain_start (last p none e) = ground arith
chain_start (last p (some x) e) = ground arith
chain_start (link p q none rest e c) = ground arith
chain_start (link p q (some x) rest e c) = ground arith

gone_twice : (fuel p : ℕ) (h : Heap) → h.block p ≡ none → free_anybuf (suc fuel) (some p) h ≡ fault
unfolding free_anybuf free_chain load
gone_twice fuel p h e = rw (e, load) refl

-- If the nodes of a chain, and the blocks of bytes that they point to, are blocks of the heap, no two of
-- them the same, then DER_DI_FreeAnybuf and DER_ITCAST_FreeQueue end after a round for each node, have
-- given back these blocks, each once, and no other, and the latter answers NoErr; a second call with
-- the same pointer reads a block that is gone.
pub free_anybuf_frees :
    (p : ℕ) (xs : List (ℕ × Option ℕ)) (h : Heap)
    → IsChain h.block p xs
    → All (IsBlock h.block) (blocks xs)
    → Distinct (blocks xs)
    → (h' : Heap) × (free_anybuf (length xs) (some p) h ≡ ok h')
      × (free_queue (length xs) (some p) h ≡ ok (0, h'))
      × ((q : ℕ) → h'.block q ≡ (if member q (blocks xs) then none else h.block q))
      × ((fuel : ℕ) → free_anybuf (suc fuel) (some p) h' ≡ fault)
unfolding free_anybuf free_queue
free_anybuf_frees p xs h c there apart =
    let (h', freed, gone) = free_chain_there p xs h c there apart in
    (
      h',
      freed,
      rw freed refl,
      gone,
      λ fuel.
          gone_twice fuel p h' (gone p ∙ ap (λ b. if b then none else h.block p) (chain_start c)),
    )
