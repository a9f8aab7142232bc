-- ===== src/BaseAsn1/Release.antt =====
-- DER_DI_FreeAnybuf, DER_ITCAST_FreeQueue and DER_CREATE_LOW_ITCAST_ANYBUF, on a heap of blocks. The
-- rest of BaseASN1 is modelled on the bytes and nodes that its pointers lead to, not on the heap.
pub mod Blocks
use safe_transmission.Common.{
  ℕ, zero, suc, ◌+◌, Bool, true, false, Option, none, some, Result, ok, err, fault, stuck, ◌>>=◌,
  ◌>>◌, ◌==◌, if◌then◌else◌,
}

-- What a block holds, as far as these functions read it: the two pointers of an ITCAST_ANYBUF, or
-- bytes. `none` is a null pointer.
pub data Block : Type 0 where
  any_buf : Option ℕ → Option ℕ → Block
  bytes : Block

-- The blocks by their addresses; those from `next` on are still to come.
pub record Heap : Type 0 where
  pub block : ℕ → Option Block
  pub next : ℕ

abbrev pub without : (ℕ → Option Block) → ℕ → ℕ → Option Block
without f p q = if p == q then none else f q

-- `free(p)` of a pointer that is not null: a block can be freed once.
unfoldable pub free : ℕ → Heap → Result Heap
free p h = elim (h.block p) [ none ↦ fault | some _ ↦ ok (record h { block = without h.block p }) ]

-- DER_ITCAST_Free under the test that the pointer is not null.
unfoldable pub free_data : Option ℕ → Heap → Result Heap
free_data none h = ok h
free_data (some p) h = free p h

-- `*p` as a node.
unfoldable pub load : ℕ → Heap → Result (Option ℕ × Option ℕ)
load p h = elim (h.block p) [
  | none ↦ fault
  | some bytes ↦ fault
  | some (any_buf p_data next) ↦ ok (p_data, next)
]

-- What a round does with the node at `p`.
unfoldable pub free_node : ℕ → Option ℕ → Heap → Result Heap
free_node p p_data h = do h' ← free_data p_data h; free p h'

-- The loop and what follows it: the chain may be a ring, so the rounds are counted.
unfoldable pub free_chain : ℕ → ℕ → Heap → Result Heap
free_chain zero p h = stuck
free_chain (suc fuel) p h = do
  (p_data, next) ← load p h
  h' ← free_node p p_data h
  elim next [ none ↦ ok h' | some q ↦ free_chain fuel q h' ]

unfoldable pub free_anybuf : ℕ → Option ℕ → Heap → Result Heap
free_anybuf fuel none h = ok h
free_anybuf fuel (some p) h = free_chain fuel p h

-- DER_ITCAST_FreeQueue has the same code, and answers NoErr.
unfoldable pub free_queue : ℕ → Option ℕ → Heap → Result (ℕ × Heap)
free_queue fuel p h = do h' ← free_anybuf fuel p h; ok (0, h')

-- The new node, or 7002 where `granted` says that there is no memory for it.
unfoldable pub create_low_anybuf : Bool → Heap → Result (ℕ × Heap)
create_low_anybuf granted h =
    let made : ℕ × Heap = (
      h.next,
      record {
        block = λ q. if h.next == q then some (any_buf none none) else h.block q;
        next = h.next + 1;
      },
    ) in
    if granted then ok made else err 7002
