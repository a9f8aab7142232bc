-- ===== src/SequenceAsn1.antt =====
-- Safe_transmission/ServerSeckey/ServerSeckey/SequenceASN1.cpp: the class SequenceASN1, a chain of
-- nodes that is written and read through a cursor.
pub mod Writing
pub mod Reading
use safe_transmission.Common.{
  ℕ, zero, suc, List, [], ◌∷◌, ◌++◌, ltb, Option, some, none, take, drop, length, to_int,
  int_to_ulong, minus_one, Result, ok, err, fault, stuck, ◌>>=◌, ◌>>◌, need, recode, attempt,
}
use safe_transmission.BaseAsn1.Memory.{Allocator, AnyBuf, read_bytes}
use safe_transmission.BaseAsn1.Integer.{write_integer, read_integer}
use safe_transmission.BaseAsn1.Strings.{read_printable_string}
use safe_transmission.BaseAsn1.Sequence.{write_sequence, read_sequence}
use safe_transmission.BaseAsn1.Buffers.{string_to_any_buf, encode_char}

-- A pointer that owns a block: null, to a live block, or to a block that was freed.
pub data Ref {ℓ} (A : Type ℓ) : Type ℓ where
  null : Ref A
  live : A → Ref A
  freed : Ref A

-- m_next: null, a position in the chain of m_header, or a node of a chain that m_header has left,
-- with what follows that node.
pub data Cursor : Type 0 where
  nowhere : Cursor
  at : ℕ → Cursor
  outside : List AnyBuf → Cursor

pub record SequenceAsn1 : Type 0 where
  pub header : Ref (List AnyBuf)
  pub next : Cursor
  pub temp : Ref AnyBuf

-- The constructor.
abbrev pub empty : SequenceAsn1
empty = record { header = null; next = nowhere; temp = null }

-- An access through the pointer.
abbrev pub deref {ℓ} : {A : Type ℓ} → Ref A → Result A
deref null = fault
deref (live a) = ok a
deref freed = fault

-- The pointer as a chain that may be empty.
abbrev pub chain : Ref (List AnyBuf) → Result (List AnyBuf)
chain null = ok []
chain (live ns) = ok ns
chain freed = fault

-- The pointer to a chain.
abbrev pub to_ref : List AnyBuf → Ref (List AnyBuf)
to_ref [] = null
to_ref (n ∷ ns) = live (n ∷ ns)

-- The node at the cursor with what follows it.
abbrev pub from_cursor : Ref (List AnyBuf) → Cursor → Result (List AnyBuf)
from_cursor header nowhere = fault
from_cursor header (at i) = do ns ← deref header; ok (drop i ns)
from_cursor header (outside ns) = ok ns

-- The cursor one node on, where `rest` follows.
abbrev pub step : Cursor → List AnyBuf → Cursor
step c [] = nowhere
step nowhere (n ∷ ns) = nowhere
step (at i) (n ∷ ns) = at (suc i)
step (outside ms) (n ∷ ns) = outside (n ∷ ns)

-- `m_next`, as a node and the cursor behind it.
abbrev pub split : Cursor → List AnyBuf → Result (AnyBuf × Cursor)
split c [] = fault
split c (n ∷ rest) = ok (n, step c rest)

current : SequenceAsn1 → Result (AnyBuf × Cursor)
current s = do ns ← from_cursor s.header s.next; split s.next ns

-- `m_next->next = node; m_next = m_next->next;`
abbrev pub link_at : SequenceAsn1 → AnyBuf → Cursor → Result SequenceAsn1
link_at s node nowhere = fault
link_at s node (at i) = do
  ns ← deref s.header
  need (ltb i (length ns))
  ok (record s { header = live (take (suc i) ns ++ (node ∷ [])); next = at (suc i) })
link_at s node (outside []) = fault
link_at s node (outside (n ∷ ns)) = ok (record s { next = outside (node ∷ []) })

unfoldable pub link : SequenceAsn1 → AnyBuf → Result SequenceAsn1
link s node = link_at s node s.next

-- Where the cursor stands once m_header has been given another chain.
abbrev pub detach : Ref (List AnyBuf) → Cursor → Cursor
detach (live ns) (at i) = outside (drop i ns)
detach _ (at i) = outside []
detach _ c = c

module _ (malloc : Allocator) where
  unfoldable pub write_head_node_int : SequenceAsn1 → ℕ → Result SequenceAsn1
  write_head_node_int s value = do
    node ← recode minus_one (write_integer malloc (int_to_ulong value))
    ok (record s { header = live (node ∷ []); next = at 0 })

  unfoldable pub write_head_node_str : SequenceAsn1 → Option (List ℕ) → ℕ → Result SequenceAsn1
  write_head_node_str s value len = do
    node ← recode minus_one (encode_char malloc value len)
    ok (record s { header = live (node ∷ []); next = at 0 })

  unfoldable pub write_next_node_int : SequenceAsn1 → ℕ → Result SequenceAsn1
  unfolding link
  write_next_node_int s value = do
    node ← recode minus_one (write_integer malloc (int_to_ulong value))
    link s node

  unfoldable pub write_next_node_str : SequenceAsn1 → Option (List ℕ) → ℕ → Result SequenceAsn1
  unfolding link
  write_next_node_str s value len = do
    node ← recode minus_one (encode_char malloc value len)
    link s node

  -- `m_next = m_header->next`
  abbrev behind_head : List AnyBuf → Result (AnyBuf × Cursor)
  behind_head ns = split (at 0) ns

  unfoldable pub read_head_node_int : SequenceAsn1 → Result (ℕ × SequenceAsn1)
  read_head_node_int s = do
    ns ← deref s.header
    (node, next) ← behind_head ns
    number ← recode minus_one (read_integer malloc node)
    ok (to_int number, record s { next = next })

  -- The bytes that are copied to the caller's array. The code of the decoder is not looked at: after an
  -- error m_temp is what it was. The line that prints the array is left out.
  unfoldable pub read_head_node_str : SequenceAsn1 → Result (List ℕ × SequenceAsn1)
  read_head_node_str s = do
    ns ← deref s.header
    (node, next) ← behind_head ns
    temp ← attempt s.temp (do t ← read_printable_string malloc node; ok (live t))
    t ← deref temp
    bytes ← read_bytes t.data_len t.p_data
    ok (bytes, record s { next = next; temp = freed })

  -- The code of the decoder is not looked at: after an error the number is 0.
  unfoldable pub read_next_node_int : SequenceAsn1 → Result (ℕ × SequenceAsn1)
  unfolding current
  read_next_node_int s = do
    (node, next) ← current s
    number ← attempt 0 (read_integer malloc node)
    ok (to_int number, record s { next = next })

  unfoldable pub read_next_node_str : SequenceAsn1 → Result (List ℕ × SequenceAsn1)
  unfolding current
  read_next_node_str s = do
    (node, next) ← current s
    t ← recode minus_one (read_printable_string malloc node)
    bytes ← read_bytes t.data_len t.p_data
    ok (bytes, record s { next = next; temp = freed })

  -- The block and its length; m_temp keeps the node.
  unfoldable pub pack_sequence : SequenceAsn1 → Result ((List ℕ × ℕ) × SequenceAsn1)
  pack_sequence s = do
    ns ← chain s.header
    t ← write_sequence malloc ns
    ok ((t.p_data, to_int t.data_len), record s { temp = live t })

  -- No code is looked at: a failed copy leaves m_temp, a failed read leaves m_header.
  unfoldable pub unpack_sequence : SequenceAsn1 → Option (List ℕ) → ℕ → Result SequenceAsn1
  unpack_sequence s bytes len = do
    temp ← attempt s.temp (do t ← string_to_any_buf malloc bytes len; ok (live t))
    t ← deref temp
    (header, next) ←
        attempt (s.header, s.next)
          (do ns ← read_sequence malloc t; ok (to_ref ns, detach s.header s.next))
    ok (record { header = header; next = next; temp = freed })

-- freeSequence with its default argument: the chain of m_header is freed, and m_header keeps pointing
-- to it.
unfoldable pub free_sequence : SequenceAsn1 → Result SequenceAsn1
free_sequence s = elim s.header [
  | null ↦ ok s
  | live ns ↦ ok (record s { header = freed })
  | freed ↦ fault
]
