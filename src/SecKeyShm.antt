-- ===== src/SecKeyShm.antt =====
-- Safe_transmission/ServerSeckey/ServerSeckey/SecKeyShm.cpp and SecKeyShm.h, and from ShareMemory.cpp
-- what they call. The segment is the list of its nodes; what `shmat` answers is a parameter, `none`
-- where it fails. The object's `m_maxNode` is a number that is not negative.
pub mod Lookup
pub mod Exchange
pub mod Write
pub mod History
use safe_transmission.Common.{
  ℕ, zero, suc, Bool, true, false, ◌&&◌, List, [], ◌∷◌, Option, none, some, ◌==◌, if◌then◌else◌,
  minus_one, Result, ok, err, fault, ◌>>=◌, ◌>>◌,
}
use mathlib.Core.Option.{map}

-- The arrays have 12, 12 and 128 characters; `status` and `seckey_id` are `int`s as bit patterns.
pub record NodeShmInfo : Type 0 where
  pub status : ℕ
  pub seckey_id : ℕ
  pub client_id : List ℕ
  pub server_id : List ℕ
  pub seckey : List ℕ

-- `strcmp(a, b) == 0`: a string without an end is read past its array.
unfoldable pub strcmp_equal : List ℕ → List ℕ → Result Bool
strcmp_equal [] q = fault
strcmp_equal (a ∷ p) [] = fault
strcmp_equal (a ∷ p) (b ∷ q) =
    if a == b then (if a == 0 then ok true else strcmp_equal p q) else ok false

-- The test of both loops over the identifiers.
unfoldable pub same_ids : NodeShmInfo → List ℕ → List ℕ → Result Bool
same_ids node client server = do
  same ← strcmp_equal node.client_id client
  if same then strcmp_equal node.server_id server else ok false

-- The bytes of an array, all zero.
unfoldable pub all_zero : List ℕ → Bool
all_zero [] = true
all_zero (b ∷ p) = (b == 0) && all_zero p

-- `memcmp(&tmpNodeInfo, pNode, sizeof(NodeSHMInfo)) == 0` with a node of zeros. The struct has no
-- padding.
unfoldable pub is_empty_node : NodeShmInfo → Bool
is_empty_node n =
    (n.status == 0)
    && ((n.seckey_id == 0) && (all_zero n.client_id && (all_zero n.server_id && all_zero n.seckey)))

-- The first loop of shmWrite over the nodes that are left: the table with the first node of these
-- identifiers overwritten.
unfoldable pub write_same : ℕ → List NodeShmInfo → NodeShmInfo → Result (Option (List NodeShmInfo))
write_same zero table info = ok none
write_same (suc n) [] info = fault
write_same (suc n) (node ∷ table) info =
    let rest = write_same n table info in
    do
      same ← same_ids node info.client_id info.server_id
      if same then ok (some (info ∷ table)) else (do written ← rest; ok (map (◌∷◌ node) written))

-- The second loop: the first empty node overwritten.
unfoldable pub write_empty : ℕ → List NodeShmInfo → NodeShmInfo → Result (Option (List NodeShmInfo))
write_empty zero table info = ok none
write_empty (suc n) [] info = fault
write_empty (suc n) (node ∷ table) info =
    let rest = write_empty n table info in
    if is_empty_node node
    then ok (some (info ∷ table))
    else (do written ← rest; ok (map (◌∷◌ node) written))

-- What the code does where neither loop wrote: it answers -1, and the segment is as before.
written_or :
    Result (Option (List NodeShmInfo)) → Option (List NodeShmInfo) → Result (List NodeShmInfo)
written_or next (some table) = ok table
written_or next none = do
  written ← next
  elim written [ none ↦ err minus_one | some table ↦ ok table ]

-- The segment after the call.
unfoldable pub shm_write : Option (List NodeShmInfo) → ℕ → NodeShmInfo → Result (List NodeShmInfo)
unfolding written_or
shm_write none max_node info = err minus_one
shm_write (some table) max_node info = do
  written ← write_same max_node table info
  written_or (write_empty max_node table info) written

-- The loop of shmRead.
unfoldable pub read_same : ℕ → List NodeShmInfo → List ℕ → List ℕ → Result NodeShmInfo
read_same zero table client server = err minus_one
read_same (suc n) [] client server = fault
read_same (suc n) (node ∷ table) client server =
    let rest = read_same n table client server in
    do same ← same_ids node client server; if same then ok node else rest

-- The node that is copied out.
unfoldable pub shm_read : Option (List NodeShmInfo) → ℕ → List ℕ → List ℕ → Result NodeShmInfo
shm_read none max_node client server = err minus_one
shm_read (some table) max_node client server = read_same max_node table client server
