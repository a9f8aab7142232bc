-- ===== src/ShareMemory.antt =====
-- Safe_transmission/ServerSeckey/ServerSeckey/ShareMemory.cpp, and the constructors of SecKeyShm.cpp. A
-- segment is the list of its bytes; what shmget and shmat answer are parameters.
pub mod Cleared
use safe_transmission.Common.{
  ℕ, zero, suc, ◌+◌, ◌*◌, ◌^◌, ◌%◌, List, [], ◌∷◌, ◌++◌, Option, none, some, leb, length, drop,
  take, to_int, int_of, u64, int_to_ulong, is_positive, minus_one, Result, ok, fault, ◌>>=◌, ◌>>◌,
  need, if◌then◌else◌,
}
use safe_transmission.TcpSocket.Os.{Answer, done, failed}
use safe_transmission.SecKeyShm.{NodeShmInfo}

-- The members that the constructors set, and the segment under `m_shm_id`, `none` where shmat fails.
-- The base class has no `m_max_node`.
pub record ShareMemory : Type 0 where
  pub m_shm_id : ℕ
  pub segment : Option (List ℕ)

abbrev pub zeros : ℕ → List ℕ
zeros zero = []
zeros (suc n) = 0 ∷ zeros n

abbrev pub shm_id : Answer ℕ → ℕ
shm_id (done id) = id
shm_id (failed e) = minus_one

-- `memset(addr, 0, shmSize)` on what shmat answers: (void*)-1 is no block.
clear : ℕ → Option (List ℕ) → Result (Option (List ℕ))
clear size none = fault
clear size (some bytes) = do
  need (leb size (length bytes))
  ok (some (zeros size ++ drop size bytes))

-- `shm_size` is an `int`. The key and the flag go to shmget.
unfoldable pub get_shm_id : Answer ℕ → Option (List ℕ) → ℕ → Result ShareMemory
unfolding clear
get_shm_id answer attached shm_size = do
  segment ← if is_positive shm_size then clear (int_to_ulong shm_size) attached else ok attached
  ok (record { m_shm_id = shm_id answer; segment = segment })

-- The constructor that opens a segment, and the one that creates it where it is not there.
unfoldable pub share_memory : Answer ℕ → Option (List ℕ) → Result ShareMemory
share_memory answer attached = get_shm_id answer attached 0

unfoldable pub share_memory_sized : Answer ℕ → Option (List ℕ) → ℕ → Result ShareMemory
share_memory_sized answer attached size = get_shm_id answer attached size

-- sizeof(NodeSHMInfo).
abbrev pub node_size : ℕ
node_size = 160

-- SecKeyShm(key, maxNode): the size is an `unsigned long` that becomes an `int`.
unfoldable pub sec_key_shm : Answer ℕ → Option (List ℕ) → ℕ → Result (ShareMemory × ℕ)
sec_key_shm answer attached max_node = do
  shm ← share_memory_sized answer attached (to_int (u64 (int_to_ulong max_node * node_size)))
  ok (shm, max_node)

-- `static_cast<NodeSHMInfo*>(mapShm())`: the struct at the beginning of the bytes, and the first ones.
abbrev pub node_of : List ℕ → NodeShmInfo
node_of bytes = record {
  status = int_of (take 4 bytes);
  seckey_id = int_of (take 4 (drop 4 bytes));
  client_id = take 12 (drop 8 bytes);
  server_id = take 12 (drop 20 bytes);
  seckey = take 128 (drop 32 bytes);
}

unfoldable pub map_nodes : ℕ → List ℕ → List NodeShmInfo
map_nodes zero bytes = []
map_nodes (suc n) bytes = node_of bytes ∷ map_nodes n (drop node_size bytes)
