-- ===== src/ShareMemory/Cleared.antt =====
-- What a constructor with a size leaves of the keys in a segment.
use safe_transmission.Common.{
  ℕ, zero, suc, ◌+◌, ◌*◌, ◌^◌, ◌≤◌, ◌<◌, ◌≡◌, refl, sym, ap, ◌∙◌, arith, true, List, [], ◌∷◌, ◌++◌,
  some, length, drop, ok, All, append_assoc,
}
use mathlib.Core.Path.{subst}
use safe_transmission.TcpSocket.Os.{Answer}
use safe_transmission.Codec.CString.Fields.{text_of, IsTerminated}
use safe_transmission.SecKeyShm.{NodeShmInfo, is_empty_node, all_zero, shm_read}
use safe_transmission.SecKeyShm.Lookup.{IsNode, has_ids, first_of, found}
use safe_transmission.SecKeyShm.Write.{Apart}
use safe_transmission.SecKeyShm.History.{Written, shm_read-Written}
use safe_transmission.ShareMemory.{
  ShareMemory, shm_id, zeros, get_shm_id, share_memory_sized, sec_key_shm, node_size, map_nodes,
}

zeros_add : (n m : ℕ) → zeros (n + m) ≡ zeros n ++ zeros m
zeros_add zero m = ap zeros (omega arith)
zeros_add (suc n) m =
    let shift : suc n + m ≡ suc (n + m) = omega arith in
    ap zeros shift ∙ ap (λ t. 0 ∷ t) (zeros_add n m)

length-zeros : (n : ℕ) → length (zeros n) ≡ n
length-zeros zero = refl
length-zeros (suc n) = ap suc (length-zeros n)

-- The nodes of zeros are empty, and their identifiers are strings.
cleared_nodes :
    (n : ℕ) (rest : List ℕ)
    → All (λ k. is_empty_node k ≡ true) (map_nodes n (zeros (n * node_size) ++ rest))
      × All IsNode (map_nodes n (zeros (n * node_size) ++ rest))
      × (length (map_nodes n (zeros (n * node_size) ++ rest)) ≡ n)
unfolding map_nodes is_empty_node all_zero
cleared_nodes zero rest = (tt, tt, refl)
cleared_nodes (suc n) rest =
    let later = cleared_nodes n rest in
    let front : zeros (suc n * node_size) ++ rest
        ≡ zeros node_size ++ (zeros (n * node_size) ++ rest) =
      ap (λ k. zeros k ++ rest) (omega arith)
      ∙ ap (λ t. t ++ rest) (zeros_add node_size (n * node_size))
      ∙ append_assoc (zeros node_size) (zeros (n * node_size)) rest in
    subst
      (λ t.
        All (λ k. is_empty_node k ≡ true) (map_nodes (suc n) t)
        × All IsNode (map_nodes (suc n) t)
        × (length (map_nodes (suc n) t) ≡ suc n))
      (sym front)
      ((refl, later.0), (record { client_end = tt; server_end = tt }, later.1), ap suc later.2)

-- If the size is positive and below 2 ^ 31, and the segment, whatever it holds, is attached and has that
-- size, then SecKeyShm(key, maxNode) succeeds and clears as many nodes; so after any calls of
-- SecKeyShm::shmWrite behind it with nodes whose identifiers are strings, some of which may have
-- answered -1, SecKeyShm::shmRead with two strings, not both without a character, copies out the node that was
-- stored last under them by these calls, and answers -1 if none was: no key that the segment held before is found.
pub sec_key_shm_forgets :
    (answer : Answer ℕ) (bytes : List ℕ) (max_node : ℕ) (u history : List NodeShmInfo)
    (c s : List ℕ)
    → 0 < max_node
    → max_node * node_size < 2 ^ 31
    → max_node * node_size ≤ length bytes
    → Written
        (map_nodes max_node (zeros (max_node * node_size) ++ drop (max_node * node_size) bytes))
        u
        history
    → IsTerminated c
    → IsTerminated s
    → Apart [] [] (text_of c) (text_of s)
    → (shm : ShareMemory) × (sec_key_shm answer (some bytes) max_node ≡ ok (shm, max_node))
      × (shm.segment ≡ some (zeros (max_node * node_size) ++ drop (max_node * node_size) bytes))
      × (shm_read (some u) max_node c s
          ≡ found (first_of (has_ids (text_of c) (text_of s)) history))
unfolding sec_key_shm share_memory_sized get_shm_id
sec_key_shm_forgets answer bytes max_node u history c s some_nodes small fits w hc hs used =
    let rest = drop (max_node * node_size) bytes in
    let (empty, nodes, count) = cleared_nodes max_node rest in
    (
      record { m_shm_id = shm_id answer; segment = some (zeros (max_node * node_size) ++ rest) },
      ground arith,
      refl,
      ap (λ n. shm_read (some u) n c s) (sym count)
          ∙ shm_read-Written _ u history c s nodes empty w hc hs used,
    )
