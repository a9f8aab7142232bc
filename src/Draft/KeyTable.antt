-- ===== src/Draft/KeyTable.antt =====
-- Safe_transmission/serverop/shmkey.cpp and Safe_transmission/serverop/shmClass.cpp, the drafts of SecKeyShm
-- and ShareMemory. The struct keyinfo has the members of NodeSHMInfo in another order.
use safe_transmission.Common.{
  ℕ, zero, suc, ◌≡◌, ◌≢◌, ◌⊎◌, inl, inr, refl, arith, Bool, true, false, ◌&&◌, List, [], ◌∷◌,
  Option, none, some, length, All, ◌==◌, if◌then◌else◌, minus_one, Result, ok, err, fault, ◌>>=◌,
}
use mathlib.Core.Option.{map}
use safe_transmission.Codec.CString.Fields.{text_of}
use safe_transmission.TcpSocket.Os.{Answer, done, failed}
use safe_transmission.SecKeyShm.{
  NodeShmInfo, strcmp_equal, all_zero, same_ids, shm_write, read_same, shm_read, is_empty_node,
}
use safe_transmission.SecKeyShm.Lookup.{
  IsNode, has_ids, texts_equal, strcmp_equal-texts_equal, exchange, write_same-exchange,
  write_empty-exchange,
}
use safe_transmission.SecKeyShm.Write.{twin, Option-cases}

-- getshm: it reads the first `int` of what shmat answers, where (void*)-1 is no block, and where that
-- `int` is -1 it returns a pointer that leads nowhere. A segment has one node at least.
unfoldable pub getshm : Option (List NodeShmInfo) → Result (List NodeShmInfo)
getshm none = fault
getshm (some []) = fault
getshm (some (node ∷ table)) = if node.status == minus_one then fault else ok (node ∷ table)

-- The first loop of shmPutdata over the nodes that are left: the table with the first node of these
-- identifiers overwritten.
unfoldable pub put_same : ℕ → List NodeShmInfo → NodeShmInfo → Result (Option (List NodeShmInfo))
put_same zero table keydata = ok none
put_same (suc n) [] keydata = fault
put_same (suc n) (info ∷ table) keydata =
    let rest = put_same n table keydata in
    do
      same_client ← strcmp_equal keydata.client_id info.client_id
      same ← if same_client then strcmp_equal keydata.server_id info.server_id else ok false
      if same then ok (some (keydata ∷ table)) else (do written ← rest; ok (map (◌∷◌ info) written))

-- `memcmp(&tmpinfo, info, sizeof(keyinfo)) == 0` with a node of zeros, in the order of the members.
unfoldable pub is_tmpinfo : NodeShmInfo → Bool
is_tmpinfo info =
    (info.status == 0)
    && (all_zero info.client_id
        && (all_zero info.server_id && ((info.seckey_id == 0) && all_zero info.seckey)))

-- The second loop: the first empty node overwritten.
unfoldable pub put_empty : ℕ → List NodeShmInfo → NodeShmInfo → Result (Option (List NodeShmInfo))
put_empty zero table keydata = ok none
put_empty (suc n) [] keydata = fault
put_empty (suc n) (info ∷ table) keydata =
    let rest = put_empty n table keydata in
    if is_tmpinfo info
    then ok (some (keydata ∷ table))
    else (do written ← rest; ok (map (◌∷◌ info) written))

-- The table after both loops of shmPutdata. Where neither wrote, nothing is reported.
unfoldable pub kept_or :
    List NodeShmInfo
    → Result (Option (List NodeShmInfo))
    → Option (List NodeShmInfo)
    → Result (List NodeShmInfo)
kept_or table next (some t) = ok t
kept_or table next none = do written ← next; ok (elim written [ none ↦ table | some t ↦ t ])

-- deshm: its code, and whether the segment is marked for its removal. The first argument is what
-- `shmctl` answers to IPC_RMID.
unfoldable pub deshm : Answer (Unit {0}) → Bool → ℕ × Bool
deshm (done x) marked = (0, true)
deshm (failed e) marked = (minus_one, marked)

-- The nodes after the call, which returns 0 on each of its paths, and whether the segment, whose mark
-- was `marked`, is marked for its removal. Nothing looks at the code of deshm.
unfoldable pub shm_putdata :
    Option (List NodeShmInfo)
    → Answer (Unit {0})
    → Bool
    → ℕ
    → NodeShmInfo
    → Result (List NodeShmInfo × Bool)
shm_putdata attached removal marked maxnode keydata = do
  table ← getshm attached
  written ← put_same maxnode table keydata
  after ← kept_or table (put_empty maxnode table keydata) written
  ok (after, (deshm removal marked).1)

-- The loop of shmGetdata.
unfoldable pub get_same : ℕ → List NodeShmInfo → List ℕ → List ℕ → ℕ → Result (Option NodeShmInfo)
get_same zero table client server id = ok none
get_same (suc n) [] client server id = fault
get_same (suc n) (node ∷ table) client server id =
    let rest = get_same n table client server id in
    do
      same_client ← strcmp_equal node.client_id client
      same ← if same_client then strcmp_equal node.server_id server else ok false
      if same && (node.seckey_id == id) then ok (some node) else rest

-- The node that is copied out, and the mark. Where no node is found deshm is not called.
unfoldable pub shm_getdata :
    Option (List NodeShmInfo)
    → Answer (Unit {0})
    → Bool
    → ℕ
    → List ℕ
    → List ℕ
    → ℕ
    → Result (Option NodeShmInfo × Bool)
shm_getdata attached removal marked maxnode client server id = do
  table ← getshm attached
  found ← get_same maxnode table client server id
  ok (found, elim found [ none ↦ marked | some node ↦ (deshm removal marked).1 ])

getshm_there :
    (node : NodeShmInfo) (t : List NodeShmInfo)
    → node.status ≢ minus_one
    → getshm (some (node ∷ t)) ≡ ok (node ∷ t)
unfolding getshm
getshm_there node t real = ground (arith, real)

texts_equal_comm : (p q : List ℕ) → texts_equal p q ≡ texts_equal q p
unfolding texts_equal
texts_equal_comm [] [] = refl
texts_equal_comm [] (b ∷ q) = refl
texts_equal_comm (a ∷ p) [] = refl
texts_equal_comm (a ∷ p) (b ∷ q) = ground (arith, texts_equal_comm p q)

-- The first loop stores where the first node of these identifiers is.
put_same-exchange :
    (t : List NodeShmInfo) (info : NodeShmInfo)
    → All IsNode t
    → IsNode info
    → put_same (length t) t info ≡ ok (exchange (twin info) info t)
unfolding put_same exchange has_ids
put_same-exchange [] info a i = refl
put_same-exchange (n ∷ t) info a i = ground (
  arith,
  strcmp_equal-texts_equal info.client_id n.client_id i.client_end a.0.client_end,
  strcmp_equal-texts_equal info.server_id n.server_id i.server_end a.0.server_end,
  texts_equal_comm (text_of info.client_id) (text_of n.client_id),
  texts_equal_comm (text_of info.server_id) (text_of n.server_id),
  put_same-exchange t info a.1 i,
)

is_tmpinfo-is_empty_node : (n : NodeShmInfo) → is_tmpinfo n ≡ is_empty_node n
unfolding is_tmpinfo is_empty_node
is_tmpinfo-is_empty_node n = ground arith

put_empty-exchange :
    (t : List NodeShmInfo) (info : NodeShmInfo)
    → put_empty (length t) t info ≡ ok (exchange is_empty_node info t)
unfolding put_empty exchange
put_empty-exchange [] info = refl
put_empty-exchange (n ∷ t) info =
    ground (arith, is_tmpinfo-is_empty_node n, put_empty-exchange t info)

-- In a mapped segment of maxnode nodes whose first node does not begin with -1, if every node's
-- identifiers are strings, and the new node's are: shmPutdata stores just where SecKeyShm::shmWrite
-- stores, and leaves the same nodes; where that answers -1 it leaves the nodes as they were and returns
-- 0 all the same; and either way, if shmctl does what deshm asks it for, the segment is marked for its
-- removal.
pub shm_putdata-shm_write :
    (node : NodeShmInfo) (t : List NodeShmInfo) (marked : Bool) (info : NodeShmInfo)
    → node.status ≢ minus_one
    → All IsNode (node ∷ t)
    → IsNode info
    → (t' : List NodeShmInfo) × (shm_putdata
          (some (node ∷ t))
          (done tt)
          marked
          (length (node ∷ t))
          info
        ≡ ok (t', true))
      × ((shm_write (some (node ∷ t)) (length (node ∷ t)) info ≡ ok t')
          ⊎ ((shm_write (some (node ∷ t)) (length (node ∷ t)) info ≡ err minus_one)
              × (t' ≡ node ∷ t)))
unfolding shm_putdata shm_write kept_or deshm
shm_putdata-shm_write node t marked info real a i =
    let whole = node ∷ t in
    let there = getshm_there node t real in
    let same = write_same-exchange whole info a i in
    let empty = write_empty-exchange whole info in
    let put = put_same-exchange whole info a i in
    let put_new = put_empty-exchange whole info in
    elim (Option-cases (exchange (twin info) info whole)) [
      | inr (t', e) ↦ (t', rw (there, put, e) refl, inl (rw (same, e) refl))
      | inl none_same ↦ elim (Option-cases (exchange is_empty_node info whole)) [
        | inr (t', e) ↦ (
          t',
          rw (there, put, none_same, put_new, e) refl,
          inl (rw (same, none_same, empty, e) refl),
        )
        | inl none_empty ↦ (
          whole,
          rw (there, put, none_same, put_new, none_empty) refl,
          inr (rw (same, none_same, empty, none_empty) refl, refl),
        )
      ]
    ]

get_same-read_same :
    (n : ℕ) (t : List NodeShmInfo) (c s : List ℕ) (node : NodeShmInfo)
    → read_same n t c s ≡ ok node
    → get_same n t c s node.seckey_id ≡ ok (some node)
unfolding read_same get_same same_ids
get_same-read_same zero t c s node h = cc
get_same-read_same (suc n) [] c s node h = cc
get_same-read_same (suc n) (x ∷ t) c s node h = ground (arith, h, get_same-read_same n t c s node)

-- In a segment whose first node does not begin with -1, if SecKeyShm::shmRead finds a node under two
-- identifiers, shmGetdata with these and the number of that node's key finds the same node; and if shmctl
-- does what deshm asks it for, the segment is marked for its removal.
pub shm_getdata-shm_read :
    (x : NodeShmInfo) (t : List NodeShmInfo) (marked : Bool) (n : ℕ) (c s : List ℕ)
    (node : NodeShmInfo)
    → x.status ≢ minus_one
    → shm_read (some (x ∷ t)) n c s ≡ ok node
    → shm_getdata (some (x ∷ t)) (done tt) marked n c s node.seckey_id ≡ ok (some node, true)
unfolding shm_getdata shm_read deshm
shm_getdata-shm_read x t marked n c s node real h =
    rw (getshm_there x t real, get_same-read_same n (x ∷ t) c s node h) refl
