-- ===== src/Draft/Epoll.antt =====
-- Safe_transmission/serverop/epoll2.cpp: senddata, recvdata and func.
pub mod Receiving
use safe_transmission.Common.{
  ℕ, zero, suc, ◌+◌, Bool, List, [], ◌∷◌, ◌++◌, Option, none, some, ◌==◌, ◌&&◌, ◌||◌, if◌then◌else◌,
  is_positive, minus_one, int_of, Result, ok, ◌>>=◌, ◌>>◌, need,
}
use safe_transmission.BaseAsn1.Memory.{Allocator}
use safe_transmission.Draft.{Conn, recv, packed, send}

-- epoll_ctl(EPOLL_CTL_DEL) and close.
abbrev pub closed : Conn → Conn
closed c = record c { closes = c.closes + 1 }

-- The loop of recvdata over the bytes that are left.
unfoldable pub recv_loop : ℕ → Conn → Result (List ℕ × Conn)
recv_loop zero c = ok ([], c)
recv_loop (suc n) c = do
  (ret, byte, rest) ← recv 1 (0 ∷ []) c.recvs
  let c' : Conn = record c { recvs = rest }
  (bytes, d) ← recv_loop n (if ret == 0 then closed c' else c')
  ok (byte ++ bytes, d)

module _ (malloc : Allocator) where
  unfoldable pub senddata : Option (List ℕ) → ℕ → Conn → Result (ℕ × Conn)
  senddata data' len c = do
    parcel ← packed malloc data' len
    (taken, d) ← send parcel c
    ok (if taken then (0, d) else (minus_one, closed d))

  -- The value returned, what `buf` points to where it is set, and the connection. memset on the block
  -- of a length that is 0 or negative is left out where it has no bytes to write.
  unfoldable pub recvdata : Conn → Result (ℕ × Option (List ℕ) × Conn)
  recvdata c = do
    (ret, clen, rest) ← recv 4 (0 ∷ 0 ∷ 0 ∷ 0 ∷ []) c.recvs
    let c' : Conn = record c { recvs = rest }
    let len = int_of clen
    let body : Result (ℕ × Option (List ℕ) × Conn) = do
      (code, d) ← if len == 0 then senddata none 0 c' else ok (0, c')
      need ((len == 0) || (is_positive len && malloc len))
      (bytes, d') ← recv_loop len d
      ok (len, some bytes, d')
    if ret == 0 then ok (0, none, closed c') else body

  -- The callback that sends back what it has received.
  unfoldable pub func : Conn → Result Conn
  func c = do (len, buf, d) ← recvdata c; (ret, d') ← senddata buf len d; ok d'
