-- ===== src/Draft.antt =====
-- The earlier drafts of the server (Safe_transmission/serverop) and of the client
-- (Safe_transmission/clientop): what both do to a connection.
pub mod Epoll
pub mod Cli
pub mod Echo
pub mod Dispatch
pub mod Mixing
pub mod KeyTable
use safe_transmission.Common.{
  ℕ, zero, suc, ◌+◌, ◌-◌, List, [], ◌∷◌, ◌++◌, Option, none, some, leb, ◌&&◌, length, drop, take,
  to_int, is_positive, minus_one, int_bytes, Result, ok, fault, stuck, ◌>>=◌, ◌>>◌, need, Bool,
  true, false,
}
use safe_transmission.BaseAsn1.Memory.{Allocator, read_bytes}
use safe_transmission.TcpSocket.Os.{Answer, done, failed}

-- A connection: what recv and send will answer, the bytes that send has taken, and how often the
-- descriptor was closed. What a call answers on a descriptor that was closed is a parameter too.
pub record Conn : Type 0 where
  pub recvs : List (Answer (List ℕ))
  pub sends : List (Answer ℕ)
  pub sent : List ℕ
  pub closes : ℕ

-- `recv(fd, buf, n, 0)`, where `buf` holds `old`: the value returned, what `buf` holds then, and the
-- answers to come.
unfoldable pub recv :
    ℕ → List ℕ → List (Answer (List ℕ)) → Result (ℕ × List ℕ × List (Answer (List ℕ)))
recv n old [] = stuck
recv n old (failed e ∷ rest) = ok (minus_one, old, rest)
recv n old (done chunk ∷ rest) = do
  need (leb (length chunk) n)
  ok (length chunk, chunk ++ drop (length chunk) old, rest)

-- The bytes that the loop copies from `data`, which may be null.
unfoldable pub read_data : ℕ → Option (List ℕ) → Result (List ℕ)
read_data zero data' = ok []
read_data (suc n) none = fault
read_data (suc n) (some bytes) = read_bytes (suc n) bytes

-- The package: the length as it lies in memory, and the bytes. No block has 2 ^ 63 bytes or more, so
-- for a negative `packlen` there is none, and memset gets a null pointer.
unfoldable pub packed : Allocator → Option (List ℕ) → ℕ → Result (List ℕ)
packed malloc data' len = do
  let packlen = to_int (len + 4)
  need (is_positive packlen && malloc packlen)
  need (leb 4 packlen)
  body ← read_data (packlen - 4) data'
  ok (int_bytes len ++ body)

-- `send(fd, package, packlen, 0)`: whether it succeeded, with the connection after it.
unfoldable pub send : List ℕ → Conn → Result (Bool × Conn)
send parcel c = elim c.sends [
  | [] ↦ stuck
  | failed e ∷ rest ↦ ok (false, record c { sends = rest })
  | done k ∷ rest ↦ do
    need (leb k (length parcel))
    ok (true, record c { sends = rest; sent = c.sent ++ take k parcel })
]
