-- ===== src/Draft/Cli.antt =====
-- Safe_transmission/clientop/cli.c: senddata and recvdata.
pub mod Receiving
use safe_transmission.Common.{
  ℕ, zero, suc, ◌+◌, Bool, List, [], ◌∷◌, ◌++◌, Option, none, some, ◌==◌, ◌&&◌, ◌||◌, ◌⊎◌, inl, inr,
  if◌then◌else◌, is_positive, minus_one, int_of, Result, ok, ◌>>=◌, ◌>>◌, need,
}
use safe_transmission.BaseAsn1.Memory.{Allocator}
use safe_transmission.Draft.{Conn, recv, packed, send}

-- What a round of recvdata, or its first call, does with what recv returned: -1 and 0 end the call.
unfoldable pub ended_by : ℕ → Conn → Option (ℕ × Conn)
ended_by ret c =
    if ret == minus_one
    then some (minus_one, record c { closes = c.closes + 1 })
    else if ret == 0
    then some (0, c)
    else none

-- The loop of recvdata over the bytes that are left: the bytes, or what the call returns at once.
unfoldable pub recv_loop : ℕ → Conn → Result ((ℕ ⊎ List ℕ) × Conn)
recv_loop zero c = ok (inr [], c)
recv_loop (suc n) c = do
  (ret, byte, rest) ← recv 1 (0 ∷ []) c.recvs
  let c' : Conn = record c { recvs = rest }
  let more : Result ((ℕ ⊎ List ℕ) × Conn) = do
    (out, d) ← recv_loop n c'
    ok (elim out [ inl code ↦ inl code | inr bytes ↦ inr (byte ++ bytes) ], d)
  elim (ended_by ret c') [ some (code, d) ↦ ok (inl code, d) | none ↦ more ]

module _ (malloc : Allocator) where
  unfoldable pub senddata : Option (List ℕ) → ℕ → Conn → Result (ℕ × Conn)
  senddata data' len c = do
    parcel ← packed malloc data' len
    (taken, d) ← send parcel c
    ok ((if taken then 0 else minus_one), d)

  -- The value returned, what `buf` points to where it is set, and the connection.
  unfoldable pub recvdata : Conn → Result (ℕ × Option (List ℕ) × Conn)
  recvdata c = do
    (ret, clen, rest) ← recv 4 (0 ∷ 0 ∷ 0 ∷ 0 ∷ []) c.recvs
    let c' : Conn = record c { recvs = rest }
    let len = int_of clen
    let body : Result (ℕ × Option (List ℕ) × Conn) = do
      need ((len == 0) || (is_positive len && malloc len))
      (out, d) ← recv_loop len c'
      ok (elim out [ inl code ↦ (code, none, d) | inr bytes ↦ (len, some bytes, d) ])
    elim (ended_by ret c') [ some (code, d) ↦ ok (code, none, d) | none ↦ body ]
