-- ===== src/TcpSocket/Stream.antt =====
-- TcpSocket::readn and TcpSocket::writen. Both loops end only by the answers that they are given, so
-- they recur on those.
pub mod Pieces
use safe_transmission.Common.{
  ℕ, zero, suc, ◌+◌, ◌-◌, ◌%◌, ◌^◌, Bool, true, false, List, [], ◌∷◌, ◌++◌, leb, ltb, ◌==◌,
  if◌then◌else◌, length, take, drop, u64, to_int, int_to_ulong, minus_one, Result, ok, stuck, ◌>>=◌,
  ◌>>◌, need,
}
use safe_transmission.TcpSocket.Os.{Answer, done, failed, eintr}

-- How the loop of readn was left: at its test, at the end of the stream, or at an error.
pub data Ending : Type 0 where
  full : Ending
  closed : Ending
  broken : Ending

-- The loop of readn, `nleft` bytes before its end and with room for `room` bytes behind `bufp`: the
-- bytes read, how it was left, and the answers that it did not take. That a read gives no more than
-- it was asked for is tested, since the code relies on it.
unfoldable pub read_loop :
    ℕ → ℕ → List (Answer (List ℕ)) → Result (List ℕ × Ending × List (Answer (List ℕ)))
read_loop room zero reads = ok ([], full, reads)
read_loop room (suc n) [] = stuck
read_loop room (suc n) (failed e ∷ reads) =
    if e == eintr then read_loop room (suc n) reads else ok ([], broken, reads)
read_loop room (suc n) (done [] ∷ reads) = ok ([], closed, reads)
read_loop room (suc n) (done (b ∷ chunk) ∷ reads) = do
  need (leb (length (b ∷ chunk)) (suc n))
  need (leb (length (b ∷ chunk)) room)
  (bytes, ending, rest) ← read_loop (room - length (b ∷ chunk)) (suc n - length (b ∷ chunk)) reads
  ok ((b ∷ chunk) ++ bytes, ending, rest)

-- `count` is an `int`, and so is what readn returns: `count`, -1, or `count - nleft`. What read does when it
-- is asked for more than SSIZE_MAX bytes is left to the system, so such a call has no outcome here.
unfoldable pub readn : ℕ → ℕ → List (Answer (List ℕ)) → Result (ℕ × List ℕ × List (Answer (List ℕ)))
readn room count reads = do
  need (ltb (int_to_ulong count) (2 ^ 63))
  (bytes, ending, rest) ← read_loop room (int_to_ulong count) reads
  ok (
    elim ending [ full ↦ count | closed ↦ to_int (length bytes) | broken ↦ minus_one ],
    bytes,
    rest,
  )

-- The loop of writen on the bytes from `bufp` on: the bytes that went out, whether all did, and the
-- answers that it did not take.
unfoldable pub write_loop : List ℕ → List (Answer ℕ) → Result (List ℕ × Bool × List (Answer ℕ))
write_loop [] writes = ok ([], true, writes)
write_loop (b ∷ bytes) [] = stuck
write_loop (b ∷ bytes) (failed e ∷ writes) =
    if e == eintr then write_loop (b ∷ bytes) writes else ok ([], false, writes)
write_loop (b ∷ bytes) (done k ∷ writes) = do
  need (leb k (length (b ∷ bytes)))
  (sent, all, rest) ← write_loop (drop k (b ∷ bytes)) writes
  ok (take k (b ∷ bytes) ++ sent, all, rest)

-- What writen returns, with the bytes that went out.
unfoldable pub writen : List ℕ → ℕ → List (Answer ℕ) → Result (ℕ × List ℕ × List (Answer ℕ))
writen buf count writes = do
  need (leb (int_to_ulong count) (length buf))
  (sent, all, rest) ← write_loop (take (int_to_ulong count) buf) writes
  ok ((if all then count else minus_one), sent, rest)
