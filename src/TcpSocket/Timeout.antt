-- ===== src/TcpSocket/Timeout.antt =====
-- TcpSocket::readTimeout and TcpSocket::writeTimeout: waiting for a descriptor to be ready.
pub mod Ready
use safe_transmission.Common.{
  ℕ, ◌+◌, ◌%◌, ◌^◌, List, [], ◌∷◌, ltb, ◌==◌, if◌then◌else◌, minus_one, Result, ok, stuck, ◌>>=◌,
  ◌>>◌,
}
use safe_transmission.TcpSocket.Os.{Answer, done, failed, eintr, etimedout, Sys}

-- `do { ret = select(…); } while (ret < 0 && errno == EINTR);`, with errno after it.
unfoldable pub select_loop : ℕ → List (Answer ℕ) → Result (ℕ × ℕ × List (Answer ℕ))
select_loop errno [] = stuck
select_loop errno (done ready ∷ selects) = ok (ready, errno, selects)
select_loop errno (failed e ∷ selects) =
    if e == eintr then select_loop e selects else ok (minus_one, e, selects)

-- The code that both functions share: what is returned, and the state after it.
wait_ready : ℕ → Sys → Result (ℕ × Sys)
wait_ready wait_seconds sys =
    if ltb 0 wait_seconds
    then (do
      (ret, errno, selects) ← select_loop sys.errno sys.selects
      if ret == 0
          then ok (minus_one, record sys { errno = etimedout; selects = selects })
          else ok ((if ret == 1 then 0 else ret), record sys { errno = errno; selects = selects }))
    else ok (0, sys)

unfoldable pub read_timeout : ℕ → Sys → Result (ℕ × Sys)
unfolding wait_ready
read_timeout wait_seconds sys = wait_ready wait_seconds sys

unfoldable pub write_timeout : ℕ → Sys → Result (ℕ × Sys)
unfolding wait_ready
write_timeout wait_seconds sys = wait_ready wait_seconds sys
