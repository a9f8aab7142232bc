-- ===== src/TcpSocket/Timeout/Ready.antt =====
-- Waits that end with the descriptor ready.
use safe_transmission.Common.{ℕ, ◌<◌, ◌≡◌, refl, arith, List, ◌∷◌, ok}
use safe_transmission.TcpSocket.Os.{Answer, done, failed, eintr, Sys}
use safe_transmission.TcpSocket.Timeout.{select_loop, read_timeout, write_timeout}

-- Answers of `select`: interruptions, then that one descriptor is ready, and `rest` behind.
pub data Ready (rest : List (Answer ℕ)) : List (Answer ℕ) → Type 0 where
  ready : Ready rest (done 1 ∷ rest)
  again : {selects : List (Answer ℕ)} → Ready rest selects → Ready rest (failed eintr ∷ selects)

select_loop-Ready :
    {rest : List (Answer ℕ)} (errno : ℕ) {selects : List (Answer ℕ)}
    → Ready rest selects
    → (e : ℕ) × (select_loop errno selects ≡ ok (1, e, rest))
unfolding select_loop
select_loop-Ready errno ready = (errno, refl)
select_loop-Ready errno (again r) = select_loop-Ready eintr r

module _ {rest : List (Answer ℕ)} (wait_seconds : ℕ) (sys : Sys) (some : 0 < wait_seconds)
    (r : Ready rest sys.selects) where
  pub read_timeout-Ready :
      (e : ℕ) × (read_timeout wait_seconds sys ≡ ok (0, record sys { errno = e; selects = rest }))
  unfolding read_timeout
  read_timeout-Ready = let (e, h) = select_loop-Ready sys.errno r in (e, ground (arith, h))

  pub write_timeout-Ready :
      (e : ℕ) × (write_timeout wait_seconds sys ≡ ok (0, record sys { errno = e; selects = rest }))
  unfolding write_timeout
  write_timeout-Ready = let (e, h) = select_loop-Ready sys.errno r in (e, ground (arith, h))
