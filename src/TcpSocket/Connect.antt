-- ===== src/TcpSocket/Connect.antt =====
-- TcpSocket::connectToHost and what it calls: blockIO, noBlockIO and connectTimeout.
pub mod Blocking
use safe_transmission.Common.{
  ℕ, ◌+◌, ◌%◌, ◌^◌, Bool, true, false, List, [], ◌∷◌, ltb, leb, ◌==◌, ◌&&◌, ◌||◌, if◌then◌else◌,
  minus_one, Result, ok, stuck, ◌>>=◌, ◌>>◌,
}
use safe_transmission.TcpSocket.Os.{Answer, done, failed, etimedout, einprogress}
use safe_transmission.TcpSocket.Timeout.{select_loop}
use safe_transmission.TcpSocket.Message.{param_error, timeout_error}

-- errno, whether the descriptor's flags have O_NONBLOCK, and the answers to come of fcntl, select,
-- and of socket, connect and getsockopt, which are called once.
pub record Dial : Type 0 where
  pub errno : ℕ
  pub nonblock : Bool
  pub fcntls : List (Answer (Unit {0}))
  pub selects : List (Answer ℕ)
  pub socket : Answer ℕ
  pub connect : Answer (Unit {0})
  pub sockopt : Answer ℕ

-- `fcntl(fd, F_GETFL)`, then `fcntl(fd, F_SETFL, flags)` with O_NONBLOCK as given, on the answers to
-- both. blockIO and noBlockIO differ in nothing else.
set_nonblock : Bool → Dial → List (Answer (Unit {0})) → Result (ℕ × Dial)
set_nonblock flag d [] = stuck
set_nonblock flag d (failed e ∷ rest) = ok (minus_one, record d { errno = e; fcntls = rest })
set_nonblock flag d (done _ ∷ []) = stuck
set_nonblock flag d (done _ ∷ failed e ∷ rest) =
    ok (minus_one, record d { errno = e; fcntls = rest })
set_nonblock flag d (done _ ∷ done _ ∷ rest) = ok (0, record d { nonblock = flag; fcntls = rest })

unfoldable pub block_io : Dial → Result (ℕ × Dial)
unfolding set_nonblock
block_io d = set_nonblock true d d.fcntls

unfoldable pub no_block_io : Dial → Result (ℕ × Dial)
unfolding set_nonblock
no_block_io d = set_nonblock false d d.fcntls

-- The end of connectTimeout: the mode is set back, and that call's own outcome is not looked at.
finish : ℕ → ℕ → Dial → Result (ℕ × Dial)
finish ret wait_seconds d = do
  let restored : Result (ℕ × Dial) = do (_, d') ← no_block_io d; ok (ret, d')
  if ltb 0 wait_seconds then restored else ok (ret, d)

-- `getsockopt(m_socket, SOL_SOCKET, SO_ERROR, …)`, where the socket is writable.
socket_error : Answer ℕ → ℕ → Dial → Result (ℕ × Dial)
unfolding finish
socket_error (failed e) wait_seconds d = ok (minus_one, record d { errno = e })
socket_error (done e) wait_seconds d =
    if e == 0
    then finish 0 wait_seconds d
    else finish minus_one wait_seconds (record d { errno = e })

-- What follows the connect call.
connected : Answer (Unit {0}) → ℕ → Dial → Result (ℕ × Dial)
unfolding finish socket_error
connected (done _) wait_seconds d = finish 0 wait_seconds d
connected (failed e) wait_seconds d = do
  let waiting : Result (ℕ × Dial) = do
    (ret, errno, selects) ← select_loop e d.selects
    let d' : Dial = record d { errno = errno; selects = selects }
    if ret == 0
        then finish minus_one wait_seconds (record d' { errno = etimedout })
        else if ret == minus_one
        then ok (minus_one, d')
        else if ret == 1
        then socket_error d.sockopt wait_seconds d'
        else finish ret wait_seconds d'
  if e == einprogress then waiting else finish minus_one wait_seconds (record d { errno = e })

unfoldable pub connect_timeout : ℕ → Dial → Result (ℕ × Dial)
unfolding connected
connect_timeout wait_seconds d = do
  (_, d') ← if ltb 0 wait_seconds then block_io d else ok (0, d)
  connected d.connect wait_seconds d'

-- The part of connectToHost behind the socket call. A new socket blocks.
dial : Answer ℕ → ℕ → Dial → Result (ℕ × Dial)
dial (failed e) timeout d = ok (e, record d { errno = e })
dial (done fd) timeout d = do
  (ret, d') ← connect_timeout timeout (record d { nonblock = false })
  ok ((if (ret == minus_one) && (d'.errno == etimedout) then timeout_error else ret), d')

-- `has_ip` says whether `ip` is not null; `port` is an unsigned short.
unfoldable pub connect_to_host : Bool → ℕ → ℕ → Dial → Result (ℕ × Dial)
unfolding dial
connect_to_host false port timeout d = ok (param_error, d)
connect_to_host true port timeout d =
    if (port == 0) || leb (2 ^ 31) timeout then ok (param_error, d) else dial d.socket timeout d
