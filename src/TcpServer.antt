-- ===== src/TcpServer.antt =====
-- Safe_transmission/ServerSeckey/ServerSeckey/TcpServer.cpp: listening, and accepting connections.
pub mod Accept
use safe_transmission.Common.{
  ℕ, zero, ◌^◌, Bool, true, false, List, Option, none, some, ltb, leb, ◌==◌, ◌&&◌, if◌then◌else◌,
  is_positive, minus_one, Result, ok, ◌>>=◌, ◌>>◌,
}
use safe_transmission.TcpSocket.Os.{Answer, done, failed, etimedout}
use safe_transmission.TcpSocket.Timeout.{select_loop}

-- `m_lfd`, errno, and the answers to come of select, and of the other calls, each called once.
pub record TcpServer : Type 0 where
  pub m_lfd : ℕ
  pub errno : ℕ
  pub selects : List (Answer ℕ)
  pub socket : Answer ℕ
  pub setsockopt : Answer (Unit {0})
  pub bind : Answer (Unit {0})
  pub listen : Answer (Unit {0})
  pub accept : Answer ℕ

-- One call after the other, until one fails: errno is returned then, and 0 at the end.
calls_from_listen : Answer (Unit {0}) → TcpServer → ℕ × TcpServer
calls_from_listen (failed e) s = (e, record s { errno = e })
calls_from_listen (done _) s = (0, s)

calls_from_bind : Answer (Unit {0}) → TcpServer → ℕ × TcpServer
unfolding calls_from_listen
calls_from_bind (failed e) s = (e, record s { errno = e })
calls_from_bind (done _) s = calls_from_listen s.listen s

calls_from_setsockopt : Answer (Unit {0}) → TcpServer → ℕ × TcpServer
unfolding calls_from_bind
calls_from_setsockopt (failed e) s = (e, record s { errno = e })
calls_from_setsockopt (done _) s = calls_from_bind s.bind s

calls_from_socket : Answer ℕ → TcpServer → ℕ × TcpServer
unfolding calls_from_setsockopt
calls_from_socket (failed e) s = (e, record s { m_lfd = minus_one; errno = e })
calls_from_socket (done fd) s = calls_from_setsockopt s.setsockopt (record s { m_lfd = fd })

-- The port goes into the address that bind is given.
unfoldable pub set_listen : TcpServer → ℕ × TcpServer
unfolding calls_from_socket
set_listen s = calls_from_socket s.socket s

-- The accept call: an error returns the positive errno.
accept_call : Answer ℕ → TcpServer → ℕ × TcpServer
accept_call (failed e) s = (e, record s { errno = e })
accept_call (done fd) s = (fd, s)

unfoldable pub accept_timeout : ℕ → TcpServer → Result (ℕ × TcpServer)
unfolding accept_call
accept_timeout wait_seconds s = do
  let waiting : Result (ℕ × TcpServer) = do
    (ret, errno, selects) ← select_loop s.errno s.selects
    let s' : TcpServer = record s { errno = errno; selects = selects }
    ok (
        if ret == minus_one
        then (minus_one, s')
        else if ret == 0
        then (minus_one, record s' { errno = etimedout })
        else accept_call s'.accept s')
  if is_positive wait_seconds then waiting else ok (accept_call s.accept s)

-- The descriptor in the new TcpSocket, or a null pointer where the number is negative.
unfoldable pub accept_conn : ℕ → TcpServer → Result (Option ℕ × TcpServer)
accept_conn timeout s = do
  (connfd, s') ← accept_timeout timeout s
  ok ((if leb (2 ^ 31) connfd then none else some connfd), s')
