-- ===== src/TcpServer/Accept.antt =====
-- What acceptConn hands out, and what setListen answers.
use safe_transmission.Common.{
  ℕ, zero, suc, ◌^◌, ◌<◌, ◌≡◌, refl, arith, List, ◌∷◌, Option, none, some, ok,
}
use safe_transmission.TcpSocket.Os.{Answer, done, failed, etimedout}
use safe_transmission.TcpSocket.Timeout.{select_loop}
use safe_transmission.TcpSocket.Connect.Blocking.{Selects, select_loop-Selects, IsFinal}
use safe_transmission.TcpServer.{TcpServer, accept_timeout, accept_conn}

-- The descriptor that is handed out: none after a time-out or an error of select, and after an error
-- of accept the number of the error.
abbrev pub handed_out : Answer ℕ → Answer ℕ → Option ℕ
handed_out (failed e) accept = none
handed_out (done zero) accept = none
handed_out (done (suc k)) (failed e) = some e
handed_out (done (suc k)) (done fd) = some fd

-- A descriptor, and a number in errno, are `int`s that are not negative.
abbrev pub IsInt : Answer ℕ → Type 0
IsInt (failed e) = e < 2 ^ 31
IsInt (done fd) = fd < 2 ^ 31

accepted :
    (rest : List (Answer ℕ)) (answer accept : Answer ℕ) (e timeout : ℕ) (s : TcpServer)
    → 0 < timeout
    → timeout < 2 ^ 31
    → select_loop s.errno s.selects ≡ select_loop e (answer ∷ rest)
    → s.accept ≡ accept
    → IsFinal answer
    → IsInt accept
    → (s' : TcpServer) × (accept_conn timeout s ≡ ok (handed_out answer accept, s'))
unfolding accept_conn accept_timeout select_loop
accepted rest (failed e') accept e timeout s t small asked o final int =
    (record s { errno = e'; selects = rest }, ground (arith, asked))
accepted rest (done zero) accept e timeout s t small asked o final int =
    (record s { errno = etimedout; selects = rest }, ground (arith, asked))
accepted rest (done (suc zero)) (failed e') e timeout s t small asked o final int =
    (record s { errno = e'; selects = rest }, ground (arith, asked, o))
accepted rest (done (suc zero)) (done fd) e timeout s t small asked o final int =
    (record s { errno = e; selects = rest }, ground (arith, asked, o))
accepted rest (done (suc (suc k))) accept e timeout s t small asked o final int =
    absurd (omega arith)

-- With a timeout, TcpServer::acceptConn hands out the descriptor that accept answers, and a null
-- pointer if no connection came in time or select failed; but if accept fails, it hands out a TcpSocket
-- whose descriptor is the number of the error.
pub accept_conn_hands_out :
    {rest : List (Answer ℕ)} (answer : Answer ℕ) (timeout : ℕ) (s : TcpServer)
    → 0 < timeout
    → timeout < 2 ^ 31
    → Selects answer rest s.selects
    → IsFinal answer
    → IsInt s.accept
    → (s' : TcpServer) × (accept_conn timeout s ≡ ok (handed_out answer s.accept, s'))
accept_conn_hands_out {rest} answer timeout s t small waits final int =
    let (e, asked) = select_loop-Selects answer s.errno waits in
    accepted rest answer s.accept e timeout s t small asked refl final int
