-- ===== src/TcpSocket/Connect/Blocking.antt =====
-- The mode of the socket after connectToHost, and what it answers.
use safe_transmission.Common.{
  ℕ, zero, suc, if◌then◌else◌, ◌^◌, ◌<◌, ◌≡◌, ◌≢◌, refl, arith, Bool, true, false, List, ◌∷◌,
  minus_one, ok, ◌==◌,
}
use safe_transmission.TcpSocket.Os.{Answer, done, failed, eintr, etimedout, einprogress}
use safe_transmission.TcpSocket.Timeout.{select_loop}
use safe_transmission.TcpSocket.Message.{timeout_error}
use safe_transmission.TcpSocket.Connect.{
  Dial, block_io, no_block_io, connect_timeout, connect_to_host,
}

-- Answers of `select` that end with `answer`, after any interruptions.
pub data Selects (answer : Answer ℕ) (rest : List (Answer ℕ)) : List (Answer ℕ) → Type 0 where
  now : Selects answer rest (answer ∷ rest)
  later :
      {selects : List (Answer ℕ)}
      → Selects answer rest selects
      → Selects answer rest (failed eintr ∷ selects)

pub select_loop-Selects :
    {rest : List (Answer ℕ)} (answer : Answer ℕ) (errno : ℕ) {selects : List (Answer ℕ)}
    → Selects answer rest selects
    → (e : ℕ) × (select_loop errno selects ≡ select_loop e (answer ∷ rest))
unfolding select_loop
select_loop-Selects answer errno now = (errno, refl)
select_loop-Selects answer errno (later s) = select_loop-Selects answer eintr s

-- The code for an error.
abbrev pub code_of_errno : ℕ → ℕ
code_of_errno e = if e == etimedout then timeout_error else minus_one

-- The code for what select says in the end and what the socket says then, and whether the socket is
-- left in the mode that does not block: it is where select or getsockopt fails.
abbrev pub expected : Answer ℕ → Answer ℕ → ℕ × Bool
expected (failed e) sockopt = (code_of_errno e, true)
expected (done zero) sockopt = (timeout_error, false)
expected (done (suc k)) (failed e) = (code_of_errno e, true)
expected (done (suc k)) (done zero) = (0, false)
expected (done (suc k)) (done (suc e)) = (code_of_errno (suc e), false)

-- select does not end with an interruption, nor with more descriptors than the one that it is given.
abbrev pub IsFinal : Answer ℕ → Type 0
IsFinal (failed e) = e ≢ eintr
IsFinal (done k) = k < 2

-- The same on what the loop of select comes to, case by case.
in_progress :
    (rest : List (Answer ℕ)) (fcntls : List (Answer (Unit {0}))) (answer sockopt : Answer ℕ)
    (fd port timeout e : ℕ) (d : Dial)
    → 0 < port
    → 0 < timeout
    → timeout < 2 ^ 31
    → d.socket ≡ done fd
    → d.connect ≡ failed einprogress
    → d.fcntls ≡ done tt ∷ done tt ∷ done tt ∷ done tt ∷ fcntls
    → select_loop einprogress d.selects ≡ select_loop e (answer ∷ rest)
    → d.sockopt ≡ sockopt
    → IsFinal answer
    → (d' : Dial) × (connect_to_host true port timeout d ≡ ok ((expected answer sockopt).0, d'))
      × (d'.nonblock ≡ (expected answer sockopt).1)
unfolding connect_to_host connect_timeout block_io no_block_io select_loop
in_progress rest fcntls (failed e') sockopt fd port timeout e d p t small created waits modes asked
      o final =
    (
      record d { errno = e'; nonblock = true; fcntls = done tt ∷ done tt ∷ fcntls; selects = rest },
      ground (arith, asked, created, waits, modes, o),
      refl,
    )
in_progress rest fcntls (done zero) sockopt fd port timeout e d p t small created waits modes asked
      o final =
    (
      record d { errno = etimedout; nonblock = false; fcntls = fcntls; selects = rest },
      ground (arith, asked, created, waits, modes, o),
      refl,
    )
in_progress rest fcntls (done (suc zero)) (failed e') fd port timeout e d p t small created waits
      modes asked o final =
    (
      record d { errno = e'; nonblock = true; fcntls = done tt ∷ done tt ∷ fcntls; selects = rest },
      ground (arith, asked, created, waits, modes, o),
      refl,
    )
in_progress rest fcntls (done (suc zero)) (done zero) fd port timeout e d p t small created waits
      modes asked o final =
    (
      record d { errno = e; nonblock = false; fcntls = fcntls; selects = rest },
      ground (arith, asked, created, waits, modes, o),
      refl,
    )
in_progress rest fcntls (done (suc zero)) (done (suc e')) fd port timeout e d p t small created
      waits modes asked o final =
    (
      record d { errno = suc e'; nonblock = false; fcntls = fcntls; selects = rest },
      ground (arith, asked, created, waits, modes, o),
      refl,
    )
in_progress rest fcntls (done (suc (suc k))) sockopt fd port timeout e d p t small created waits
      modes asked o final =
    absurd (omega arith)

-- With a timeout, a port and an address, if the socket is created, all calls of fcntl succeed and the
-- connection is not there at once, then TcpSocket::connectToHost answers as select and getsockopt say:
-- 0 for a connection, TimeoutError if none came in time, -1 for an error other than ETIMEDOUT. The
-- socket blocks again, unless select or getsockopt failed: then it is left in the other mode.
pub connect_in_progress :
    {rest : List (Answer ℕ)} {fcntls : List (Answer (Unit {0}))} (answer : Answer ℕ)
    (fd port timeout : ℕ) (d : Dial)
    → 0 < port
    → 0 < timeout
    → timeout < 2 ^ 31
    → d.socket ≡ done fd
    → d.connect ≡ failed einprogress
    → d.fcntls ≡ done tt ∷ done tt ∷ done tt ∷ done tt ∷ fcntls
    → Selects answer rest d.selects
    → IsFinal answer
    → (d' : Dial) × (connect_to_host true port timeout d ≡ ok ((expected answer d.sockopt).0, d'))
      × (d'.nonblock ≡ (expected answer d.sockopt).1)
connect_in_progress answer fd port timeout d p t small created waits modes s final =
    let (e, asked) = select_loop-Selects answer einprogress s in
    in_progress _ _ answer d.sockopt fd port timeout e d p t small created waits modes asked refl
      final
