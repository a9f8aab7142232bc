-- ===== src/TcpSocket/Os.antt =====
-- What the operating system answers to TcpSocket.cpp and TcpServer.cpp. The system is not part of the
-- program: the answers are parameters, a list for each kind of call, and a call that finds its list
-- empty has not returned.
use safe_transmission.Common.{ℕ, List}

-- A call's value where it is not -1, or the number in errno.
pub data Answer (A : Type 0) : Type 0 where
  done : A → Answer A
  failed : ℕ → Answer A

-- The values of <errno.h> that the code names.
abbrev pub eintr : ℕ
eintr = 4

abbrev pub etimedout : ℕ
etimedout = 110

abbrev pub einprogress : ℕ
einprogress = 115

-- errno, and the answers to come: numbers of ready descriptors, bytes read, and numbers of bytes
-- written.
pub record Sys : Type 0 where
  pub errno : ℕ
  pub selects : List (Answer ℕ)
  pub reads : List (Answer (List ℕ))
  pub writes : List (Answer ℕ)
