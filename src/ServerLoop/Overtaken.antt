-- ===== src/ServerLoop/Overtaken.antt =====
-- A thread that looks for its socket before startWork has put it into the container.
use safe_transmission.Common.{ℕ}
use safe_transmission.ServerLoop.{Server}

-- Nothing restricts when a thread looks.
abbrev pub AtAnyTime : Server → ℕ → Type 0
AtAnyTime s thid = Unit {0}
