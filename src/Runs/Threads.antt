-- ===== src/Runs/Threads.antt =====
-- Runs of startWork with its threads.
use safe_transmission.Common.{ℕ, some, [], ◌∷◌}
use safe_transmission.TcpSocket.Os.{done}
use safe_transmission.TcpServer.{TcpServer}
use safe_transmission.ServerLoop.{TcpSocket, assign, fresh, Server, start}

-- A connection that is accepted at once, with descriptor `fd`.
abbrev listener : ℕ → TcpServer
listener fd = record {
  m_lfd = 3;
  errno = 0;
  selects = done 1 ∷ [];
  socket = done 3;
  setsockopt = done tt;
  bind = done tt;
  listen = done tt;
  accept = done fd;
}

abbrev first_socket : TcpSocket
first_socket = record { object = 0; m_socket = 4 }

abbrev one_started : Server
one_started = record start {
  starting = some (70, first_socket);
  workers = assign start.workers 70 fresh;
  made = 1;
}
