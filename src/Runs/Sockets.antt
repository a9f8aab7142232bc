-- ===== src/Runs/Sockets.antt =====
-- Runs of TcpSocket and TcpServer.
use safe_transmission.Common.{
  ℕ, ◌^◌, ◌≡◌, ◌<◌, ◌≤◌, ◌+◌, inr, refl, arith, true, false, List, [], ◌∷◌, ◌++◌, none, some, ok,
  minus_one, take,
}
use safe_transmission.TcpSocket.Os.{Answer, done, failed, eintr, einprogress, Sys}
use safe_transmission.TcpSocket.Stream.{writen, write_loop}
use safe_transmission.TcpSocket.Stream.Pieces.{
  whole, interrupted, piece, Taken, none_left, held_up, taken,
}
use safe_transmission.TcpSocket.Timeout.{write_timeout, select_loop}
use safe_transmission.TcpSocket.Timeout.Ready.{ready, again}
use safe_transmission.TcpSocket.Message.{send_msg, send_frame, recv_msg, peer_close_error, host_int}
use safe_transmission.TcpSocket.Message.Frame.{frame, send_msg_sends, send_msg-frame}
use safe_transmission.TcpSocket.Message.RoundTrip.{recv_msg-send_msg}
use safe_transmission.TcpSocket.Message.Failures.{recv_msg_closed}
use safe_transmission.TcpSocket.Connect.{Dial, connect_to_host}
use safe_transmission.TcpSocket.Connect.Blocking.{now, later, connect_in_progress}
use safe_transmission.TcpServer.{TcpServer, accept_conn, set_listen}
use safe_transmission.TcpServer.Accept.{accept_conn_hands_out}
use safe_transmission.BaseAsn1.Memory.{read_bytes}
use safe_transmission.Runs.Elements.{always, granted}

abbrev message : List ℕ
message = 7 ∷ 8 ∷ 9 ∷ []

abbrev on_the_wire : List ℕ
on_the_wire = 0 ∷ 0 ∷ 0 ∷ 3 ∷ 7 ∷ 8 ∷ 9 ∷ []

abbrev busy : Sys
busy = record {
  errno = 0;
  selects = failed eintr ∷ done 1 ∷ [];
  reads = [];
  writes = done 2 ∷ failed eintr ∷ done 5 ∷ [];
}

abbrev after : Sys
after = record { errno = eintr; selects = []; reads = []; writes = [] }

sent_in_two : send_msg always (some message) 3 5 busy ≡ ok (0, on_the_wire, after)
unfolding send_msg send_frame write_timeout select_loop writen write_loop read_bytes
sent_in_two = refl

bytes-Taken : Taken [] busy.writes on_the_wire
bytes-Taken =
    taken 2 on_the_wire (omega arith) (omega arith) (
      held_up (omega arith)
        (taken 5 (0 ∷ 3 ∷ 7 ∷ 8 ∷ 9 ∷ []) (omega arith) (omega arith) none_left))

send_msg_sends_example :
    (sys' : Sys) × (send_msg always (some message) 3 5 busy ≡ ok (0, frame message 3, sys'))
send_msg_sends_example =
    send_msg_sends always message 3 5 busy (granted (2 ^ 31)) (omega arith) (omega arith)
      (omega arith) (omega arith) (again ready) bytes-Taken

send_msg-frame_example : (on_the_wire ≡ frame message 3) × (0 < 3) × (3 + 4 < 2 ^ 31) × (3 ≤ 3)
send_msg-frame_example = send_msg-frame always message 3 5 busy after on_the_wire sent_in_two

abbrev hearing : List (Answer (List ℕ)) → Sys
hearing reads = record { errno = 0; selects = done 1 ∷ []; reads = reads; writes = [] }

abbrev arriving : List (Answer (List ℕ))
arriving =
    done (0 ∷ 0 ∷ []) ∷ failed eintr ∷ done (0 ∷ 3 ∷ []) ∷ done (7 ∷ 8 ∷ []) ∷ done (9 ∷ []) ∷ []

recv_msg-send_msg_example :
    (peer' : Sys) × (recv_msg always true 5 (hearing arriving)
      ≡ ok (0, some (take 3 message ++ (0 ∷ []), 3), peer'))
    × (peer'.reads ≡ [])
recv_msg-send_msg_example =
    recv_msg-send_msg always always message 3 5 5 busy after (hearing arriving) on_the_wire
      (0 ∷ 0 ∷ 0 ∷ 3 ∷ []) message sent_in_two (granted (2 ^ 31)) (omega arith) ready refl refl
      (piece 0 (0 ∷ []) _ refl (interrupted (omega arith) (piece 0 (3 ∷ []) _ refl whole)))
      (piece 7 (8 ∷ []) _ refl (piece 9 [] _ refl whole))

abbrev breaking_off : List (Answer (List ℕ))
breaking_off = done (0 ∷ 0 ∷ 0 ∷ 3 ∷ []) ∷ done (7 ∷ []) ∷ done [] ∷ []

recv_msg_closed_example :
    (peer' : Sys) × (recv_msg always true 5 (hearing breaking_off)
      ≡ ok (peer_close_error, none, peer'))
unfolding host_int
recv_msg_closed_example =
    recv_msg_closed always 5 (hearing breaking_off) (omega arith) ready 3 (0 ∷ 0 ∷ 0 ∷ 3 ∷ [])
      (7 ∷ []) (granted (2 ^ 31)) (omega arith)
      (inr
        (piece 0 (0 ∷ 0 ∷ 3 ∷ []) _ refl whole, refl, refl, piece 7 [] _ refl whole, omega arith))

-- A connection that is refused: ECONNREFUSED.
abbrev refused : Dial
refused = record {
  errno = 0;
  nonblock = false;
  fcntls = done tt ∷ done tt ∷ done tt ∷ done tt ∷ [];
  selects = failed eintr ∷ done 1 ∷ [];
  socket = done 3;
  connect = failed einprogress;
  sockopt = done 111;
}

connect_in_progress_example :
    (d' : Dial) × (connect_to_host true 80 5 refused ≡ ok (minus_one, d')) × (d'.nonblock ≡ false)
connect_in_progress_example =
    connect_in_progress (done 1) 3 80 5 refused (omega arith) (omega arith) (omega arith) refl refl
      refl (later now) (omega arith)

-- EMFILE.
abbrev no_more_files : TcpServer
no_more_files = record {
  m_lfd = 3;
  errno = 0;
  selects = done 1 ∷ [];
  socket = done 3;
  setsockopt = done tt;
  bind = done tt;
  listen = done tt;
  accept = failed 24;
}

listens : set_listen no_more_files ≡ (0, no_more_files)
unfolding set_listen
listens = refl

accept_conn_hands_out_example : (s' : TcpServer) × (accept_conn 5 no_more_files ≡ ok (some 24, s'))
accept_conn_hands_out_example =
    accept_conn_hands_out (done 1) 5 no_more_files (omega arith) (omega arith) now (omega arith)
      (omega arith)
