-- ===== src/TcpSocket/Message/Failures.antt =====
-- What recvMsg answers when the connection is closed early.
use safe_transmission.Common.{
  ℕ, ◌+◌, ◌^◌, ◌≤◌, ◌<◌, ◌≡◌, ◌⊎◌, sym, arith, true, List, [], ◌∷◌, none, length, ok, inl, inr,
}
use safe_transmission.BaseAsn1.Memory.{Allocator, Grants}
use safe_transmission.TcpSocket.Os.{Answer, done, Sys}
use safe_transmission.TcpSocket.Stream.{readn}
use safe_transmission.TcpSocket.Stream.Pieces.{Pieces, read_loop-closed}
use safe_transmission.TcpSocket.Timeout.Ready.{Ready, read_timeout-Ready}
use safe_transmission.TcpSocket.Message.{
  host_int, recv_msg, recv_frame, recv_body, peer_close_error,
}
use safe_transmission.TcpSocket.Message.RoundTrip.{readn-Pieces}

pub readn-closed :
    {rest reads : List (Answer (List ℕ))} (room count : ℕ) {bytes : List ℕ}
    → Pieces (done [] ∷ rest) reads bytes
    → length bytes < count
    → count < 2 ^ 31
    → count ≤ room
    → readn room count reads ≡ ok (length bytes, bytes, rest)
unfolding readn
readn-closed room count p part small fits =
    ground (arith, read_loop-closed room count p (omega arith) (omega arith))

module _ (malloc : Allocator) (timeout : ℕ) (peer : Sys) {selects : List (Answer ℕ)}
    (t : 0 < timeout) (r : Ready selects peer.selects) where
  -- If the wait ends with the socket ready, and the peer closes the connection before the fourth byte,
  -- or, where memory is granted, after a length n below 2 ^ 31 - 1 and before the n-th byte behind it,
  -- TcpSocket::recvMsg answers PeerCloseError.
  pub recv_msg_closed :
      {mid rest : List (Answer (List ℕ))} (n : ℕ) (header body : List ℕ)
      → Grants malloc (2 ^ 31)
      → n + 1 < 2 ^ 31
      → (Pieces (done [] ∷ rest) peer.reads header × (length header < 4))
        ⊎ (Pieces mid peer.reads header
            × (length header ≡ 4)
            × (host_int header ≡ ok n)
            × Pieces (done [] ∷ rest) mid body
            × (length body < n))
      → (peer' : Sys) × (recv_msg malloc true timeout peer ≡ ok (peer_close_error, none, peer'))
  unfolding recv_msg recv_frame recv_body
  recv_msg_closed {rest} n header body granted small (inl early) =
      let (e, waited) = read_timeout-Ready timeout peer t r in
      let got = readn-closed 4 4 early.0 early.1 (omega arith) (omega arith) in
      (
        record peer { errno = e; selects = selects; reads = rest },
        ground (arith, waited, got, early.1),
      )
  recv_msg_closed {mid} {rest} n header body granted small (inr late) =
      let (e, waited) = read_timeout-Ready timeout peer t r in
      let head = readn-Pieces 4 4 late.0 (sym late.1) (omega arith) (omega arith) in
      let got = readn-closed (n + 1) n late.3 late.4 (omega arith) (omega arith) in
      (
        record peer { errno = e; selects = selects; reads = rest },
        ground (arith, waited, head, late.2, granted (n + 1), got, late.4),
      )
