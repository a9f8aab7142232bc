-- ===== src/TcpSocket/Message/RoundTrip.antt =====
-- A message sent by sendMsg and received by recvMsg.
use safe_transmission.Common.{
  ℕ, ◌+◌, ◌^◌, ◌≤◌, ◌<◌, ◌≡◌, refl, sym, ap, ◌∙◌, arith, true, List, [], ◌∷◌, ◌++◌, some, length,
  take, drop, ok, take-append, drop-append, length-take,
}
use safe_transmission.BaseAsn1.Memory.{Allocator, Grants}
use safe_transmission.TcpSocket.Os.{Answer, Sys}
use safe_transmission.TcpSocket.Stream.{readn}
use safe_transmission.TcpSocket.Stream.Pieces.{Pieces, read_loop-Pieces}
use safe_transmission.TcpSocket.Timeout.Ready.{Ready, read_timeout-Ready}
use safe_transmission.TcpSocket.Message.{
  net_bytes, host_int, send_msg, recv_msg, recv_frame, recv_body,
}
use safe_transmission.TcpSocket.Message.Frame.{send_msg-frame}

pub host_int-net_bytes : (n : ℕ) → n < 2 ^ 32 → host_int (net_bytes n) ≡ ok n
unfolding host_int
host_int-net_bytes n h = ap ok (omega arith)

pub readn-Pieces :
    {rest reads : List (Answer (List ℕ))} (room count : ℕ) {bytes : List ℕ}
    → Pieces rest reads bytes
    → count ≡ length bytes
    → count < 2 ^ 31
    → count ≤ room
    → readn room count reads ≡ ok (count, bytes, rest)
unfolding readn
readn-Pieces room count p size small fits =
    ground (arith, read_loop-Pieces room count p size (omega (arith, size)))

pub recv_body-Pieces :
    (malloc : Allocator) {rest : List (Answer (List ℕ))} (n : ℕ) (sys : Sys) {body : List ℕ}
    → malloc (n + 1) ≡ true
    → n + 1 < 2 ^ 31
    → Pieces rest sys.reads body
    → n ≡ length body
    → recv_body malloc n sys ≡ ok (0, some (body ++ (0 ∷ []), n), record sys { reads = rest })
unfolding recv_body
recv_body-Pieces malloc n sys granted small p size =
    ground (arith, granted, readn-Pieces (n + 1) n p size (omega arith) (omega arith))

pub recv_frame-Pieces :
    (malloc : Allocator) {mid rest : List (Answer (List ℕ))} (n : ℕ) (sys : Sys)
    {header body : List ℕ}
    → malloc (n + 1) ≡ true
    → n + 1 < 2 ^ 31
    → Pieces mid sys.reads header
    → length header ≡ 4
    → host_int header ≡ ok n
    → Pieces rest mid body
    → n ≡ length body
    → recv_frame malloc sys ≡ ok (0, some (body ++ (0 ∷ []), n), record sys { reads = rest })
unfolding recv_frame
recv_frame-Pieces malloc {mid} n sys granted small p four value q size = ground (
  arith,
  readn-Pieces 4 4 p (sym four) (omega arith) (omega arith),
  value,
  recv_body-Pieces malloc n (record sys { reads = mid }) granted small q size,
)

-- If TcpSocket::sendMsg returned 0, the bytes that it sent reach the other side in pieces of any sizes
-- with any interruptions, no piece holding both bytes of the length and bytes behind it, the wait there
-- ends with the socket ready, and memory is granted, then TcpSocket::recvMsg hands out the dataLen bytes
-- that were given to sendMsg, a zero behind them, and dataLen.
pub recv_msg-send_msg :
    (malloc malloc' : Allocator) (bytes : List ℕ) (data_len timeout timeout' : ℕ)
    (sys sys' peer : Sys) (sent header body : List ℕ) {selects : List (Answer ℕ)}
    {mid rest : List (Answer (List ℕ))}
    → send_msg malloc (some bytes) data_len timeout sys ≡ ok (0, sent, sys')
    → Grants malloc' (2 ^ 31)
    → 0 < timeout'
    → Ready selects peer.selects
    → sent ≡ header ++ body
    → length header ≡ 4
    → Pieces mid peer.reads header
    → Pieces rest mid body
    → (peer' : Sys) × (recv_msg malloc' true timeout' peer
        ≡ ok (0, some (take data_len bytes ++ (0 ∷ []), data_len), peer'))
      × (peer'.reads ≡ rest)
unfolding recv_msg
recv_msg-send_msg malloc malloc' bytes data_len timeout timeout' sys sys' peer sent header body
      {selects} {mid} {rest} h granted t r split four p q =
    let f = send_msg-frame malloc bytes data_len timeout sys sys' sent h in
    let (e, waited) = read_timeout-Ready timeout' peer t r in
    let same = sym f.0 ∙ split in
    let head : net_bytes data_len ≡ header =
      ap (take 4) same ∙ take-append 4 header body (sym four) in
    let tail : take data_len bytes ≡ body =
      ap (drop 4) same ∙ drop-append 4 header body (sym four) in
    let value : host_int header ≡ ok data_len =
      ap host_int (sym head) ∙ host_int-net_bytes data_len (omega (arith, f.2)) in
    let size : data_len ≡ length body = sym (length-take data_len bytes f.3) ∙ ap length tail in
    let received =
      recv_frame-Pieces malloc' data_len (record peer { errno = e; selects = selects })
        (granted (data_len + 1) (omega (arith, f.2))) (omega (arith, f.2)) p four value q size in
    (
      record peer { errno = e; selects = selects; reads = rest },
      ground (arith, waited, received, tail),
      refl,
    )
