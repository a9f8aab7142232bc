-- ===== src/TcpSocket/Message/Frame.antt =====
-- What goes over the wire, whatever the system answers.
use safe_transmission.Common.{
  ℕ, ◌+◌, ◌^◌, ◌≤◌, ◌<◌, ◌≡◌, sym, ap, ◌∙◌, arith, List, ◌++◌, some, length, take, ok, ok_parts,
  need, need-eq-ok, ltb, ◌==◌, if◌then◌else◌, is_positive, minus_one, ltb→lt, take_all, length-take,
  int_to_ulong, leb, inl, inr, Bool-cases, ◌⊎◌,
}
use safe_transmission.BaseAsn1.Memory.{Allocator, Grants, read_bytes}
use safe_transmission.TcpSocket.Os.{Answer, Sys}
use safe_transmission.TcpSocket.Stream.{writen, write_loop}
use safe_transmission.TcpSocket.Stream.Pieces.{Taken, write_loop-Taken, write_loop_in_order}
use safe_transmission.TcpSocket.Timeout.{write_timeout}
use safe_transmission.TcpSocket.Timeout.Ready.{Ready, write_timeout-Ready}
use safe_transmission.TcpSocket.Message.{net_bytes, int_ltb, send_frame, send_msg}

-- A message of `data_len` bytes as it is sent: the length in network order, and the bytes.
abbrev pub frame : List ℕ → ℕ → List ℕ
frame bytes data_len = net_bytes data_len ++ take data_len bytes

pub writen-Taken :
    {rest : List (Answer ℕ)} (buf : List ℕ) (count : ℕ) {writes : List (Answer ℕ)}
    → length buf ≡ count
    → count < 2 ^ 31
    → Taken rest writes buf
    → writen buf count writes ≡ ok (count, buf, rest)
unfolding writen
writen-Taken buf count size small t =
    ground (arith, write_loop-Taken buf t, take_all count buf (sym size))

-- If a wait for the socket ends with it ready, memory is granted, 0 < dataLen < 2 ^ 31 - 4, the block
-- holds dataLen bytes, and the writes take the message in any pieces, with any interruptions, then
-- TcpSocket::sendMsg answers 0 and has sent the length in network order and the bytes.
pub send_msg_sends :
    (malloc : Allocator) {rest rest' : List (Answer ℕ)} (bytes : List ℕ) (data_len timeout : ℕ)
    (sys : Sys)
    → Grants malloc (2 ^ 31)
    → 0 < data_len
    → data_len + 4 < 2 ^ 31
    → data_len ≤ length bytes
    → 0 < timeout
    → Ready rest sys.selects
    → Taken rest' sys.writes (frame bytes data_len)
    → (sys' : Sys) × (send_msg malloc (some bytes) data_len timeout sys
        ≡ ok (0, frame bytes data_len, sys'))
unfolding send_msg send_frame read_bytes
send_msg_sends malloc {rest} {rest'} bytes data_len timeout sys granted pos small fits t r
      accepted =
    let (e, waited) = write_timeout-Ready timeout sys t r in
    let size = length-take data_len bytes fits in
    let gone =
      writen-Taken (frame bytes data_len) (data_len + 4) (omega (arith, size)) small accepted in
    (
      record sys { errno = e; selects = rest; writes = rest' },
      ground (arith, waited, gone, size, granted (data_len + 4)),
    )

-- What writen returned and what went out.
writen_in_order :
    (buf : List ℕ) (count : ℕ) (writes rest : List (Answer ℕ)) (ret : ℕ) (sent : List ℕ)
    → length buf ≡ count
    → count < 2 ^ 31
    → writen buf count writes ≡ ok (ret, sent, rest)
    → (ret ≡ minus_one) ⊎ ((ret ≡ count) × (sent ≡ buf))
unfolding writen
writen_in_order buf count writes rest ret sent size small h =
    let wide : int_to_ulong count ≡ count = ground arith in
    let taken : take (int_to_ulong count) buf ≡ buf = rw wide (take_all count buf (sym size)) in
    let fits = ok_parts (need (leb (int_to_ulong count) (length buf))) _ h in
    let call = ok_parts (write_loop (take (int_to_ulong count) buf) writes) _ fits.2 in
    let (out, all, left) = call.0 in
    let order = write_loop_in_order (take (int_to_ulong count) buf) writes left out all call.1 in
    elim (Bool-cases all) [
      | inl whole ↦ inr (
        ground (arith, call.2, whole),
        (let gone : sent ≡ out = cc in gone ∙ order.2 whole ∙ taken),
      )
      | inr part ↦ inl (ground (arith, call.2, part))
    ]

read_bytes-eq-ok :
    (n : ℕ) (src : List ℕ) {bytes : List ℕ}
    → read_bytes n src ≡ ok bytes
    → (bytes ≡ take n src) × (n ≤ length src)
unfolding read_bytes
read_bytes-eq-ok n src h = ground arith

send_frame_in_order :
    (malloc : Allocator) (bytes : List ℕ) (data_len : ℕ) (sys sys' : Sys) (sent : List ℕ)
    → send_frame malloc bytes data_len sys ≡ ok (0, sent, sys')
    → (sent ≡ frame bytes data_len) × (data_len + 4 < 2 ^ 31) × (data_len ≤ length bytes)
unfolding send_frame
send_frame_in_order malloc bytes data_len sys sys' sent h =
    let small = ok_parts (need (ltb (data_len + 4) (2 ^ 31))) _ h in
    let bound = ltb→lt (data_len + 4) (2 ^ 31) (need-eq-ok _ small.1) in
    elim (Bool-cases (malloc (data_len + 4))) [
      | inr none_left ↦ absurd (ground (arith, small.2))
      | inl some_left ↦
          let body = ok_parts (read_bytes data_len bytes) _ (rw some_left at (small.2)) in
          let copied = read_bytes-eq-ok data_len bytes body.1 in
          let call =
            ok_parts (writen (net_bytes data_len ++ body.0) (data_len + 4) sys.writes) _ body.2 in
          let (ret, out, left) = call.0 in
          let size = length-take data_len bytes copied.1 in
          let order =
            writen_in_order (net_bytes data_len ++ body.0) (data_len + 4) sys.writes left ret out
              (omega (arith, ap length copied.0, size)) bound call.1 in
          let code : (if int_ltb ret (data_len + 4) then ret else 0) ≡ 0 = cc in
          let gone : sent ≡ out = cc in
          elim order [
            | inl broke ↦ absurd (ground (arith, broke, code, bound))
            | inr went ↦
                (gone ∙ went.1 ∙ ap (λ t. net_bytes data_len ++ t) copied.0, bound, copied.1)
          ]
    ]

-- Whatever the system answers, if TcpSocket::sendMsg returns 0 it has sent exactly the length in
-- network order and the first dataLen bytes of the block, and dataLen is positive and below 2 ^ 31 - 4.
pub send_msg-frame :
    (malloc : Allocator) (bytes : List ℕ) (data_len timeout : ℕ) (sys sys' : Sys) (sent : List ℕ)
    → send_msg malloc (some bytes) data_len timeout sys ≡ ok (0, sent, sys')
    → (sent ≡ frame bytes data_len)
      × (0 < data_len)
      × (data_len + 4 < 2 ^ 31)
      × (data_len ≤ length bytes)
unfolding send_msg
send_msg-frame malloc bytes data_len timeout sys sys' sent h =
    elim (Bool-cases (is_positive data_len)) [
      | inr no_length ↦ absurd (ground (arith, no_length))
      | inl pos ↦
          let call = ok_parts (write_timeout timeout sys) _ (rw pos at h) in
          let (ret, sys₁) = call.0 in
          elim (Bool-cases (ret == 0)) [
            | inl ready ↦
                let done =
                  send_frame_in_order malloc bytes data_len sys₁ sys' sent (rw ready at (call.2)) in
                (done.0, ground (arith, pos), done.1, done.2)
            | inr other ↦ absurd (ground (arith, other, call.2))
          ]
    ]
