-- ===== src/TcpSocket/Message.antt =====
-- TcpSocket::sendMsg and TcpSocket::recvMsg. Their codes are values here, since errno and the answers
-- that are left matter after an error too.
pub mod Frame
pub mod RoundTrip
pub mod Failures
use safe_transmission.Common.{
  ℕ, ◌+◌, ◌-◌, ◌*◌, ◌/◌, ◌%◌, ◌^◌, Bool, true, false, List, [], ◌∷◌, ◌++◌, Option, none, some, ltb,
  ◌==◌, ◌&&◌, ◌||◌, if◌then◌else◌, not, length, to_int, int_to_ulong, is_positive, minus_one,
  Result, ok, fault, ◌>>=◌, ◌>>◌, need,
}
use safe_transmission.BaseAsn1.Memory.{Allocator, read_bytes}
use safe_transmission.TcpSocket.Os.{Answer, Sys, etimedout}
use safe_transmission.TcpSocket.Stream.{readn, writen}
use safe_transmission.TcpSocket.Timeout.{read_timeout, write_timeout}

-- enum ErrorType.
abbrev pub param_error : ℕ
param_error = 3001

abbrev pub timeout_error : ℕ
timeout_error = 3002

abbrev pub peer_close_error : ℕ
peer_close_error = 3003

abbrev pub malloc_error : ℕ
malloc_error = 3004

-- htonl of an `int`, as the four bytes in memory, and ntohl.
abbrev pub net_bytes : ℕ → List ℕ
net_bytes n = n / 16777216 % 256 ∷ n / 65536 % 256 ∷ n / 256 % 256 ∷ n % 256 ∷ []

unfoldable pub host_int : List ℕ → Result ℕ
host_int (a ∷ b ∷ c ∷ d ∷ []) = ok (a * 16777216 + b * 65536 + c * 256 + d)
host_int _ = fault

-- `a < b`, for two `int`s.
abbrev pub int_ltb : ℕ → ℕ → Bool
int_ltb a b = ltb ((a + 2 ^ 31) % 2 ^ 32) ((b + 2 ^ 31) % 2 ^ 32)

-- The code of a failed wait in sendMsg.
abbrev pub send_code : ℕ → ℕ → ℕ
send_code ret errno = if (ret == minus_one) && (errno == etimedout) then timeout_error else ret

module _ (malloc : Allocator) where
  -- The part of sendMsg behind the wait.
  unfoldable pub send_frame : List ℕ → ℕ → Sys → Result (ℕ × List ℕ × Sys)
  send_frame bytes data_len sys = do
    need (ltb (data_len + 4) (2 ^ 31))
    let rest : Result (ℕ × List ℕ × Sys) = do
      body ← read_bytes data_len bytes
      (writed, sent, writes) ← writen (net_bytes data_len ++ body) (data_len + 4) sys.writes
      ok (
        (if int_ltb writed (data_len + 4) then writed else 0),
        sent,
        record sys { writes = writes },
      )
    if malloc (data_len + 4) then rest else ok (malloc_error, [], sys)

  -- The code returned, the bytes that went out, and the state after the call.
  unfoldable pub send_msg : Option (List ℕ) → ℕ → ℕ → Sys → Result (ℕ × List ℕ × Sys)
  send_msg none data_len timeout sys = ok (param_error, [], sys)
  send_msg (some bytes) data_len timeout sys =
      if is_positive data_len
      then (do
        (ret, sys') ← write_timeout timeout sys
        if ret == 0
            then send_frame bytes data_len sys'
            else ok (send_code ret sys'.errno, [], sys'))
      else ok (param_error, [], sys)

  -- The part of recvMsg behind the length: `n` is the `int` received.
  unfoldable pub recv_body : ℕ → Sys → Result (ℕ × Option (List ℕ × ℕ) × Sys)
  recv_body n sys = do
    need (not (n == 2 ^ 31 - 1))
    let room = int_to_ulong (to_int (n + 1))
    let rest : Result (ℕ × Option (List ℕ × ℕ) × Sys) = do
      (ret, bytes, reads) ← readn room n sys.reads
      let sys' : Sys = record sys { reads = reads }
      let whole : Result (ℕ × Option (List ℕ × ℕ) × Sys) = do
        need (ltb n room)
        ok (0, some (bytes ++ (0 ∷ []), n), sys')
      if ret == minus_one
          then ok (minus_one, none, sys')
          else if int_ltb ret n
          then ok (peer_close_error, none, sys')
          else whole
    if malloc room then rest else ok (malloc_error, none, sys)

  -- The part of recvMsg behind the wait.
  unfoldable pub recv_frame : Sys → Result (ℕ × Option (List ℕ × ℕ) × Sys)
  recv_frame sys = do
    (ret, header, reads) ← readn 4 4 sys.reads
    let sys' : Sys = record sys { reads = reads }
    let rest : Result (ℕ × Option (List ℕ × ℕ) × Sys) = do n ← host_int header; recv_body n sys'
    if ret == minus_one
        then ok (minus_one, none, sys')
        else if int_ltb ret 4
        then ok (peer_close_error, none, sys')
        else rest

  -- The code returned, the block and the length that are handed out, and the state after the call.
  -- `asked` says whether `recvData` is a pointer that is not null.
  unfoldable pub recv_msg : Bool → ℕ → Sys → Result (ℕ × Option (List ℕ × ℕ) × Sys)
  recv_msg false timeout sys = ok (param_error, none, sys)
  recv_msg true timeout sys = do
    (ret, sys') ← read_timeout timeout sys
    if ret == 0
        then recv_frame sys'
        else ok (
          (if (ret == minus_one) || (sys'.errno == etimedout) then timeout_error else ret),
          none,
          sys',
        )
