-- ===== src/Draft/Epoll/Receiving.antt =====
-- What Epoll::recvdata makes of whatever recv answers.
use safe_transmission.Common.{
  ℕ, suc, ◌+◌, ◌^◌, ◌≤◌, ◌<◌, ◌≡◌, refl, sym, ap, ◌∙◌, arith, true, List, [], ◌∷◌, ◌++◌, some,
  length, All, int_of, ok,
}
use safe_transmission.BaseAsn1.Memory.{Allocator}
use safe_transmission.TcpSocket.Os.{Answer, done, failed}
use safe_transmission.Draft.{Conn, recv}
use safe_transmission.Draft.Epoll.{closed, recv_loop, recvdata}

-- recv of one byte gives one byte at most.
abbrev pub AtMostOne : Answer (List ℕ) → Type 0
AtMostOne (failed e) = Unit {0}
AtMostOne (done chunk) = length chunk ≤ 1

-- The byte that such a call leaves.
abbrev pub byte_of : Answer (List ℕ) → ℕ
byte_of (failed e) = 0
byte_of (done []) = 0
byte_of (done (b ∷ chunk)) = b

abbrev pub bytes_of : List (Answer (List ℕ)) → List ℕ
bytes_of [] = []
bytes_of (a ∷ more) = byte_of a ∷ bytes_of more

-- How often the end of the stream was answered.
abbrev pub ends : List (Answer (List ℕ)) → ℕ
ends [] = 0
ends (failed e ∷ more) = ends more
ends (done [] ∷ more) = suc (ends more)
ends (done (b ∷ chunk) ∷ more) = ends more

pub recv_loop_result :
    (now rest : List (Answer (List ℕ))) (c : Conn)
    → c.recvs ≡ now ++ rest
    → All AtMostOne now
    → recv_loop (length now) c
      ≡ ok (bytes_of now, record c { recvs = rest; closes = c.closes + ends now })
unfolding recv_loop recv
recv_loop_result [] rest c e one = ground (arith, e)
recv_loop_result (failed n ∷ now) rest c e one =
    let later = recv_loop_result now rest (record c { recvs = now ++ rest }) refl one.1 in
    rw (e, later) refl
recv_loop_result (done [] ∷ now) rest c e one =
    let later = recv_loop_result now rest (closed (record c { recvs = now ++ rest })) refl one.1 in
    rw (e, later)
      (ap (λ k. ok (0 ∷ bytes_of now, record c { recvs = rest; closes = k })) (omega arith))
recv_loop_result (done (b ∷ []) ∷ now) rest c e one =
    let later = recv_loop_result now rest (record c { recvs = now ++ rest }) refl one.1 in
    rw (e, later) refl
recv_loop_result (done (b ∷ b' ∷ chunk) ∷ now) rest c e one =
    absurd (let few = one.0 in omega arith)

-- If memory is granted, the first call of recv gives four bytes that are a positive `int`, and each of
-- the next as many calls gives a byte at most, then Epoll::recvdata returns that number and as many
-- bytes: the byte of each call, and 0 for a call that failed, though its byte may only be late on a
-- socket that does not block, and for a call that found the stream ended, after each of which the
-- descriptor is closed.
pub recvdata_result :
    (malloc : Allocator) (w x y z n : ℕ) (now rest : List (Answer (List ℕ))) (c : Conn)
    → malloc n ≡ true
    → int_of (w ∷ x ∷ y ∷ z ∷ []) ≡ n
    → length now ≡ n
    → 0 < n
    → n < 2 ^ 31
    → c.recvs ≡ done (w ∷ x ∷ y ∷ z ∷ []) ∷ (now ++ rest)
    → All AtMostOne now
    → recvdata malloc c
      ≡ ok (n, some (bytes_of now), record c { recvs = rest; closes = c.closes + ends now })
unfolding recvdata recv
recvdata_result malloc w x y z n now rest c granted value count some_bytes small e one =
    let loop =
      ap (λ k. recv_loop k (record c { recvs = now ++ rest })) (sym count)
      ∙ recv_loop_result now rest (record c { recvs = now ++ rest }) refl one in
    ground (arith, e, value, granted, loop)
