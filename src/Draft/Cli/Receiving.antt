-- ===== src/Draft/Cli/Receiving.antt =====
-- What recvdata of the draft client makes of bytes that come one by one.
use safe_transmission.Common.{
  ℕ, zero, suc, ◌^◌, ◌<◌, ◌≡◌, refl, sym, ap, ◌∙◌, arith, true, List, [], ◌∷◌, ◌++◌, none, some,
  inl, inr, length, int_of, ok,
}
use safe_transmission.BaseAsn1.Memory.{Allocator}
use safe_transmission.TcpSocket.Os.{Answer, done}
use safe_transmission.Draft.{Conn, recv}
use safe_transmission.Draft.Cli.{ended_by, recv_loop, recvdata}

-- A call of recv for each byte.
abbrev pub one_by_one : List ℕ → List (Answer (List ℕ))
one_by_one [] = []
one_by_one (b ∷ bytes) = done (b ∷ []) ∷ one_by_one bytes

recv_loop_all :
    (bytes : List ℕ) (rest : List (Answer (List ℕ))) (c : Conn)
    → c.recvs ≡ one_by_one bytes ++ rest
    → recv_loop (length bytes) c ≡ ok (inr bytes, record c { recvs = rest })
unfolding recv_loop recv ended_by
recv_loop_all [] rest c e = ground (arith, e)
recv_loop_all (b ∷ bytes) rest c e =
    let later = recv_loop_all bytes rest (record c { recvs = one_by_one bytes ++ rest }) refl in
    rw (e, later) refl

recv_loop_ended :
    (bytes : List ℕ) (n : ℕ) (rest : List (Answer (List ℕ))) (c : Conn)
    → length bytes < n
    → c.recvs ≡ one_by_one bytes ++ (done [] ∷ rest)
    → recv_loop n c ≡ ok (inl 0, record c { recvs = rest })
unfolding recv_loop recv ended_by
recv_loop_ended bytes zero rest c fewer e = absurd (omega arith)
recv_loop_ended [] (suc n) rest c fewer e = rw e refl
recv_loop_ended (b ∷ bytes) (suc n) rest c fewer e =
    let later =
      recv_loop_ended bytes n rest (record c { recvs = one_by_one bytes ++ (done [] ∷ rest) })
        (omega arith) refl in
    rw (e, later) refl

-- The whole message has come.
pub recvdata_all :
    (malloc : Allocator) (w x y z n : ℕ) (bytes : List ℕ) (rest : List (Answer (List ℕ))) (c : Conn)
    → malloc n ≡ true
    → int_of (w ∷ x ∷ y ∷ z ∷ []) ≡ n
    → length bytes ≡ n
    → 0 < n
    → n < 2 ^ 31
    → c.recvs ≡ done (w ∷ x ∷ y ∷ z ∷ []) ∷ (one_by_one bytes ++ rest)
    → recvdata malloc c ≡ ok (n, some bytes, record c { recvs = rest })
unfolding recvdata recv ended_by
recvdata_all malloc w x y z n bytes rest c granted value count some_bytes small e =
    let loop =
      ap (λ k. recv_loop k (record c { recvs = one_by_one bytes ++ rest })) (sym count)
      ∙ recv_loop_all bytes rest (record c { recvs = one_by_one bytes ++ rest }) refl in
    ground (arith, e, value, granted, loop)

-- The stream ends in the middle of the message.
pub recvdata_ended :
    (malloc : Allocator) (w x y z : ℕ) (bytes : List ℕ) (n : ℕ) (rest : List (Answer (List ℕ)))
    (c : Conn)
    → malloc n ≡ true
    → int_of (w ∷ x ∷ y ∷ z ∷ []) ≡ n
    → length bytes < n
    → n < 2 ^ 31
    → c.recvs ≡ done (w ∷ x ∷ y ∷ z ∷ []) ∷ (one_by_one bytes ++ (done [] ∷ rest))
    → recvdata malloc c ≡ ok (0, none, record c { recvs = rest })
unfolding recvdata recv ended_by
recvdata_ended malloc w x y z bytes n rest c granted value fewer small e =
    let loop =
      recv_loop_ended bytes n rest (record c { recvs = one_by_one bytes ++ (done [] ∷ rest) }) fewer
        refl in
    ground (arith, e, value, granted, loop)
