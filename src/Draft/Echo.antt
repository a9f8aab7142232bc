-- ===== src/Draft/Echo.antt =====
-- The drafts of client and server together.
use safe_transmission.Common.{
  ℕ, zero, suc, ◌+◌, ◌-◌, ◌%◌, ◌/◌, append-nil, ◌^◌, ◌≤◌, ◌<◌, ◌≡◌, refl, sym, ap, ◌∙◌, arith, true,
  List, [], ◌∷◌, ◌++◌, Option, none, some, length, take, All, int_of, int_bytes, ok, length-take,
  take_all, to_int, append_assoc,
}
use safe_transmission.BaseAsn1.Memory.{Allocator, Grants, read_bytes}
use safe_transmission.TcpSocket.Os.{Answer, done}
use safe_transmission.Draft.{Conn, packed, read_data, send}
use safe_transmission.Draft.Epoll
use safe_transmission.Draft.Epoll.{func}
use safe_transmission.Draft.Epoll.Receiving.{AtMostOne, bytes_of, ends, recvdata_result}
use safe_transmission.Draft.Cli
use safe_transmission.Draft.Cli.Receiving.{one_by_one, recvdata_all, recvdata_ended}

int_of-int_bytes : (n : ℕ) → n < 2 ^ 32 → int_of (int_bytes n) ≡ n
int_of-int_bytes n h = omega arith

-- What comes of bytes one by one, with more calls behind them.
bytes_come :
    (bytes : List ℕ) (now : List (Answer (List ℕ)))
    → (bytes_of (one_by_one bytes ++ now) ≡ bytes ++ bytes_of now)
      × (ends (one_by_one bytes ++ now) ≡ ends now)
      × (length (one_by_one bytes ++ now) ≡ length bytes + length now)
      × (All AtMostOne now → All AtMostOne (one_by_one bytes ++ now))
bytes_come [] now = (refl, refl, omega arith, λ one. one)
bytes_come (b ∷ bytes) now =
    let (same, count, size, one) = bytes_come bytes now in
    (ap (◌∷◌ b) same, count, omega arith, λ fit. (omega arith, one fit))

read_data_there :
    (n : ℕ) (bytes : List ℕ) → n ≤ length bytes → read_data n (some bytes) ≡ ok (take n bytes)
unfolding read_data read_bytes
read_data_there zero bytes h = refl
read_data_there (suc n) bytes h = ground arith

packed_result :
    (malloc : Allocator) (bytes : List ℕ) (len : ℕ)
    → malloc (len + 4) ≡ true
    → 0 < len
    → len + 4 < 2 ^ 31
    → len ≤ length bytes
    → packed malloc (some bytes) len ≡ ok (int_bytes len ++ take len bytes)
unfolding packed read_data read_bytes
packed_result malloc bytes len granted some_bytes small there =
    let size : to_int (len + 4) ≡ len + 4 = omega arith in
    let body : len + 4 - 4 ≡ len = omega arith in
    let read : read_data len (some bytes) ≡ ok (take len bytes) = read_data_there len bytes there in
    ground (arith, size, body, read, granted)

send_all :
    (parcel : List ℕ) (more : List (Answer ℕ)) (c : Conn)
    → c.sends ≡ done (length parcel) ∷ more
    → send parcel c ≡ ok (true, record c { sends = more; sent = c.sent ++ parcel })
unfolding send
send_all parcel more c e =
    let whole = take_all (length parcel) parcel refl in ground (arith, e, whole)

-- What the client sends in one call of send, and how it comes: the length at once, then the bytes.
abbrev pub frame : List ℕ → ℕ → List ℕ
frame bytes len = int_bytes len ++ take len bytes

abbrev pub arriving : List ℕ → ℕ → List (Answer (List ℕ))
arriving bytes len = done (int_bytes len) ∷ one_by_one (take len bytes)

frame_size : (bytes : List ℕ) (len : ℕ) → len ≤ length bytes → length (frame bytes len) ≡ len + 4
frame_size bytes len there = omega (arith, length-take len bytes there)

-- Both functions that send, where send takes the package.
sends_frame :
    (malloc : Allocator) (bytes : List ℕ) (len : ℕ) (c : Conn) (more : List (Answer ℕ))
    → malloc (len + 4) ≡ true
    → 0 < len
    → len + 4 < 2 ^ 31
    → len ≤ length bytes
    → c.sends ≡ done (len + 4) ∷ more
    → let d : Conn = record c { sends = more; sent = c.sent ++ frame bytes len } in
      (Cli.senddata malloc (some bytes) len c ≡ ok (0, d))
      × (Epoll.senddata malloc (some bytes) len c ≡ ok (0, d))
unfolding Cli.senddata Epoll.senddata
sends_frame malloc bytes len c more granted some_bytes small there takes =
    let parcel = packed_result malloc bytes len granted some_bytes small there in
    let all =
      send_all (frame bytes len) more c
        (takes ∙ ap (λ k. done k ∷ more) (sym (frame_size bytes len there))) in
    (rw (parcel, all) refl, rw (parcel, all) refl)

-- What the server receives where its bytes come one by one, and then other answers.
server_receives :
    (malloc : Allocator) (bytes : List ℕ) (n : ℕ) (now later : List (Answer (List ℕ))) (c : Conn)
    → malloc n ≡ true
    → 0 < n
    → n < 2 ^ 31
    → length bytes + length now ≡ n
    → All AtMostOne now
    → c.recvs ≡ done (int_bytes n) ∷ ((one_by_one bytes ++ now) ++ later)
    → Epoll.recvdata malloc c
      ≡ ok (
        n,
        some (bytes ++ bytes_of now),
        record c { recvs = later; closes = c.closes + ends now },
      )
server_receives malloc bytes n now later c granted some_bytes small size one comes =
    let (same, count, many, fit) = bytes_come bytes now in
    recvdata_result malloc (n % 256) (n / 256 % 256) (n / 65536 % 256) (n / 16777216 % 256) n
      (one_by_one bytes ++ now) later c granted (int_of-int_bytes n (omega arith)) (many ∙ size)
      some_bytes small comes (fit one)
    ∙ ap
        (λ b. ok (
          n,
          some b,
          record c { recvs = later; closes = c.closes + ends (one_by_one bytes ++ now) },
        ))
        same
    ∙ ap
        (λ k.
          ok (n, some (bytes ++ bytes_of now), record c { recvs = later; closes = c.closes + k }))
        count

sends_back :
    (malloc : Allocator) (n ret : ℕ) (buf : Option (List ℕ)) (c d d' : Conn)
    → Epoll.recvdata malloc c ≡ ok (n, buf, d)
    → Epoll.senddata malloc buf n d ≡ ok (ret, d')
    → func malloc c ≡ ok d'
unfolding func
sends_back malloc n ret buf c d d' received sent = rw (received, sent) refl

-- If memory is granted, send takes whole packages, the length of a package comes at once and its bytes
-- one by one, then senddata of the client sends the length and the bytes that it is given, of any
-- positive number below 2 ^ 31 - 4; func of the server, called for these, sends the same back; and
-- recvdata of the client hands out the bytes and their number.
pub echo :
    (malloc : Allocator) (bytes : List ℕ) (len : ℕ) (client server client' : Conn)
    (sends sends' : List (Answer ℕ)) (later later' : List (Answer (List ℕ)))
    → Grants malloc (2 ^ 31)
    → 0 < len
    → len + 4 < 2 ^ 31
    → len ≤ length bytes
    → client.sends ≡ done (len + 4) ∷ sends
    → server.recvs ≡ arriving bytes len ++ later
    → server.sends ≡ done (len + 4) ∷ sends'
    → client'.recvs ≡ arriving bytes len ++ later'
    → (Cli.senddata malloc (some bytes) len client
        ≡ ok (0, record client { sends = sends; sent = client.sent ++ frame bytes len }))
      × (func malloc server
          ≡ ok (record server {
            recvs = later;
            sends = sends';
            sent = server.sent ++ frame bytes len;
          }))
      × (Cli.recvdata malloc client'
          ≡ ok (len, some (take len bytes), record client' { recvs = later' }))
echo malloc bytes len client server client' sends sends' later later' grants some_bytes small there
      takes comes takes' comes' =
    let t = take len bytes in
    let size = length-take len bytes there in
    let granted = grants len (omega arith) in
    let parcel = grants (len + 4) (omega arith) in
    let back =
      (sends_frame malloc t len (record server { recvs = later }) sends' parcel some_bytes small
        (omega arith) takes').1 in
    let heard : Epoll.recvdata malloc server ≡ ok (len, some t, record server { recvs = later }) =
      server_receives malloc t len [] later server granted some_bytes (omega arith) (omega arith) tt
        (comes ∙ ap (λ l. done (int_bytes len) ∷ (l ++ later)) (sym (append-nil (one_by_one t))))
      ∙ ap (λ b. ok (len, some b, record server { recvs = later; closes = server.closes + 0 }))
          (append-nil t)
      ∙ ap (λ k. ok (len, some t, record server { recvs = later; closes = k })) (omega arith) in
    let same : frame t len ≡ frame bytes len =
      ap (λ b. int_bytes len ++ b) (take_all len t (sym size)) in
    (
      (sends_frame malloc bytes len client sends parcel some_bytes small there takes).0,
      sends_back malloc len 0 (some t) server _ _ heard back
          ∙ ap (λ b. ok (record server { recvs = later; sends = sends'; sent = server.sent ++ b }))
              same,
      recvdata_all malloc (len % 256) (len / 256 % 256) (len / 65536 % 256) (len / 16777216 % 256)
          len t later' client' granted (int_of-int_bytes len (omega arith)) size some_bytes
          (omega arith) comes',
    )

-- If memory is granted, the length of a package of n bytes comes at once, fewer bytes follow one by one,
-- and then the stream ends: recvdata of the client returns 0 and sets no buffer; Epoll::recvdata of
-- the server, whatever recv answers for the missing bytes after it has closed the descriptor, returns n
-- and n bytes: those that came, and then the byte of each call, which is 0 where it gave none.
pub ended_midway :
    (malloc : Allocator) (bytes : List ℕ) (n : ℕ) (c : Conn) (errors later : List (Answer (List ℕ)))
    → malloc n ≡ true
    → n < 2 ^ 31
    → length bytes + suc (length errors) ≡ n
    → All AtMostOne errors
    → c.recvs ≡ done (int_bytes n) ∷ ((one_by_one bytes ++ (done [] ∷ errors)) ++ later)
    → (Cli.recvdata malloc c ≡ ok (0, none, record c { recvs = errors ++ later }))
      × (Epoll.recvdata malloc c
          ≡ ok (
            n,
            some (bytes ++ (0 ∷ bytes_of errors)),
            record c { recvs = later; closes = c.closes + suc (ends errors) },
          ))
ended_midway malloc bytes n c errors later granted small count one comes = (
  recvdata_ended malloc (n % 256) (n / 256 % 256) (n / 65536 % 256) (n / 16777216 % 256) bytes n
      (errors ++ later) c granted (int_of-int_bytes n (omega arith)) (omega arith) small
      (comes
        ∙ ap (λ l. done (int_bytes n) ∷ l)
            (append_assoc (one_by_one bytes) (done [] ∷ errors) later)),
  server_receives malloc bytes n (done [] ∷ errors) later c granted (omega arith) small count
      (omega arith, one) comes,
)
