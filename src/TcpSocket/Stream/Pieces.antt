-- ===== src/TcpSocket/Stream/Pieces.antt =====
-- Bytes that arrive, or go out, in pieces.
use safe_transmission.Common.{
  ℕ, zero, suc, ◌+◌, ◌-◌, ◌≤◌, ◌<◌, ◌≡◌, refl, sym, ap, ◌∙◌, arith, Bool, true, List, [], ◌∷◌, ◌++◌,
  leb, ◌==◌, length, take, drop, ok, length-append, append_assoc, le→leb, leb→le, ok_parts, need,
  need-eq-ok, Bool-cases, inl, inr, take-append-drop,
}
use safe_transmission.TcpSocket.Os.{Answer, done, failed, eintr}
use safe_transmission.TcpSocket.Stream.{Ending, full, closed, broken, read_loop, write_loop}

-- The bytes that a list of answers of `read` holds.
abbrev pub delivered : List (Answer (List ℕ)) → List ℕ
delivered [] = []
delivered (failed e ∷ reads) = delivered reads
delivered (done chunk ∷ reads) = chunk ++ delivered reads

-- `reads` are answers to requests for a number of bytes that falls with each: interruptions, and
-- pieces of `bytes` of at least one byte each, until there are none left, and `rest` behind.
pub data Pieces (rest : List (Answer (List ℕ))) : List (Answer (List ℕ)) → List ℕ → Type 0 where
  whole : Pieces rest rest []
  interrupted :
      {reads : List (Answer (List ℕ))} {bytes : List ℕ}
      → 0 < length bytes
      → Pieces rest reads bytes
      → Pieces rest (failed eintr ∷ reads) bytes
  piece :
      {reads : List (Answer (List ℕ))} {bytes : List ℕ} (b : ℕ) (chunk all : List ℕ)
      → all ≡ (b ∷ chunk) ++ bytes
      → Pieces rest reads bytes
      → Pieces rest (done (b ∷ chunk) ∷ reads) all

-- Answers to requests that all of `bytes` be written: interruptions, and numbers of bytes, zero
-- among them, until none is left, and `rest` behind.
pub data Taken (rest : List (Answer ℕ)) : List (Answer ℕ) → List ℕ → Type 0 where
  none_left : Taken rest rest []
  held_up :
      {writes : List (Answer ℕ)} {bytes : List ℕ}
      → 0 < length bytes
      → Taken rest writes bytes
      → Taken rest (failed eintr ∷ writes) bytes
  taken :
      {writes : List (Answer ℕ)} (k : ℕ) (bytes : List ℕ)
      → 0 < length bytes
      → k ≤ length bytes
      → Taken rest writes (drop k bytes)
      → Taken rest (done k ∷ writes) bytes

pub read_loop-Pieces :
    {rest : List (Answer (List ℕ))} (room n : ℕ) {reads : List (Answer (List ℕ))} {bytes : List ℕ}
    → Pieces rest reads bytes
    → n ≡ length bytes
    → length bytes ≤ room
    → read_loop room n reads ≡ ok (bytes, full, rest)
unfolding read_loop
read_loop-Pieces room zero whole e fits = refl
read_loop-Pieces room (suc n) whole e fits = absurd (omega arith)
read_loop-Pieces room zero (interrupted some p) e fits = absurd (omega arith)
read_loop-Pieces room (suc n) (interrupted some p) e fits = read_loop-Pieces room (suc n) p e fits
read_loop-Pieces room zero (piece {bytes} b chunk all split p) e fits =
    absurd (omega (arith, ap length split))
read_loop-Pieces room (suc n) (piece {bytes} b chunk all split p) e fits =
    let size = ap length split ∙ length-append (b ∷ chunk) bytes in
    let later =
      read_loop-Pieces (room - length (b ∷ chunk)) (suc n - length (b ∷ chunk)) p
        (omega (arith, size)) (omega (arith, size)) in
    ground (arith, later, size, split)

-- The same, where the stream ends before the last byte that is wanted.
pub read_loop-closed :
    {rest : List (Answer (List ℕ))} (room n : ℕ) {reads : List (Answer (List ℕ))} {bytes : List ℕ}
    → Pieces (done [] ∷ rest) reads bytes
    → length bytes < n
    → length bytes ≤ room
    → read_loop room n reads ≡ ok (bytes, closed, rest)
unfolding read_loop
read_loop-closed room zero whole e fits = absurd (omega arith)
read_loop-closed room (suc n) whole e fits = refl
read_loop-closed room zero (interrupted some p) e fits = absurd (omega arith)
read_loop-closed room (suc n) (interrupted some p) e fits = read_loop-closed room (suc n) p e fits
read_loop-closed room zero (piece {bytes} b chunk all split p) e fits = absurd (omega arith)
read_loop-closed room (suc n) (piece {bytes} b chunk all split p) e fits =
    let size = ap length split ∙ length-append (b ∷ chunk) bytes in
    let later =
      read_loop-closed (room - length (b ∷ chunk)) (suc n - length (b ∷ chunk)) p
        (omega (arith, size)) (omega (arith, size)) in
    ground (arith, later, size, split)

pub write_loop-Taken :
    {rest writes : List (Answer ℕ)} (bytes : List ℕ)
    → Taken rest writes bytes
    → write_loop bytes writes ≡ ok (bytes, true, rest)
unfolding write_loop
write_loop-Taken [] none_left = refl
write_loop-Taken [] (held_up some t) = absurd (omega arith)
write_loop-Taken (b ∷ bytes) (held_up some t) = write_loop-Taken (b ∷ bytes) t
write_loop-Taken [] (taken k _ some fits t) = absurd (omega arith)
write_loop-Taken (b ∷ bytes) (taken k _ some fits t) =
    rw (le→leb fits, write_loop-Taken (drop k (b ∷ bytes)) t, take-append-drop k (b ∷ bytes)) refl

-- What a way to leave the loop of readn says of how many bytes of `n` it read.
abbrev pub Amount : Ending → ℕ → ℕ → Type 0
Amount full got n = got ≡ n
Amount closed got n = got < n
Amount broken got n = got < n

Amount-add :
    (how : Ending) (k got n : ℕ) {g : ℕ}
    → k ≤ n
    → Amount how got (n - k)
    → g ≡ k + got
    → Amount how g n
Amount-add full k got n fits h e = omega arith
Amount-add closed k got n fits h e = omega arith
Amount-add broken k got n fits h e = omega arith

joined :
    (n room b : ℕ) (chunk now left got : List ℕ) (how : Ending)
    → length (b ∷ chunk) ≤ suc n
    → length (b ∷ chunk) ≤ room
    → (now ≡ got ++ left)
      × Amount how (length got) (suc n - length (b ∷ chunk))
      × (length got ≤ room - length (b ∷ chunk))
    → ((b ∷ chunk) ++ now ≡ ((b ∷ chunk) ++ got) ++ left)
      × Amount how (length ((b ∷ chunk) ++ got)) (suc n)
      × (length ((b ∷ chunk) ++ got) ≤ room)
joined n room b chunk now left got how fits held later = (
  ap (λ t. (b ∷ chunk) ++ t) later.0 ∙ sym (append_assoc (b ∷ chunk) got left),
  Amount-add how (length (b ∷ chunk)) (length got) (suc n) fits later.1
      (length-append (b ∷ chunk) got),
  omega (arith, length-append (b ∷ chunk) got, later),
)

-- Whatever the answers are, the loop of readn reads the stream in order, and no more than it wants.
pub read_loop_in_order :
    (room n : ℕ) (reads rest : List (Answer (List ℕ))) (bytes : List ℕ) (ending : Ending)
    → read_loop room n reads ≡ ok (bytes, ending, rest)
    → (delivered reads ≡ bytes ++ delivered rest)
      × Amount ending (length bytes) n
      × (length bytes ≤ room)
unfolding read_loop
read_loop_in_order room zero reads rest bytes ending h = ground arith
read_loop_in_order room (suc n) [] rest bytes ending h = cc
read_loop_in_order room (suc n) (failed e ∷ reads) rest bytes ending h =
    ground (arith, read_loop_in_order room (suc n) reads rest bytes ending)
read_loop_in_order room (suc n) (done [] ∷ reads) rest bytes ending h = ground arith
read_loop_in_order room (suc n) (done (b ∷ chunk) ∷ reads) rest bytes ending h =
    let fits = ok_parts (need (leb (length (b ∷ chunk)) (suc n))) _ h in
    let held = ok_parts (need (leb (length (b ∷ chunk)) room)) _ fits.2 in
    let call =
      ok_parts (read_loop (room - length (b ∷ chunk)) (suc n - length (b ∷ chunk)) reads) _
        held.2 in
    let (got, how, left) = call.0 in
    let later =
      read_loop_in_order (room - length (b ∷ chunk)) (suc n - length (b ∷ chunk)) reads left got how
        call.1 in
    let all =
      joined n room b chunk (delivered reads) (delivered left) got how
        (leb→le (need-eq-ok _ fits.1)) (leb→le (need-eq-ok _ held.1)) later in
    ground (arith, all, call.2)

rejoin :
    (front out left : List ℕ) {back sent bytes : List ℕ}
    → front ++ back ≡ bytes
    → back ≡ out ++ left
    → sent ≡ front ++ out
    → bytes ≡ sent ++ left
rejoin front out left split more e =
    sym split
    ∙ ap (λ t. front ++ t) more
    ∙ sym (append_assoc front out left)
    ∙ ap (λ t. t ++ left) (sym e)

rejoin_all :
    (front : List ℕ) {back out sent bytes : List ℕ}
    → front ++ back ≡ bytes
    → out ≡ back
    → sent ≡ front ++ out
    → sent ≡ bytes
rejoin_all front split more e = e ∙ ap (λ t. front ++ t) more ∙ split

-- Whatever the answers are, the bytes that go out are the first of those given, and all of them if
-- the loop says so.
pub write_loop_in_order :
    (bytes : List ℕ) (writes rest : List (Answer ℕ)) (sent : List ℕ) (all : Bool)
    → write_loop bytes writes ≡ ok (sent, all, rest)
    → (left : List ℕ) × (bytes ≡ sent ++ left) × (all ≡ true → sent ≡ bytes)
unfolding write_loop
write_loop_in_order [] writes rest sent all h = ([], ground arith, λ e. ground arith)
write_loop_in_order (b ∷ bytes) [] rest sent all h = cc
write_loop_in_order (b ∷ bytes) (failed e ∷ writes) rest sent all h =
    elim (Bool-cases (e == eintr)) [
      | inl again ↦ write_loop_in_order (b ∷ bytes) writes rest sent all (ground arith)
      | inr stop ↦ (b ∷ bytes, ground arith, λ e. ground arith)
    ]
write_loop_in_order (b ∷ bytes) (done k ∷ writes) rest sent all h =
    let fits = ok_parts (need (leb k (length (b ∷ bytes)))) _ h in
    let call = ok_parts (write_loop (drop k (b ∷ bytes)) writes) _ fits.2 in
    let (out, finished, left) = call.0 in
    let later = write_loop_in_order (drop k (b ∷ bytes)) writes left out finished call.1 in
    let split = take-append-drop k (b ∷ bytes) in
    (
      later.0,
      rejoin (take k (b ∷ bytes)) out later.0 split later.1 cc,
      λ e. rejoin_all (take k (b ∷ bytes)) split (later.2 (cc)) cc,
    )
