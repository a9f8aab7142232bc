-- ===== src/Draft/Mixing.antt =====
-- Safe_transmission/serverop/serverop.cpp and Safe_transmission/clientop/clientop.cpp: how the drafts mix
-- the two random strings into r1r2, whose digest becomes the
-- key.
use safe_transmission.Common.{
  ℕ, zero, suc, ◌+◌, ◌-◌, ◌*◌, ◌≤◌, ◌<◌, ◌≡◌, refl, ap, ◌∙◌, arith, Bool-cases, inl, inr, ◌⊎◌, ◌%◌,
  true, List, [], ◌∷◌, ◌++◌, leb, length, drop, Result, ok, fault, ◌>>=◌, ◌>>◌, need,
}
use safe_transmission.Codec.CString.{strlen}
use safe_transmission.Codec.CString.Fields.{text_of, IsTerminated, strlen-text_of}
use safe_transmission.ShareMemory.{zeros}

-- The loop from an index on, where r1r2 has `room` bytes left, which are zero.
unfoldable pub mix_loop : ℕ → ℕ → List ℕ → List ℕ → Result (List ℕ)
mix_loop zero room r1 r2 = ok (zeros room)
mix_loop (suc k) room (a ∷ r1) (b ∷ r2) = do
  need (leb 2 room)
  rest ← mix_loop k (room - 2) r1 r2
  ok (a ∷ b ∷ rest)
mix_loop (suc k) room r1 r2 = fault

-- `klen` is the sum of the two lengths, and r1r2 has 64 bytes.
unfoldable pub mix : List ℕ → List ℕ → Result (List ℕ)
mix r1 r2 = do n ← strlen r1; m ← strlen r2; mix_loop (n + m) 64 r1 r2

-- `for (i = 0; i < count; i++) r[i] = rand() % radix + first`, with the bytes that it writes; what rand
-- answers is a parameter.
unfoldable pub random_chars : ℕ → ℕ → ℕ → (ℕ → ℕ) → List ℕ
random_chars radix first zero rand = []
random_chars radix first (suc n) rand =
    (rand 0 % radix + first) ∷ random_chars radix first n (λ i. rand (suc i))

-- The strings of both sides, in arrays that nothing has cleared.
unfoldable pub client_r1 : (ℕ → ℕ) → List ℕ → List ℕ
client_r1 rand old = random_chars 10 48 30 rand ++ drop 30 old

unfoldable pub server_r2 : (ℕ → ℕ) → List ℕ → List ℕ
server_r2 rand old = random_chars 26 97 30 rand ++ drop 30 old

-- What the loop leaves where it fits: the characters in turn.
abbrev pub in_turn : ℕ → List ℕ → List ℕ → List ℕ
in_turn (suc k) (a ∷ r1) (b ∷ r2) = a ∷ b ∷ in_turn k r1 r2
in_turn _ _ _ = []

mix_loop_fits :
    (k room : ℕ) (r1 r2 : List ℕ)
    → k ≤ length r1
    → k ≤ length r2
    → k * 2 ≤ room
    → mix_loop k room r1 r2 ≡ ok (in_turn k r1 r2 ++ zeros (room - k * 2))
unfolding mix_loop
mix_loop_fits zero room r1 r2 h h' fits = ap (λ k. ok (zeros k)) (omega arith)
mix_loop_fits (suc k) room [] r2 h h' fits = absurd (omega arith)
mix_loop_fits (suc k) room (a ∷ r1) [] h h' fits = absurd (omega arith)
mix_loop_fits (suc k) room (a ∷ r1) (b ∷ r2) h h' fits =
    let rest = mix_loop_fits k (room - 2) r1 r2 (omega arith) (omega arith) (omega arith) in
    let twice : room - suc k * 2 ≡ room - 2 - k * 2 = omega arith in
    let two : leb 2 room ≡ true = ground arith in rw (two, rest, twice) refl

mix_loop_over : (k room : ℕ) (r1 r2 : List ℕ) → room < k * 2 → mix_loop k room r1 r2 ≡ fault
unfolding mix_loop
mix_loop_over zero room r1 r2 over = absurd (omega arith)
mix_loop_over (suc k) room [] r2 over = refl
mix_loop_over (suc k) room (a ∷ r1) [] over = refl
mix_loop_over (suc k) room (a ∷ r1) (b ∷ r2) over = elim (Bool-cases (leb 2 room)) [
  | inl two ↦
      let enough : 2 ≤ room = ground arith in
      let rest = mix_loop_over k (room - 2) r1 r2 (omega arith) in rw (two, rest) refl
  | inr none_left ↦ rw none_left refl
]

strlen_next : (c : ℕ) (p : List ℕ) → 0 < c → strlen (c ∷ p) ≡ (strlen p >>= λ n. ok (suc n))
unfolding strlen
strlen_next zero p real = absurd (omega arith)
strlen_next (suc b) p real = refl

strlen_any : (p : List ℕ) → (strlen p ≡ fault) ⊎ ((k : ℕ) × (strlen p ≡ ok k))
unfolding strlen
strlen_any [] = inl refl
strlen_any (zero ∷ p) = inr (0, refl)
strlen_any (suc b ∷ p) = elim (strlen_any p) [
  | inl endless ↦ inl (rw endless refl)
  | inr (k, e) ↦ inr (suc k, rw e refl)
]

-- A string that begins with characters is at least as long, or has no end.
strlen_least :
    (radix first n : ℕ) (rand : ℕ → ℕ) (rest : List ℕ)
    → 0 < first
    → (strlen (random_chars radix first n rand ++ rest) ≡ fault)
      ⊎ ((k : ℕ) × (strlen (random_chars radix first n rand ++ rest) ≡ ok k) × (n ≤ k))
unfolding random_chars
strlen_least radix first zero rand rest real = elim (strlen_any rest) [
  | inl endless ↦ inl endless
  | inr (k, e) ↦ inr (k, e, omega arith)
]
strlen_least radix first (suc n) rand rest real =
    let later : ℕ → ℕ = λ i. rand (suc i) in
    let step =
      strlen_next (rand 0 % radix + first) (random_chars radix first n later ++ rest)
        (omega arith) in
    elim (strlen_least radix first n later rest real) [
      | inl endless ↦ inl (step ∙ ap (λ m. m >>= λ k. ok (suc k)) endless)
      | inr (k, e, more) ↦ inr (suc k, step ∙ ap (λ m. m >>= λ j. ok (suc j)) e, omega arith)
    ]

-- Whatever rand answers and whatever the arrays held, mixing the 30 digits of the client with the 30
-- letters of the server, on either side, ends in undefined behaviour: it writes behind the 64 bytes
-- of r1r2, if it does not read a string that has no end before.
pub drafts_overflow :
    (rand rand' : ℕ → ℕ) (old old' : List ℕ)
    → mix (client_r1 rand old) (server_r2 rand' old') ≡ fault
unfolding mix client_r1 server_r2
drafts_overflow rand rand' old old' =
    elim (strlen_least 10 48 30 rand (drop 30 old) (omega arith)) [
      | inl endless ↦ rw endless refl
      | inr (n, e, some_digits) ↦ elim (strlen_least 26 97 30 rand' (drop 30 old') (omega arith)) [
        | inl endless ↦ rw (e, endless) refl
        | inr (m, e', letters) ↦
            rw (e, e')
              (mix_loop_over (n + m) 64 (client_r1 rand old) (server_r2 rand' old') (omega arith))
      ]
    ]

-- With two terminated strings of n and m characters: n + m rounds fit into the 64 bytes and leave the
-- characters of the two arrays in turn, with zeros behind, if n + m is at most 32; otherwise the
-- loop ends in undefined behaviour.
pub mix_result :
    (r1 r2 : List ℕ)
    → length r1 ≡ 64
    → length r2 ≡ 64
    → IsTerminated r1
    → IsTerminated r2
    → let k = length (text_of r1) + length (text_of r2) in
      ((k ≤ 32) × (mix r1 r2 ≡ ok (in_turn k r1 r2 ++ zeros (64 - k * 2))))
      ⊎ ((32 < k) × (mix r1 r2 ≡ fault))
unfolding mix
mix_result r1 r2 size1 size2 end1 end2 =
    let k = length (text_of r1) + length (text_of r2) in
    let n = strlen-text_of r1 end1 in
    let m = strlen-text_of r2 end2 in
    elim (Bool-cases (leb k 32)) [
      | inl few ↦
          let fits : k ≤ 32 = ground arith in
          inl (fits, rw (n, m) (mix_loop_fits k 64 r1 r2 (omega arith) (omega arith) (omega arith)))
      | inr many ↦
          let over : 32 < k = ground arith in
          inr (over, rw (n, m) (mix_loop_over k 64 r1 r2 (omega arith)))
    ]
