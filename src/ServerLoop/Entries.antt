-- ===== src/ServerLoop/Entries.antt =====
-- The container of sockets against the threads, and changes that keep them in step.
use safe_transmission.Common.{
  ℕ, ◌+◌, ◌<◌, ◌≡◌, ◌≢◌, ◌⊎◌, inl, inr, sym, ap, ◌∙◌, arith, Option, none, some, ◌==◌, Bool-cases,
}
use safe_transmission.ServerLoop.{TcpSocket, assign, Worker, absent, fresh, holds, Server}

-- A thread looks into the container after startWork has made its entry.
abbrev pub InTime : Server → ℕ → Type 0
InTime s thid = (socket : TcpSocket) → s.starting ≢ some (thid, socket)

pub record IsBooked (s : Server) : Type 0 where
  pub held :
      (i : ℕ) (v : Option TcpSocket)
      → s.workers i ≡ holds v
      → (a : TcpSocket) × (v ≡ some a) × (s.m_list_socket i ≡ some (some a))
  pub gone : (i : ℕ) → s.workers i ≡ absent → s.m_list_socket i ≡ none
  pub entered :
      (i : ℕ)
      → s.workers i ≡ fresh
      → ((a : TcpSocket) × (s.starting ≡ some (i, a)))
        ⊎ ((a : TcpSocket) × (s.m_list_socket i ≡ some (some a)))
  pub awaited :
      (i : ℕ) (a : TcpSocket)
      → s.starting ≡ some (i, a)
      → (s.workers i ≡ fresh)
        × (s.m_list_socket i ≡ none)
        × (a.object < s.made)
        × ((j : ℕ) (b : TcpSocket) → s.m_list_socket j ≡ some (some b) → b.object ≢ a.object)
  pub old : (i : ℕ) (a : TcpSocket) → s.m_list_socket i ≡ some (some a) → a.object < s.made
  pub apart :
      (i j : ℕ) (a b : TcpSocket)
      → s.m_list_socket i ≡ some (some a)
      → s.m_list_socket j ≡ some (some b)
      → a.object ≡ b.object
      → i ≡ j

-- The two places of an array that was assigned to.
pub assign-cases {ℓ} :
    {A : Type ℓ} (f : ℕ → A) (k j : ℕ) (a b : A)
    → assign f k a j ≡ b
    → ((k ≡ j) × (a ≡ b)) ⊎ ((k ≢ j) × (f j ≡ b))
assign-cases f k j a b h = elim (Bool-cases (k == j)) [
  | inl e ↦ inl (ground (arith, e), rw e at h)
  | inr e ↦ inr ((λ same. ground (arith, e, same)), rw e at h)
]

pub assign_other {ℓ} : {A : Type ℓ} (f : ℕ → A) (k j : ℕ) (a : A) → k ≢ j → assign f k a j ≡ f j
assign_other f k j a apart = ground (arith, apart)

pub assign_here {ℓ} : {A : Type ℓ} (f : ℕ → A) (k j : ℕ) (a : A) → k ≡ j → assign f k a j ≡ a
assign_here f k j a same = ground (arith, same)

-- startWork makes a thread.
pub connected :
    (s : Server) (thid fd : ℕ)
    → s.starting ≡ none
    → s.workers thid ≡ absent
    → IsBooked s
    → IsBooked (record s {
      starting = some (thid, record { object = s.made; m_socket = fd });
      workers = assign s.workers thid fresh;
      made = s.made + 1;
    })
connected s thid fd free unused b = record {
  held = λ i v h. elim (assign-cases s.workers thid i fresh (holds v) h) [
    | inl (k, e) ↦ absurd (cc)
    | inr (k, e) ↦ b.held i v e
  ];
  gone = λ i h. elim (assign-cases s.workers thid i fresh absent h) [
    | inl (k, e) ↦ absurd (cc)
    | inr (k, e) ↦ b.gone i e
  ];
  entered = λ i h. elim (assign-cases s.workers thid i fresh fresh h) [
    | inl (k, e) ↦ inl (_, ap (λ n. some (n, record { object = s.made; m_socket = fd })) k)
    | inr (k, e) ↦ elim (b.entered i e) [ inl (x, p) ↦ absurd (cc) | inr p ↦ inr p ]
  ];
  awaited = λ i a h.
      let k : thid ≡ i = cc in
      let n : s.made ≡ a.object = cc in
      (
        assign_here s.workers thid i fresh k,
        ap s.m_list_socket (sym k) ∙ b.gone thid unused,
        omega arith,
        λ j c p same. let older = b.old j c p in omega arith,
      );
  old = λ i a h. let older = b.old i a h in omega arith;
  apart = b.apart;
}

-- The container gets its entry.
pub made_entry :
    (s : Server) (thid : ℕ) (socket : TcpSocket)
    → s.starting ≡ some (thid, socket)
    → IsBooked s
    → IsBooked (record s {
      m_list_socket = assign s.m_list_socket thid (some (some socket));
      starting = none;
    })
made_entry s thid socket e b =
    let (is_fresh, empty, small, other) = b.awaited thid socket e in
    let f = s.m_list_socket in
    let elsewhere : (i : ℕ) (w : Worker) → s.workers i ≡ w → (w ≢ fresh) → thid ≢ i =
      λ i w h differs k. differs (sym h ∙ ap s.workers (sym k) ∙ is_fresh) in
    record {
      held = λ i v h.
          let (a, p, q) = b.held i v h in
          (
            a,
            p,
            assign_other f thid i (some (some socket)) (elsewhere i (holds v) h (λ c. absurd (cc)))
                ∙ q,
          );
      gone = λ i h.
          assign_other f thid i (some (some socket)) (elsewhere i absent h (λ c. absurd (cc)))
          ∙ b.gone i h;
      entered = λ i h. elim (Bool-cases (thid == i)) [
        | inl k ↦ inr (socket, assign_here f thid i (some (some socket)) (ground (arith, k)))
        | inr k ↦ elim (b.entered i h) [
          | inl (x, p) ↦ absurd (let same : thid ≡ i = cc in ground (arith, k, same))
          | inr (x, p) ↦
              inr (
                x,
                assign_other f thid i (some (some socket)) (λ same. ground (arith, k, same)) ∙ p,
              )
        ]
      ];
      awaited = λ i a h. absurd (cc);
      old = λ i a h. elim (assign-cases f thid i (some (some socket)) (some (some a)) h) [
        | inl (k, p) ↦ let n : socket.object ≡ a.object = cc in omega arith
        | inr (k, p) ↦ b.old i a p
      ];
      apart = λ i j a c p q same.
          elim (assign-cases f thid i (some (some socket)) (some (some a)) p) [
            | inl (k, x) ↦ elim (assign-cases f thid j (some (some socket)) (some (some c)) q) [
              | inl (l, y) ↦ sym k ∙ l
              | inr (l, y) ↦
                  absurd (let n : socket.object ≡ a.object = cc in other j c y (sym (n ∙ same)))
            ]
            | inr (k, x) ↦ elim (assign-cases f thid j (some (some socket)) (some (some c)) q) [
              | inl (l, y) ↦
                  absurd (let n : socket.object ≡ c.object = cc in other i a x (same ∙ sym n))
              | inr (l, y) ↦ b.apart i j a c x y same
            ]
          ];
    }

-- A thread has found its socket.
pub found :
    (s : Server) (thid : ℕ) (a : TcpSocket)
    → s.workers thid ≡ fresh
    → s.m_list_socket thid ≡ some (some a)
    → IsBooked s
    → IsBooked (record s { workers = assign s.workers thid (holds (some a)) })
found s thid a e entry b = record {
  held = λ i v h. elim (assign-cases s.workers thid i (holds (some a)) (holds v) h) [
    | inl (k, p) ↦ (a, (let q : some a ≡ v = cc in sym q), ap s.m_list_socket (sym k) ∙ entry)
    | inr (k, p) ↦ b.held i v p
  ];
  gone = λ i h. elim (assign-cases s.workers thid i (holds (some a)) absent h) [
    | inl (k, p) ↦ absurd (cc)
    | inr (k, p) ↦ b.gone i p
  ];
  entered = λ i h. elim (assign-cases s.workers thid i (holds (some a)) fresh h) [
    | inl (k, p) ↦ absurd (cc)
    | inr (k, p) ↦ b.entered i p
  ];
  awaited = λ i c h.
      let (is_fresh, empty, small, other) = b.awaited i c h in
      let k : thid ≢ i =
        λ same. let clash = sym entry ∙ ap s.m_list_socket same ∙ empty in absurd (cc) in
      (assign_other s.workers thid i (holds (some a)) k ∙ is_fresh, empty, small, other);
  old = b.old;
  apart = b.apart;
}

-- A thread ends.
pub left :
    (s : Server) (thid : ℕ) (a : TcpSocket)
    → s.workers thid ≡ holds (some a)
    → IsBooked s
    → IsBooked (record s {
      m_list_socket = assign s.m_list_socket thid none;
      workers = assign s.workers thid absent;
    })
left s thid a e b =
    let f = s.m_list_socket in
    record {
      held = λ i v h. elim (assign-cases s.workers thid i absent (holds v) h) [
        | inl (k, p) ↦ absurd (cc)
        | inr (k, p) ↦ let (x, q, r) = b.held i v p in (x, q, assign_other f thid i none k ∙ r)
      ];
      gone = λ i h. elim (assign-cases s.workers thid i absent absent h) [
        | inl (k, p) ↦ assign_here f thid i none k
        | inr (k, p) ↦ assign_other f thid i none k ∙ b.gone i p
      ];
      entered = λ i h. elim (assign-cases s.workers thid i absent fresh h) [
        | inl (k, p) ↦ absurd (cc)
        | inr (k, p) ↦ elim (b.entered i p) [
          | inl q ↦ inl q
          | inr (x, q) ↦ inr (x, assign_other f thid i none k ∙ q)
        ]
      ];
      awaited = λ i c h.
          let (is_fresh, empty, small, other) = b.awaited i c h in
          let k : thid ≢ i =
            λ same. let clash = sym e ∙ ap s.workers same ∙ is_fresh in absurd (cc) in
          (
            assign_other s.workers thid i absent k ∙ is_fresh,
            assign_other f thid i none k ∙ empty,
            small,
            λ j d q. elim (assign-cases f thid j none (some (some d)) q) [
              | inl (l, p) ↦ absurd (cc)
              | inr (l, p) ↦ other j d p
            ],
          );
      old = λ i c h. elim (assign-cases f thid i none (some (some c)) h) [
        | inl (k, p) ↦ absurd (cc)
        | inr (k, p) ↦ b.old i c p
      ];
      apart = λ i j c d p q same. elim (assign-cases f thid i none (some (some c)) p) [
        | inl (k, x) ↦ absurd (cc)
        | inr (k, x) ↦ elim (assign-cases f thid j none (some (some d)) q) [
          | inl (l, y) ↦ absurd (cc)
          | inr (l, y) ↦ b.apart i j c d x y same
        ]
      ];
    }
