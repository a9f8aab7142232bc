-- ===== src/Draft/Dispatch/Overwritten.antt =====
-- What becomes of the Epoll object that all tasks share.
use safe_transmission.Common.{
  ℕ, zero, suc, ◌+◌, ◌≤◌, ◌<◌, ◌≡◌, ◌≢◌, ltb, ltb→lt, ◌⊎◌, inl, inr, refl, sym, ap, ◌∙◌, arith,
  Bool-cases, List, [], ◌∷◌, ◌++◌, Option, none, some, ◌==◌, if◌then◌else◌, length, length-append,
  All, ok, ok_parts, fault,
}
use mathlib.Core.Path.{subst}
use safe_transmission.ThreadPool.{Task, Pool, threadpool_add, entry}
use safe_transmission.ThreadPool.System
use safe_transmission.ThreadPool.System.{System, Step, add, start, Reach}
use safe_transmission.ThreadPool.Freed.{threadpool_add_frees}
use safe_transmission.Draft.Dispatch.{
  Epoll, job, unless_freed, dispatch, process, Serving, Serve, event, thread, begun, Served, here,
  next,
}

-- The last descriptor, or the first argument where there is none.
abbrev pub last_or : ℕ → List ℕ → ℕ
last_or fd [] = fd
last_or fd (x ∷ xs) = last_or x xs

last_or-append : (fd x : ℕ) (xs : List ℕ) → last_or fd (xs ++ (x ∷ [])) ≡ x
last_or-append fd x [] = refl
last_or-append fd x (y ∷ xs) = last_or-append y x xs

entry_before :
    (P : Task → Type 0) (xs ys : List Task) (i : ℕ)
    → All P xs
    → i < length xs
    → P (entry (xs ++ ys) i)
entry_before P [] ys i h low = absurd (omega arith)
entry_before P (x ∷ xs) ys zero h low = h.0
entry_before P (x ∷ xs) ys (suc i) h low = entry_before P xs ys i h.1 (omega arith)

entry_after :
    (P : Task → Type 0) (xs ys : List Task) (i : ℕ)
    → All P ys
    → length xs ≤ i
    → i < length xs + length ys
    → P (entry (xs ++ ys) i)
entry_after P [] [] i h low high = absurd (omega arith)
entry_after P [] (y ∷ ys) zero h low high = h.0
entry_after P [] (y ∷ ys) (suc i) h low high = entry_after P [] ys i h.1 (omega arith) (omega arith)
entry_after P (x ∷ xs) ys zero h low high = absurd (omega arith)
entry_after P (x ∷ xs) ys (suc i) h low high = entry_after P xs ys i h (omega arith) (omega arith)

All-append :
    (P : Task → Type 0) (xs : List Task) (y : Task) → All P xs → P y → All P (xs ++ (y ∷ []))
All-append P [] y h p = (p, tt)
All-append P (x ∷ xs) y h p = (h.0, All-append P xs y h.1 p)

-- What dispatch does where it returns.
dispatch_result :
    (this fd : ℕ) (object out : Option Epoll) (p q : Pool)
    → dispatch this fd object p ≡ ok (out, q)
    → (e : Epoll) × (freed : Option ℕ) × (object ≡ some e)
      × (threadpool_add p (job this) ≡ ok (freed, q))
      × (out ≡ unless_freed this freed (record { fd = fd }))
unfolding dispatch
dispatch_result this fd none out p q h = cc
dispatch_result this fd (some e) out p q h =
    let (r, added, rest) = ok_parts (threadpool_add p (job this)) _ h in
    let left : r.1 ≡ q = cc in (e, r.0, refl, added ∙ ap (λ z. ok (r.0, z)) left, cc)

-- The state after some events.
record IsServed (this fd : ℕ) (s : Serving) : Type 0 where
  jobs : All (λ t. t.arg ≡ this) s.system.added
  count : length s.system.added ≡ length s.events
  shared :
      ((length s.events ≤ 10) × (s.object ≡ some (record { fd = last_or fd s.events })))
      ⊎ ((length s.events ≡ 11) × (s.object ≡ none))

spared :
    (fd this arg : ℕ) (freed : Option ℕ)
    → freed ≡ (if arg == 0 then none else some arg)
    → arg ≢ this
    → unless_freed this freed (record { fd = fd }) ≡ some (record { fd = fd })
spared fd this arg freed h apart = rw h (ground (arith, apart))

hit :
    (fd this arg : ℕ) (freed : Option ℕ)
    → 0 < this
    → freed ≡ (if arg == 0 then none else some arg)
    → arg ≡ this
    → unless_freed this freed (record { fd = fd }) ≡ none
hit fd this arg freed real h same = rw h (ground (arith, same))

module _ (memory : List Task) (exits this : ℕ) (initial : Epoll) (room : length memory ≡ 10)
    (real : 0 < this) (others : All (λ t. t.arg ≢ this) memory) where
  abbrev Kept : Serving → Type 0
  Kept s = Reach (start memory exits 3 10 10) s.system × IsServed this initial.fd s

  -- The object after one more event, in the ring that holds the earlier tasks.
  one_more :
      {s : Serving} (fd : ℕ) (freed : Option ℕ) (p : Pool) (e : Epoll)
      → Kept s
      → s.object ≡ some e
      → threadpool_add s.system.pool (job this) ≡ ok (freed, p)
      → let n = length (s.events ++ (fd ∷ [])) in
        ((n ≤ 10) × (unless_freed this freed (record { fd = fd }) ≡ some (record { fd = fd })))
        ⊎ ((n ≡ 11) × (unless_freed this freed (record { fd = fd }) ≡ none))
  one_more {s} fd freed p e (r, k) there added =
      let old =
        threadpool_add_frees memory exits 3 10 10 (job this) freed p room (omega arith) r added in
      let longer = length-append s.events (fd ∷ []) in
      let few : length s.events ≤ 10 = elim k.shared [ inl h ↦ h.0 | inr h ↦ absurd (cc) ] in
      let count = k.count in
      elim (Bool-cases (ltb (length s.system.added) 10)) [
        | inl early ↦
            let low = ltb→lt (length s.system.added) 10 early in
            let other =
              entry_before (λ t. t.arg ≢ this) memory s.system.added (length s.system.added) others
                (omega arith) in
            inl (omega arith, spared fd this _ freed old other)
        | inr late ↦
            let high : 10 ≤ length s.system.added = ground arith in
            let same =
              entry_after (λ t. t.arg ≡ this) memory s.system.added (length s.system.added) k.jobs
                (omega arith) (omega arith) in
            inr (omega arith, hit fd this _ freed real old same)
      ]

  Serve-Kept : {s t : Serving} → Serve this s t → Kept s → Kept t
  Serve-Kept {s} (event fd object p done eq) (r, k) =
      let (e, freed, there, added, out) =
        dispatch_result this fd s.object object s.system.pool p done in
      let longer = length-append s.events (fd ∷ []) in
      let longer' = length-append s.system.added (job this ∷ []) in
      let count = k.count in
      subst Kept (sym eq) (
        System.next r (add (job this) freed p added refl),
        record {
          jobs = All-append (λ t. t.arg ≡ this) s.system.added (job this) k.jobs refl;
          count = omega arith;
          shared = elim (one_more fd freed p e (r, k) there added) [
            | inl (n, kept) ↦ inl (
              n,
              out
                  ∙ kept
                  ∙ ap (λ x. some (record { fd = x }))
                      (sym (last_or-append initial.fd fd s.events)),
            )
            | inr (n, gone) ↦ inr (n, out ∙ gone)
          ];
        },
      )
  Serve-Kept {s} (thread u step same eq) (r, k) = subst Kept (sym eq) (
    System.next r step,
    record {
      jobs = subst (All (λ t. t.arg ≡ this)) (sym same) k.jobs;
      count = ap length same ∙ k.count;
      shared = k.shared;
    },
  )

  Served-Kept : {s : Serving} → Served this (begun memory exits initial) s → Kept s
  Served-Kept here =
      (System.here, record { jobs = tt; count = refl; shared = inl (omega arith, refl) })
  Served-Kept (next r st) = Serve-Kept st (Served-Kept r)

  -- If the memory of the queue has ten entries, none of them with the address of the Epoll object, then
  -- in every state that the loop of Epoll::initepoll and the threads of its pool can reach: after up to
  -- ten events of clients, whatever task begins serves the descriptor of the last event, for whichever
  -- event it was added; the eleventh event frees the object, and after it every task, and the loop
  -- at the next event of a client, goes through the freed pointer.
  pub object_overwritten :
      {s : Serving}
      → Served this (begun memory exits initial) s
      → ((length s.events ≤ 10) × (process s.object ≡ ok (last_or initial.fd s.events)))
        ⊎ ((length s.events ≡ 11)
            × (process s.object ≡ fault)
            × ((fd : ℕ) → dispatch this fd s.object s.system.pool ≡ fault))
  unfolding process dispatch
  object_overwritten {s} r = elim (Served-Kept r).1.shared [
    | inl (few, there) ↦ inl (few, ap process there)
    | inr (all, gone) ↦
        inr (all, ap process gone, λ fd. ap (λ o. dispatch this fd o s.system.pool) gone)
  ]
