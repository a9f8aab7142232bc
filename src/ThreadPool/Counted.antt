-- ===== src/ThreadPool/Counted.antt =====
-- Counters that agree with the threads, and changes that keep them so.
use safe_transmission.Common.{
  ℕ, ◌+◌, ◌-◌, ◌%◌, ◌≤◌, ◌<◌, ◌≡◌, refl, sym, ap, ◌∙◌, arith, true, false, ◌==◌, ◌⊎◌, inl, inr,
  Bool-cases,
}
use safe_transmission.ThreadPool.{Task, Pool, entry, sleep, leave, work, look_for_task}
use safe_transmission.ThreadPool.System.{Worker, awake, System, update}
use safe_transmission.ThreadPool.Tally.{
  is_running, is_alive, one_if, tally, tally-update, tally-awake,
}

-- The pool `p` with `c` threads, which stand as `f` says.
pub record IsCounted (p : Pool) (c : ℕ) (f : ℕ → Worker) : Type 0 where
  pub busy : p.busy_thr_num ≡ tally is_running c f
  pub live : p.shutdown ≡ false → p.live_thr_num ≡ tally is_alive c f
  pub low : p.min_thr_num ≤ p.live_thr_num
  pub high : p.live_thr_num ≤ p.max_thr_num
  pub fresh : (j : ℕ) → c ≤ j → f j ≡ awake

abbrev pub HasCounts : System → Type 0
HasCounts s = IsCounted s.pool s.created s.workers

-- A thread goes on, and the pool's counters with it.
pub recount :
    (p q : Pool) (c : ℕ) (f : ℕ → Worker) (i : ℕ) (w : Worker)
    → i < c
    → IsCounted p c f
    → q.busy_thr_num + one_if (is_running (f i)) ≡ p.busy_thr_num + one_if (is_running w)
    → (q.shutdown ≡ false
        → (p.shutdown ≡ false)
          × (q.live_thr_num + one_if (is_alive (f i)) ≡ p.live_thr_num + one_if (is_alive w)))
    → q.min_thr_num ≤ q.live_thr_num
    → q.live_thr_num ≤ q.max_thr_num
    → IsCounted q c (update f i w)
recount p q c f i w lt n busy live low high = record {
  busy = let t = tally-update is_running c f i w lt in let b = n.busy in omega arith;
  live = λ open'.
      let l = live open' in
      let t = tally-update is_alive c f i w lt in let b = n.live l.0 in let e = l.1 in omega arith;
  low = low;
  high = high;
  fresh = λ j above. ground (arith, n.fresh j above);
}

-- A change of the other fields.
abbrev pub SameCounts : Pool → Pool → Type 0
SameCounts p q =
    (q.busy_thr_num ≡ p.busy_thr_num)
    × (q.live_thr_num ≡ p.live_thr_num)
    × (q.min_thr_num ≡ p.min_thr_num)
    × (q.max_thr_num ≡ p.max_thr_num)
    × (q.shutdown ≡ p.shutdown)

pub counts_kept :
    (p q : Pool) (c : ℕ) (f : ℕ → Worker) → SameCounts p q → IsCounted p c f → IsCounted q c f
counts_kept p q c f same n = record {
  busy = same.0 ∙ n.busy;
  live = λ open'. same.1 ∙ n.live (sym same.4 ∙ open');
  low = let low = n.low in omega arith;
  high = let high = n.high in omega arith;
  fresh = n.fresh;
}

pub look_for_task-cases :
    (p : Pool)
    → (look_for_task p ≡ (sleep, p))
      ⊎ ((p.shutdown ≡ true) × (look_for_task p ≡ (leave, p)))
      ⊎ ((task : Task) × (q : Pool) × (look_for_task p ≡ (work task, q)) × SameCounts p q)
unfolding look_for_task
look_for_task-cases p = elim (Bool-cases p.shutdown) [
  | inl shut ↦ inr (inl (shut, ground (arith, shut)))
  | inr not_shut ↦ elim (Bool-cases (p.queue_size == 0)) [
    | inl none_there ↦ inl (ground (arith, not_shut, none_there))
    | inr some_there ↦ inr (
        inr (
          entry p.task_queue p.queue_front,
          record p {
            queue_front = (p.queue_front + 1) % p.queue_max_size;
            queue_size = p.queue_size - 1;
          },
          ground (arith, not_shut, some_there),
          (refl, refl, refl, refl, refl),
        ))
  ]
]

-- A thread goes on, and the counters stay.
pub went_on :
    (p q : Pool) (c : ℕ) (f : ℕ → Worker) (i : ℕ) (w : Worker)
    → i < c
    → IsCounted p c f
    → SameCounts p q
    → is_running (f i) ≡ is_running w
    → is_alive (f i) ≡ is_alive w
    → IsCounted q c (update f i w)
went_on p q c f i w lt n same r a =
    recount p q c f i w lt n (let b = same.0 in ground (arith, ap one_if r))
      (λ open'. (sym (same.4) ∙ open', ground (arith, ap one_if a, same)))
      (let low = n.low in omega arith) (let high = n.high in omega arith)

-- New threads come in awake.
pub joined :
    (p q : Pool) (c c' : ℕ) (f : ℕ → Worker)
    → IsCounted p c f
    → c ≤ c'
    → q.live_thr_num + c ≡ c' + p.live_thr_num
    → (q.busy_thr_num ≡ p.busy_thr_num)
      × (q.min_thr_num ≡ p.min_thr_num)
      × (q.max_thr_num ≡ p.max_thr_num)
      × (q.shutdown ≡ p.shutdown)
    → q.live_thr_num ≤ q.max_thr_num
    → IsCounted q c' f
joined p q c c' f n less count same high = record {
  busy = same.0 ∙ n.busy ∙ (let t = tally-awake is_running c c' f less n.fresh in omega arith);
  live = λ open'.
      let t = tally-awake is_alive c c' f less n.fresh in
      let l = n.live (sym same.3 ∙ open') in omega arith;
  low = let low = n.low in let e = same.1 in omega arith;
  high = high;
  fresh = λ j above. n.fresh j (omega arith);
}
