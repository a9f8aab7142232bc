-- ===== src/ThreadPool/Growth.antt =====
-- How many threads a round of adjust_thread creates.
use safe_transmission.Common.{
  ℕ, ◌+◌, ◌≤◌, ◌≡◌, arith, List, [], ◌∷◌, Option, ltb, leb, ◌&&◌, inl, inr, Bool-cases,
}
use safe_transmission.ThreadPool.{Pool, default_thread_vary, is_free, add_threads, grow}

-- What the loop of adjust_thread creates.
add_threads_bounds :
    (kill : ℕ → ℕ) (max_thr_num : ℕ) (threads : List (Option ℕ)) (add live next : ℕ)
    → live ≤ max_thr_num
    → add ≤ default_thread_vary
    → let out = add_threads kill max_thr_num threads add live next in
      (out.1 + next ≡ out.2 + live)
      × (live ≤ out.1)
      × (out.1 ≤ max_thr_num)
      × (out.1 + add ≤ live + default_thread_vary)
unfolding add_threads
add_threads_bounds kill max_thr_num [] add live next high few =
    (omega arith, omega arith, high, omega arith)
add_threads_bounds kill max_thr_num (t ∷ ts) add live next high few =
    let fits = (ltb add default_thread_vary && ltb live max_thr_num) && is_free kill t in
    elim (Bool-cases fits) [
      | inl fit ↦
          let rest =
            add_threads_bounds kill max_thr_num ts (add + 1) (live + 1) (next + 1)
              (ground (arith, fit)) (ground (arith, fit)) in
          rw fit (omega arith, omega arith, omega arith, omega arith)
      | inr unfit ↦ rw unfit (add_threads_bounds kill max_thr_num ts add live next high few)
    ]

-- If no more threads live than the most that there may be, a round of adjust_thread counts each thread
-- that it creates as a live one, creates at most ten, and leaves no more than the most that there may be.
pub grow_bounds :
    (kill : ℕ → ℕ) (queue_size live_thr_num next : ℕ) (p : Pool)
    → p.live_thr_num ≤ p.max_thr_num
    → let out = grow kill queue_size live_thr_num next p in
      (out.0.live_thr_num + next ≡ out.1 + p.live_thr_num)
      × (p.live_thr_num ≤ out.0.live_thr_num)
      × (out.0.live_thr_num ≤ p.max_thr_num)
      × (out.0.live_thr_num ≤ p.live_thr_num + default_thread_vary)
unfolding grow
grow_bounds kill queue_size live_thr_num next p high =
    let loop =
      add_threads_bounds kill p.max_thr_num p.threads 0 p.live_thr_num next high (omega arith) in
    elim (Bool-cases (leb 10 queue_size && ltb live_thr_num p.max_thr_num)) [
      | inl grows ↦ rw grows (loop.0, loop.1, loop.2, omega arith)
      | inr stays ↦ rw stays (omega arith, omega arith, high, omega arith)
    ]

pub grow_keeps :
    (kill : ℕ → ℕ) (queue_size live_thr_num next : ℕ) (p : Pool)
    → let q = (grow kill queue_size live_thr_num next p).0 in
      (q.busy_thr_num ≡ p.busy_thr_num)
      × (q.min_thr_num ≡ p.min_thr_num)
      × (q.max_thr_num ≡ p.max_thr_num)
      × (q.shutdown ≡ p.shutdown)
unfolding grow
grow_keeps kill queue_size live_thr_num next p = ground arith
