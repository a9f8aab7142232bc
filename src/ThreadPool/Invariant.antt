-- ===== src/ThreadPool/Invariant.antt =====
-- The counters of the pool against the threads that there are.
use safe_transmission.Common.{
  ℕ, ◌+◌, ◌-◌, ◌≤◌, ◌<◌, ◌≡◌, refl, sym, ap, arith, true, false, List, ltb, ◌⊎◌, inl, inr,
  Bool-cases,
}
use mathlib.Core.Path.{subst}
use safe_transmission.ThreadPool.{
  Task, Pool, threadpool_create, threadpool_add, look_for_task, wake_up, start_task, end_task,
  shrink, shut_down, threadpool_all_threadnum, threadpool_busy_threadnum,
}
use safe_transmission.ThreadPool.Growth.{grow_bounds, grow_keeps}
use safe_transmission.ThreadPool.Counted.{
  IsCounted, HasCounts, recount, SameCounts, counts_kept, look_for_task-cases, went_on, joined,
}
use safe_transmission.ThreadPool.System.{
  awake, asleep, holds, runs, ended, System, moved, Step, add, look, wake, begin, finish, more,
  fewer, close, start, Reach, here, next,
}
use safe_transmission.ThreadPool.Tally.{
  is_running, is_alive, one_if, tally, tally-update, tally_all_awake,
}

-- A worker that is neither in a task nor at its end looks for a task.
looked :
    (s : System) (i : ℕ) (q : Pool)
    → i < s.created
    → is_running (s.workers i) ≡ false
    → is_alive (s.workers i) ≡ true
    → IsCounted q s.created s.workers
    → HasCounts (moved s i (look_for_task q))
looked s i q lt idle alive n = elim (look_for_task-cases q) [
  | inl a ↦
      rw a (went_on q q s.created s.workers i asleep lt n (refl, refl, refl, refl, refl) idle alive)
  | inr (inl b) ↦ rw b.1 (
      recount q q s.created s.workers i ended lt n (ap (λ x. q.busy_thr_num + one_if x) idle)
        (λ open'. absurd (cc)) n.low n.high)
  | inr (inr c) ↦ rw c.2 (went_on q c.1 s.created s.workers i (holds c.0) lt n c.3 idle alive)
]

woken :
    (s : System) (i : ℕ)
    → i < s.created
    → s.workers i ≡ asleep
    → IsCounted s.pool s.created s.workers
    → HasCounts (moved s i (wake_up s.pool))
unfolding wake_up
woken s i lt at n =
    let q : Pool = record s.pool { wait_exit_thr_num = s.pool.wait_exit_thr_num - 1 } in
    let n' : IsCounted q s.created s.workers = record {
      busy = n.busy;
      live = n.live;
      low = n.low;
      high = n.high;
      fresh = n.fresh;
    } in
    let idle = ap is_running at in
    let alive = ap is_alive at in
    elim (Bool-cases (ltb 0 s.pool.wait_exit_thr_num)) [
      | inr no_exit ↦ rw no_exit (looked s i s.pool lt idle alive n)
      | inl exits ↦ elim (Bool-cases (ltb s.pool.min_thr_num s.pool.live_thr_num)) [
        | inr low ↦ rw (exits, low) (looked s i q lt idle alive n')
        | inl many ↦
            rw (exits, many)
              (recount s.pool _ s.created s.workers i ended lt n
                (ap (λ x. s.pool.busy_thr_num + one_if x) idle)
                (λ open'. (open', ground (arith, ap one_if alive, many))) (ground (arith, many))
                (let high = n.high in omega arith))
      ]
    ]

Step-HasCounts : {s t : System} → Step s t → HasCounts s → HasCounts t
unfolding threadpool_add start_task end_task shut_down shrink
Step-HasCounts {s} (add task freed p e eq) n =
    let same : SameCounts s.pool p = ground (arith, e) in
    subst HasCounts (sym eq) (counts_kept s.pool p s.created s.workers same n)
Step-HasCounts {s} (look i lt at eq) n =
    subst HasCounts (sym eq) (looked s i s.pool lt (ap is_running at) (ap is_alive at) n)
Step-HasCounts {s} (wake i lt at eq) n = subst HasCounts (sym eq) (woken s i lt at n)
Step-HasCounts {s} (begin i task lt at eq) n = subst HasCounts (sym eq) (
    recount s.pool _ s.created s.workers i (runs task) lt n (rw at (omega arith))
      (λ open'. (open', ap (λ w. s.pool.live_thr_num + one_if (is_alive w)) at)) n.low n.high)
Step-HasCounts {s} (finish i task lt at eq) n = subst HasCounts (sym eq) (
    let some_run = tally-update is_running s.created s.workers i awake lt in
    let one = ap (λ w. one_if (is_running w)) at in
    let b = n.busy in
    recount s.pool _ s.created s.workers i awake lt n (omega arith)
      (λ open'. (open', ap (λ w. s.pool.live_thr_num + one_if (is_alive w)) at)) n.low n.high)
Step-HasCounts {s} (more alive q l eq) n = subst HasCounts (sym eq) (
    let g = grow_bounds alive q l s.created s.pool n.high in
    joined s.pool _ s.created _ s.workers n (omega arith) g.0
      (grow_keeps alive q l s.created s.pool)
      (let k = grow_keeps alive q l s.created s.pool in omega arith))
Step-HasCounts {s} (fewer b l eq) n =
    subst HasCounts (sym eq) (counts_kept s.pool _ s.created s.workers (ground arith) n)
Step-HasCounts {s} (close eq) n = subst HasCounts (sym eq) (record {
  busy = n.busy;
  live = λ open'. absurd (cc);
  low = n.low;
  high = n.high;
  fresh = n.fresh;
})

start-HasCounts :
    (memory : List Task) (exits min_thr_num max_thr_num queue_max_size : ℕ)
    → min_thr_num ≤ max_thr_num
    → HasCounts (start memory exits min_thr_num max_thr_num queue_max_size)
unfolding threadpool_create
start-HasCounts memory exits min_thr_num max_thr_num queue_max_size h = record {
  busy = sym (tally_all_awake is_running min_thr_num);
  live = λ open'. sym (tally_all_awake is_alive min_thr_num);
  low = omega arith;
  high = h;
  fresh = λ j above. refl;
}

Reach-HasCounts : {s t : System} → HasCounts s → Reach s t → HasCounts t
Reach-HasCounts n here = n
Reach-HasCounts n (next r st) = Step-HasCounts st (Reach-HasCounts n r)

-- In every state that a pool whose least number of threads is at most its greatest can reach:
-- threadpool_busy_threadnum answers the number of workers in a task; the pool is shut down, or
-- threadpool_all_threadnum answers the number of threads that have not ended; and what the latter
-- answers lies between min_thr_num and max_thr_num.
pub counters_count :
    (memory : List Task) (exits min_thr_num max_thr_num queue_max_size : ℕ) {s : System}
    → min_thr_num ≤ max_thr_num
    → Reach (start memory exits min_thr_num max_thr_num queue_max_size) s
    → (threadpool_busy_threadnum s.pool ≡ tally is_running s.created s.workers)
      × ((s.pool.shutdown ≡ true)
          ⊎ (threadpool_all_threadnum s.pool ≡ tally is_alive s.created s.workers))
      × (s.pool.min_thr_num ≤ threadpool_all_threadnum s.pool)
      × (threadpool_all_threadnum s.pool ≤ s.pool.max_thr_num)
counters_count memory exits min_thr_num max_thr_num queue_max_size {s} h r =
    let n =
      Reach-HasCounts (start-HasCounts memory exits min_thr_num max_thr_num queue_max_size h) r in
    (
      n.busy,
      elim (Bool-cases s.pool.shutdown) [ inl shut ↦ inl shut | inr open' ↦ inr (n.live open') ],
      n.low,
      n.high,
    )
