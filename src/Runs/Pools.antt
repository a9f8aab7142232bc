-- ===== src/Runs/Pools.antt =====
-- Runs of the thread pool.
use safe_transmission.Common.{
  ℕ, ◌+◌, ◌≡◌, ◌≤◌, ◌⊎◌, inr, refl, arith, true, false, List, [], ◌∷◌, ◌++◌, Option, none, some, ok,
  length, ◌==◌, if◌then◌else◌,
}
use safe_transmission.ThreadPool.{
  Task, Pool, entry, threadpool_create, threadpool_add, look_for_task, start_task, grow,
  default_thread_vary, threadpool_all_threadnum, threadpool_busy_threadnum,
}
use safe_transmission.ThreadPool.Ring.{IsRing, waiting}
use safe_transmission.ThreadPool.System.{
  runs, holds, System, update, add, look, begin, start, Reach, here, next,
}
use safe_transmission.ThreadPool.Tally.{is_running, is_alive, tally}
use safe_transmission.ThreadPool.Order.{tasks_in_order}
use safe_transmission.ThreadPool.Invariant.{counters_count}
use safe_transmission.ThreadPool.Growth.{grow_bounds}
use safe_transmission.ThreadPool.Freed.{threadpool_add_frees}

-- A task with argument `a`.
abbrev job : ℕ → Task
job a = record { function = 1; arg = a }

abbrev memory : List Task
memory = job 99 ∷ []

-- One worker, two at most, and room for one task.
abbrev at_first : System
at_first = start memory 0 1 2 1

abbrev with_first : System
with_first = record at_first {
  pool = record at_first.pool { task_queue = job 40 ∷ []; queue_size = 1 };
  added = job 40 ∷ [];
}

abbrev first_taken : System
first_taken = record with_first {
  pool = record with_first.pool { queue_size = 0 };
  workers = update with_first.workers 0 (holds (job 40));
  taken = job 40 ∷ [];
}

abbrev first_runs : System
first_runs = record first_taken {
  pool = start_task first_taken.pool;
  workers = update first_taken.workers 0 (runs (job 40));
}

to_first_runs : Reach (start memory 0 1 2 1) first_runs
unfolding threadpool_create threadpool_add look_for_task
to_first_runs =
    next
      (next (next here (add (job 40) (some 99) with_first.pool refl refl))
        (look 0 (omega arith) refl refl))
      (begin 0 (job 40) (omega arith) refl refl)

tasks_in_order_example :
    (job 40 ∷ [] ≡ (job 40 ∷ []) ++ waiting first_runs.pool)
    × (first_runs.pool.queue_size ≤ first_runs.pool.queue_max_size)
tasks_in_order_example = tasks_in_order memory 0 1 2 1 refl (omega arith) to_first_runs

counters_count_example :
    (threadpool_busy_threadnum first_runs.pool ≡ tally is_running 1 first_runs.workers)
    × ((first_runs.pool.shutdown ≡ true)
        ⊎ (threadpool_all_threadnum first_runs.pool ≡ tally is_alive 1 first_runs.workers))
    × (first_runs.pool.min_thr_num ≤ threadpool_all_threadnum first_runs.pool)
    × (threadpool_all_threadnum first_runs.pool ≤ first_runs.pool.max_thr_num)
counters_count_example = counters_count memory 0 1 2 1 (omega arith) to_first_runs

-- The second task goes in while the first runs, and the argument of the first is freed.
add_second :
    threadpool_add first_runs.pool (job 41)
    ≡ ok (some 40, record first_runs.pool { task_queue = job 41 ∷ []; queue_size = 1 })
unfolding threadpool_add start_task threadpool_create
add_second = refl

threadpool_add_frees_example :
    let old = entry (memory ++ first_runs.added) (length first_runs.added) in
    ◌≡◌ {A = Option ℕ} (some 40) (if old.arg == 0 then none else some old.arg)
threadpool_add_frees_example =
    threadpool_add_frees memory 0 1 2 1 (job 41) (some 40)
      (record first_runs.pool { task_queue = job 41 ∷ []; queue_size = 1 }) refl (omega arith)
      to_first_runs add_second

-- A ring of two, with its front at the end.
abbrev turned : Pool
turned = record {
  threads = some 0 ∷ none ∷ none ∷ [];
  task_queue = job 1 ∷ job 2 ∷ [];
  min_thr_num = 1;
  max_thr_num = 3;
  live_thr_num = 1;
  busy_thr_num = 0;
  wait_exit_thr_num = 0;
  queue_front = 1;
  queue_rear = 0;
  queue_size = 1;
  queue_max_size = 2;
  shutdown = false;
}

turned-IsRing : IsRing turned
turned-IsRing = record {
  slots = refl;
  front_in = omega arith;
  rear_in = omega arith;
  size_in = omega arith;
  behind = inr refl;
}

grow_bounds_example :
    let out = grow (λ tid. 0) 12 1 1 turned in
    (out.0.live_thr_num + 1 ≡ out.1 + 1)
    × (1 ≤ out.0.live_thr_num)
    × (out.0.live_thr_num ≤ 3)
    × (out.0.live_thr_num ≤ 1 + default_thread_vary)
grow_bounds_example = grow_bounds (λ tid. 0) 12 1 1 turned (omega arith)
