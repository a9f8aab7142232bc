-- ===== src/ThreadPool/System.antt =====
-- The pool with its threads, interleaved in any order. A step is what one thread does under a lock, or
-- the end of its waiting or of its task.
use safe_transmission.Common.{ℕ, ◌<◌, ◌≡◌, List, [], ◌∷◌, ◌++◌, Option, ok, ◌==◌, if◌then◌else◌}
use safe_transmission.ThreadPool.{
  Task, Pool, threadpool_create, threadpool_add, Next, sleep, leave, work, look_for_task, wake_up,
  start_task, end_task, grow, shrink, shut_down,
}

-- Where a worker stands: at the head of its loop, in the wait, with a task that it has taken and not
-- begun, in a task, or at its end.
pub data Worker : Type 0 where
  awake : Worker
  asleep : Worker
  holds : Task → Worker
  runs : Task → Worker
  ended : Worker

-- The threads from number `created` on are still to come. `added` and `taken` are histories: the tasks
-- that went into the queue and those that came out.
pub record System : Type 0 where
  pub pool : Pool
  pub workers : ℕ → Worker
  pub created : ℕ
  pub added : List Task
  pub taken : List Task

abbrev pub update : (ℕ → Worker) → ℕ → Worker → ℕ → Worker
update f i w j = if i == j then w else f j

-- Where a look for a task has led worker `i`.
abbrev pub moved : System → ℕ → Next × Pool → System
moved s i (sleep, p) = record s { pool = p; workers = update s.workers i asleep }
moved s i (leave, p) = record s { pool = p; workers = update s.workers i ended }
moved s i (work t, p) = record s {
  pool = p;
  workers = update s.workers i (holds t);
  taken = s.taken ++ (t ∷ []);
}

-- After a round of adjust_thread that may create threads.
abbrev pub grown : System → Pool × ℕ → System
grown s (p, next) = record s { pool = p; created = next }

-- A wait may end at any time. The numbers that adjust_thread goes by may be old.
pub data Step (s t : System) : Type 0 where
  add :
      (task : Task) (freed : Option ℕ) (p : Pool)
      → threadpool_add s.pool task ≡ ok (freed, p)
      → t ≡ record s { pool = p; added = s.added ++ (task ∷ []) }
      → Step s t
  look :
      (i : ℕ)
      → i < s.created
      → s.workers i ≡ awake
      → t ≡ moved s i (look_for_task s.pool)
      → Step s t
  wake : (i : ℕ) → i < s.created → s.workers i ≡ asleep → t ≡ moved s i (wake_up s.pool) → Step s t
  begin :
      (i : ℕ) (task : Task)
      → i < s.created
      → s.workers i ≡ holds task
      → t ≡ record s { pool = start_task s.pool; workers = update s.workers i (runs task) }
      → Step s t
  finish :
      (i : ℕ) (task : Task)
      → i < s.created
      → s.workers i ≡ runs task
      → t ≡ record s { pool = end_task s.pool; workers = update s.workers i awake }
      → Step s t
  more :
      (kill : ℕ → ℕ) (queue_size live_thr_num : ℕ)
      → t ≡ grown s (grow kill queue_size live_thr_num s.created s.pool)
      → Step s t
  fewer :
      (busy_thr_num live_thr_num : ℕ)
      → t ≡ record s { pool = shrink busy_thr_num live_thr_num s.pool }
      → Step s t
  close : t ≡ record s { pool = shut_down s.pool } → Step s t

abbrev pub start : List Task → ℕ → ℕ → ℕ → ℕ → System
start memory exits min_thr_num max_thr_num queue_max_size = record {
  pool = threadpool_create memory exits min_thr_num max_thr_num queue_max_size;
  workers = λ i. awake;
  created = min_thr_num;
  added = [];
  taken = [];
}

pub data Reach (s : System) : System → Type 0 where
  here : Reach s s
  next : {t u : System} → Reach s t → Step t u → Reach s u
