-- ===== src/ThreadPool.antt =====
-- Safe_transmission/epoll/threadpool.c, the thread pool: what the functions of the pool do to its struct. What runs
-- under a lock is one function here.
pub mod Ring
pub mod Tally
pub mod System
pub mod Growth
pub mod Counted
pub mod Invariant
pub mod Order
pub mod Round
pub mod Freed
pub mod Threads
pub mod Destroyed
use safe_transmission.Common.{
  ℕ, zero, suc, ◌+◌, ◌-◌, ◌*◌, ◌%◌, ◌^◌, Bool, true, false, List, [], ◌∷◌, Option, none, some, ltb,
  minus_one, ◌>>◌, leb, ◌==◌, ◌&&◌, ◌||◌, not, if◌then◌else◌, length, Result, ok, fault, stuck,
  ◌>>=◌, ◌>>◌, need,
}

-- threadpool_task_t: two pointers, 0 for a null one.
pub record Task : Type 0 where
  pub function : ℕ
  pub arg : ℕ

-- threadpool_t without its locks and conditions. `threads` has the numbers of the threads that were
-- created for its entries.
pub record Pool : Type 0 where
  pub threads : List (Option ℕ)
  pub task_queue : List Task
  pub min_thr_num : ℕ
  pub max_thr_num : ℕ
  pub live_thr_num : ℕ
  pub busy_thr_num : ℕ
  pub wait_exit_thr_num : ℕ
  pub queue_front : ℕ
  pub queue_rear : ℕ
  pub queue_size : ℕ
  pub queue_max_size : ℕ
  pub shutdown : Bool

-- `a[i]`, and the array after `a[i] = x`. An index that the array does not have is what the lemmas on
-- IsRing exclude; threadpool_add tests it.
abbrev pub entry : List Task → ℕ → Task
entry [] i = record { function = 0; arg = 0 }
entry (t ∷ ts) zero = t
entry (t ∷ ts) (suc i) = entry ts i

abbrev pub set {ℓ} : {A : Type ℓ} → List A → ℕ → A → List A
set [] i x = []
set (y ∷ ys) zero x = x ∷ ys
set (y ∷ ys) (suc i) x = y ∷ set ys i x

-- The array of threads, with the first ones started.
pub numbered : ℕ → ℕ → ℕ → List (Option ℕ)
numbered zero n i = []
numbered (suc k) n i = (if ltb i n then some i else none) ∷ numbered k n (suc i)

-- The first argument is the memory that malloc hands out for the queue, as it is; `exits` is what
-- wait_exit_thr_num holds, which nothing sets. Every request of the function is granted, and
-- min_thr_num is taken to be at most max_thr_num, for which `threads` has room.
unfoldable pub threadpool_create : List Task → ℕ → ℕ → ℕ → ℕ → Pool
unfolding numbered
threadpool_create memory exits min_thr_num max_thr_num queue_max_size = record {
  threads = numbered max_thr_num min_thr_num 0;
  task_queue = memory;
  min_thr_num = min_thr_num;
  max_thr_num = max_thr_num;
  live_thr_num = min_thr_num;
  busy_thr_num = 0;
  wait_exit_thr_num = exits;
  queue_front = 0;
  queue_rear = 0;
  queue_size = 0;
  queue_max_size = queue_max_size;
  shutdown = false;
}

-- The pointer that is freed, if any, and the pool. `stuck` is a call that waits for room. After a
-- shutdown the lock is given back twice.
unfoldable pub threadpool_add : Pool → Task → Result (Option ℕ × Pool)
threadpool_add p task = do
  let old = entry p.task_queue p.queue_rear
  let adding : Result (Option ℕ × Pool) = do
    need (ltb p.queue_rear (length p.task_queue))
    need (not p.shutdown)
    ok (
      (if old.arg == 0 then none else some old.arg),
      record p {
        task_queue = set p.task_queue p.queue_rear task;
        queue_rear = (p.queue_rear + 1) % p.queue_max_size;
        queue_size = p.queue_size + 1;
      },
    )
  if (p.queue_size == p.queue_max_size) && not p.shutdown then stuck else adding

-- Where a worker goes from the head of the loop of threadpool_thread: to sleep on the condition, to its
-- end, or on with a task.
pub data Next : Type 0 where
  sleep : Next
  leave : Next
  work : Task → Next

-- The test of the inner loop, and what follows it under the lock.
unfoldable pub look_for_task : Pool → Next × Pool
look_for_task p =
    let found : Next × Pool = (
      work (entry p.task_queue p.queue_front),
      record p {
        queue_front = (p.queue_front + 1) % p.queue_max_size;
        queue_size = p.queue_size - 1;
      },
    ) in
    if (p.queue_size == 0) && not p.shutdown
    then (sleep, p)
    else if p.shutdown
    then (leave, p)
    else found

-- After the wait: the worker may be one of those that are to end.
unfoldable pub wake_up : Pool → Next × Pool
wake_up p =
    let p' : Pool = record p { wait_exit_thr_num = p.wait_exit_thr_num - 1 } in
    if ltb 0 p.wait_exit_thr_num
    then (if ltb p.min_thr_num p.live_thr_num
        then (leave, record p' { live_thr_num = p.live_thr_num - 1 })
        else look_for_task p')
    else look_for_task p

-- Both sides of the call of the task.
unfoldable pub start_task : Pool → Pool
start_task p = record p { busy_thr_num = p.busy_thr_num + 1 }

unfoldable pub end_task : Pool → Pool
end_task p = record p { busy_thr_num = p.busy_thr_num - 1 }

abbrev pub default_thread_vary : ℕ
default_thread_vary = 10

abbrev esrch : ℕ
esrch = 3

-- On what `pthread_kill(tid, 0)` answers.
abbrev pub is_thread_alive : ℕ → Bool
is_thread_alive kill_rc = not (kill_rc == esrch)

-- `threads[i] == 0 || !is_thread_alive(threads[i])`; `kill` has the answers of pthread_kill.
abbrev pub is_free : (ℕ → ℕ) → Option ℕ → Bool
is_free kill none = true
is_free kill (some tid) = not (is_thread_alive (kill tid))

-- The loop of adjust_thread, where pthread_create succeeds, over the entries that are left: `next` is the number of the next thread.
-- The loop's test is true as long as `add` and the live threads allow; after that nothing changes.
unfoldable pub add_threads : (ℕ → ℕ) → ℕ → List (Option ℕ) → ℕ → ℕ → ℕ → List (Option ℕ) × ℕ × ℕ
add_threads kill max_thr_num [] add live next = ([], live, next)
add_threads kill max_thr_num (t ∷ ts) add live next =
    let fits = (ltb add default_thread_vary && ltb live max_thr_num) && is_free kill t in
    let rest =
      add_threads kill max_thr_num ts (if fits then add + 1 else add)
        (if fits then live + 1 else live) (if fits then next + 1 else next) in
    ((if fits then some next else t) ∷ rest.0, rest.1, rest.2)

-- The first part of a round of adjust_thread, on the numbers that it has read before, and the number
-- of the next thread.
unfoldable pub grow : (ℕ → ℕ) → ℕ → ℕ → ℕ → Pool → Pool × ℕ
grow kill queue_size live_thr_num next p =
    let added = add_threads kill p.max_thr_num p.threads 0 p.live_thr_num next in
    if leb 10 queue_size && ltb live_thr_num p.max_thr_num
    then (record p { threads = added.0; live_thr_num = added.1 }, added.2)
    else (p, next)

-- The second part.
unfoldable pub shrink : ℕ → ℕ → Pool → Pool
shrink busy_thr_num live_thr_num p =
    if ltb (busy_thr_num * 2) live_thr_num && ltb p.min_thr_num live_thr_num
    then record p { wait_exit_thr_num = default_thread_vary }
    else p

-- The flag that threadpool_destroy sets before it waits for the threads.
unfoldable pub shut_down : Pool → Pool
shut_down p = record p { shutdown = true }

-- The counters that threadpool_all_threadnum and threadpool_busy_threadnum hand out.
abbrev pub threadpool_all_threadnum : Pool → ℕ
threadpool_all_threadnum p = p.live_thr_num

abbrev pub threadpool_busy_threadnum : Pool → ℕ
threadpool_busy_threadnum p = p.busy_thr_num

-- `pthread_join(threads[i], NULL)` for the first entries: the call waits for the end of the thread, and
-- there is no thread 0.
unfoldable pub join_threads : (ℕ → Bool) → ℕ → List (Option ℕ) → Result (Unit {0})
join_threads ended zero threads = ok tt
join_threads ended (suc k) [] = fault
join_threads ended (suc k) (none ∷ threads) = fault
join_threads ended (suc k) (some tid ∷ threads) =
    let rest = join_threads ended k threads in if ended tid then rest else stuck

-- The two waits of threadpool_destroy: `meanwhile` is what the threads make of the pool after the flag is
-- set, `adjust_ended` says whether the thread of adjust_thread has ended, and `ended` which of the others
-- have. -1 answers a null pointer; behind the waits threadpool_free leaves nothing of the pool. The broadcast
-- between the waits does nothing here, where threads wake at any time, and the loop of joins reads
-- live_thr_num once, in the pool that the threads have made.
unfoldable pub threadpool_destroy : Option Pool → (Pool → Pool) → Bool → (ℕ → Bool) → Result ℕ
threadpool_destroy none meanwhile adjust_ended ended = ok minus_one
threadpool_destroy (some p) meanwhile adjust_ended ended =
    let q = meanwhile (shut_down p) in
    let joined : Result ℕ = join_threads ended q.live_thr_num q.threads >> ok 0 in
    if adjust_ended then joined else stuck
