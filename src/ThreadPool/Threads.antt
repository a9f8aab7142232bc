-- ===== src/ThreadPool/Threads.antt =====
-- The array of threads before adjust_thread adds to it.
use safe_transmission.Common.{
  ℕ, ◌+◌, ◌-◌, ◌≤◌, ◌<◌, ◌≡◌, ◌⊎◌, inl, inr, refl, sym, ap, ◌∙◌, arith, List, [], ◌∷◌, Option, ok,
  ltb, leb, ◌&&◌, Bool-cases,
}
use mathlib.Core.Path.{subst}
use safe_transmission.ThreadPool.{
  Task, Pool, threadpool_create, numbered, threadpool_add, Next, sleep, leave, work, look_for_task,
  wake_up, start_task, end_task, default_thread_vary, is_free, add_threads, grow, shrink, shut_down,
}
use safe_transmission.ThreadPool.Growth.{grow_bounds, grow_keeps}
use safe_transmission.ThreadPool.Invariant.{counters_count}
use safe_transmission.ThreadPool.System.{
  System, moved, Step, add, look, wake, begin, finish, more, fewer, close, start, Reach, here, next,
}

-- As long as no thread was added, the array has the first threads in order.
pub record HasThreads (p : Pool) (c : ℕ) : Type 0 where
  pub few : p.live_thr_num ≤ c
  pub least : p.min_thr_num ≤ c
  pub slots : (c ≡ p.min_thr_num) → p.threads ≡ numbered p.max_thr_num p.min_thr_num 0

-- A change that leaves the array and lets no thread in.
abbrev SameThreads : Pool → Pool → Type 0
SameThreads p q =
    (q.threads ≡ p.threads)
    × (q.live_thr_num ≤ p.live_thr_num)
    × (q.min_thr_num ≡ p.min_thr_num)
    × (q.max_thr_num ≡ p.max_thr_num)

HasThreads-same : (p q : Pool) (c : ℕ) → SameThreads p q → HasThreads p c → HasThreads q c
HasThreads-same p q c (t, l, m, x) h = record {
  few = let f = h.few in omega arith;
  least = let f = h.least in omega arith;
  slots = λ e.
      t
      ∙ h.slots (e ∙ m)
      ∙ sym (ap (λ k. numbered k p.min_thr_num 0) x)
      ∙ sym (ap (λ k. numbered q.max_thr_num k 0) m);
}

look_for_task_keeps : (p : Pool) → SameThreads p (look_for_task p).1
unfolding look_for_task
look_for_task_keeps p = ground arith

wake_up_keeps : (p : Pool) → SameThreads p (wake_up p).1
unfolding wake_up
wake_up_keeps p = ground (
  arith,
  look_for_task_keeps p,
  look_for_task_keeps (record p { wait_exit_thr_num = p.wait_exit_thr_num - 1 }),
)

threadpool_add_keeps :
    (p q : Pool) (task : Task) (freed : Option ℕ)
    → threadpool_add p task ≡ ok (freed, q)
    → SameThreads p q
unfolding threadpool_add
threadpool_add_keeps p q task freed h = ground (arith, h)

-- Where the loop of adjust_thread adds no thread, the array stays.
add_threads_more :
    (kill : ℕ → ℕ) (max_thr_num : ℕ) (threads : List (Option ℕ)) (added live n : ℕ)
    → let out = add_threads kill max_thr_num threads added live n in
      (n ≤ out.2) × ((out.0 ≡ threads) ⊎ (n < out.2))
unfolding add_threads
add_threads_more kill max_thr_num [] added live n = (omega arith, inl refl)
add_threads_more kill max_thr_num (t ∷ ts) added live n =
    elim (Bool-cases ((ltb added default_thread_vary && ltb live max_thr_num) && is_free kill t)) [
      | inl fit ↦
          let rest = add_threads_more kill max_thr_num ts (added + 1) (live + 1) (n + 1) in
          rw fit (omega arith, inr (omega arith))
      | inr unfit ↦
          let rest = add_threads_more kill max_thr_num ts added live n in
          rw unfit (
            rest.0,
            elim rest.1 [ inl same ↦ inl (ap (λ l. t ∷ l) same) | inr greater ↦ inr greater ],
          )
    ]

grow_more :
    (kill : ℕ → ℕ) (queue_size live n : ℕ) (p : Pool)
    → let out = grow kill queue_size live n p in
      (n ≤ out.1) × ((out.0.threads ≡ p.threads) ⊎ (n < out.1))
unfolding grow
grow_more kill queue_size live n p =
    elim (Bool-cases (leb 10 queue_size && ltb live p.max_thr_num)) [
      | inl grows ↦ rw grows (add_threads_more kill p.max_thr_num p.threads 0 p.live_thr_num n)
      | inr stays ↦ rw stays (omega arith, inl refl)
    ]

-- A round of adjust_thread.
grown-HasThreads :
    (kill : ℕ → ℕ) (queue_size live n : ℕ) (p : Pool)
    → p.live_thr_num ≤ p.max_thr_num
    → HasThreads p n
    → HasThreads (grow kill queue_size live n p).0 (grow kill queue_size live n p).1
grown-HasThreads kill queue_size live n p high h =
    let (count, _, _, _) = grow_bounds kill queue_size live n p high in
    let (_, m, x, _) = grow_keeps kill queue_size live n p in
    let (bigger, same) = grow_more kill queue_size live n p in
    record {
      few = let f = h.few in omega arith;
      least = let f = h.least in omega arith;
      slots = λ e. elim same [
        | inl t ↦
            let least = h.least in
            t
            ∙ h.slots (omega arith)
            ∙ sym (ap (λ k. numbered k p.min_thr_num 0) x)
            ∙ sym (ap (λ k. numbered (grow kill queue_size live n p).0.max_thr_num k 0) m)
        | inr greater ↦ let least = h.least in absurd (omega arith)
      ];
    }

abbrev pub ThreadsOf : System → Type 0
ThreadsOf s = HasThreads s.pool s.created

ThreadsOf-moved :
    (s : System) (i : ℕ) (out : Next × Pool)
    → HasThreads out.1 s.created
    → ThreadsOf (moved s i out)
ThreadsOf-moved s i (sleep, p) h = h
ThreadsOf-moved s i (leave, p) h = h
ThreadsOf-moved s i (work t, p) h = h

Step-ThreadsOf :
    {s t : System} → Step s t → s.pool.live_thr_num ≤ s.pool.max_thr_num → ThreadsOf s → ThreadsOf t
unfolding start_task end_task shut_down shrink
Step-ThreadsOf {s} (add task freed p e eq) high h =
    subst ThreadsOf (sym eq)
      (HasThreads-same s.pool p s.created (threadpool_add_keeps s.pool p task freed e) h)
Step-ThreadsOf {s} (look i lt at eq) high h = subst ThreadsOf (sym eq) (
    ThreadsOf-moved s i (look_for_task s.pool)
      (HasThreads-same s.pool _ s.created (look_for_task_keeps s.pool) h))
Step-ThreadsOf {s} (wake i lt at eq) high h = subst ThreadsOf (sym eq) (
    ThreadsOf-moved s i (wake_up s.pool)
      (HasThreads-same s.pool _ s.created (wake_up_keeps s.pool) h))
Step-ThreadsOf {s} (begin i task lt at eq) high h =
    subst ThreadsOf (sym eq) (HasThreads-same s.pool _ s.created (refl, omega arith, refl, refl) h)
Step-ThreadsOf {s} (finish i task lt at eq) high h =
    subst ThreadsOf (sym eq) (HasThreads-same s.pool _ s.created (refl, omega arith, refl, refl) h)
Step-ThreadsOf {s} (more alive q l eq) high h =
    subst ThreadsOf (sym eq) (grown-HasThreads alive q l s.created s.pool high h)
Step-ThreadsOf {s} (fewer b l eq) high h =
    subst ThreadsOf (sym eq) (HasThreads-same s.pool (shrink b l s.pool) s.created (ground arith) h)
Step-ThreadsOf {s} (close eq) high h =
    subst ThreadsOf (sym eq) (HasThreads-same s.pool _ s.created (refl, omega arith, refl, refl) h)

start-ThreadsOf :
    (memory : List Task) (exits min_thr_num max_thr_num queue_max_size : ℕ)
    → ThreadsOf (start memory exits min_thr_num max_thr_num queue_max_size)
unfolding threadpool_create
start-ThreadsOf memory exits min_thr_num max_thr_num queue_max_size = record {
  few = omega arith;
  least = omega arith;
  slots = λ e. refl;
}

pub Reach-ThreadsOf :
    (memory : List Task) (exits min_thr_num max_thr_num queue_max_size : ℕ) {s : System}
    → min_thr_num ≤ max_thr_num
    → Reach (start memory exits min_thr_num max_thr_num queue_max_size) s
    → ThreadsOf s
Reach-ThreadsOf memory exits min_thr_num max_thr_num queue_max_size order here =
    start-ThreadsOf memory exits min_thr_num max_thr_num queue_max_size
Reach-ThreadsOf memory exits min_thr_num max_thr_num queue_max_size order (next r st) =
    let counts = counters_count memory exits min_thr_num max_thr_num queue_max_size order r in
    Step-ThreadsOf st counts.3
      (Reach-ThreadsOf memory exits min_thr_num max_thr_num queue_max_size order r)
