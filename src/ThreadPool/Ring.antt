-- ===== src/ThreadPool/Ring.antt =====
-- The ring of tasks of threadpool.c as a queue.
use safe_transmission.Common.{
  ℕ, zero, suc, ◌+◌, ◌-◌, ◌%◌, ◌≤◌, ◌<◌, ◌≡◌, ◌≢◌, ◌⊎◌, inl, inr, refl, ap, ◌∙◌, arith, false, List,
  [], ◌∷◌, ◌++◌, Option, none, some, length, ok, ◌==◌, if◌then◌else◌,
}
use safe_transmission.ThreadPool.{Task, Pool, entry, set, threadpool_add, work, look_for_task}
use native.Mathlib.Decide.{dec_lt}
use native.Mathlib.Nat.{mod-eq_of_lt, mod_self}

-- The `k` tasks from index `i` on, round the end of the array.
unfoldable pub tasks_from : List Task → ℕ → ℕ → ℕ → List Task
tasks_from slots m i zero = []
tasks_from slots m i (suc k) = entry slots i ∷ tasks_from slots m ((i + 1) % m) k

-- The tasks that wait, the oldest first.
abbrev pub waiting : Pool → List Task
waiting p = tasks_from p.task_queue p.queue_max_size p.queue_front p.queue_size

-- The indices lie in the array, and `queue_rear` is `queue_size` entries behind `queue_front`.
pub record IsRing (p : Pool) : Type 0 where
  pub slots : length p.task_queue ≡ p.queue_max_size
  pub front_in : p.queue_front < p.queue_max_size
  pub rear_in : p.queue_rear < p.queue_max_size
  pub size_in : p.queue_size ≤ p.queue_max_size
  pub behind :
      (p.queue_rear ≡ p.queue_front + p.queue_size)
      ⊎ (p.queue_rear + p.queue_max_size ≡ p.queue_front + p.queue_size)

pub next_index :
    (i m : ℕ) → i < m → ((i + 1 ≡ m) × ((i + 1) % m ≡ 0)) ⊎ ((i + 1 < m) × ((i + 1) % m ≡ i + 1))
next_index i m h = elim (dec_lt (i + 1) m) [
  | yes below ↦ inr (below, mod-eq_of_lt below)
  | no last ↦ let whole : i + 1 ≡ m = omega arith in inl (whole, ap (λ k. k % m) whole ∙ mod_self m)
]

-- Where the end of a stretch is, seen from its second entry.
next_behind :
    (i m k r : ℕ)
    → i < m
    → r < m
    → suc k ≤ m
    → (r ≡ i + suc k) ⊎ (r + m ≡ i + suc k)
    → ((i + 1) % m < m) × ((r ≡ (i + 1) % m + k) ⊎ (r + m ≡ (i + 1) % m + k))
next_behind i m k r hi hr hk at = ground (arith, next_index i m hi)

pub length-set {ℓ} : {A : Type ℓ} (xs : List A) (i : ℕ) (x : A) → length (set xs i x) ≡ length xs
length-set [] i x = refl
length-set (y ∷ ys) zero x = refl
length-set (y ∷ ys) (suc i) x = ap suc (length-set ys i x)

entry-set : (xs : List Task) (i : ℕ) (x : Task) → i < length xs → entry (set xs i x) i ≡ x
entry-set [] i x h = absurd (omega arith)
entry-set (y ∷ ys) zero x h = refl
entry-set (y ∷ ys) (suc i) x h = entry-set ys i x (omega arith)

entry-set_ne : (xs : List Task) (i j : ℕ) (x : Task) → i ≢ j → entry (set xs i x) j ≡ entry xs j
entry-set_ne [] i j x h = refl
entry-set_ne (y ∷ ys) zero zero x h = absurd (h refl)
entry-set_ne (y ∷ ys) zero (suc j) x h = refl
entry-set_ne (y ∷ ys) (suc i) zero x h = refl
entry-set_ne (y ∷ ys) (suc i) (suc j) x h = entry-set_ne ys i j x (λ e. h (ap suc e))

-- A task written at the end of the stretch goes to the end of the queue.
pub tasks_from-set :
    (slots : List Task) (m i k r : ℕ) (task : Task)
    → length slots ≡ m
    → i < m
    → r < m
    → k < m
    → (r ≡ i + k) ⊎ (r + m ≡ i + k)
    → tasks_from (set slots r task) m i (suc k) ≡ tasks_from slots m i k ++ (task ∷ [])
unfolding tasks_from
tasks_from-set slots m i zero r task size hi hr hk at =
    let here : r ≡ i = ground arith in
    rw here (ap (λ t. t ∷ []) (entry-set slots i task (omega arith)))
tasks_from-set slots m i (suc k) r task size hi hr hk at =
    let next = next_behind i m k r hi hr (omega arith) at in
    let later = tasks_from-set slots m ((i + 1) % m) k r task size next.0 hr (omega arith) next.1 in
    let apart : r ≢ i = λ e. ground arith in
    rw (entry-set_ne slots r i task apart) (ap (λ t. entry slots i ∷ t) later)

-- If the queue is a ring with room and the pool is not shut down, threadpool_add returns with the task
-- behind those that wait, and the queue is still a ring.
pub threadpool_add_enqueues :
    (p : Pool) (task : Task)
    → IsRing p
    → p.queue_size < p.queue_max_size
    → p.shutdown ≡ false
    → (freed : Option ℕ) × (p' : Pool) × (threadpool_add p task ≡ ok (freed, p'))
      × IsRing p'
      × (waiting p' ≡ waiting p ++ (task ∷ []))
unfolding threadpool_add
threadpool_add_enqueues p task ring room open' =
    let old = entry p.task_queue p.queue_rear in
    (
      if old.arg == 0 then none else some old.arg,
      record p {
        task_queue = set p.task_queue p.queue_rear task;
        queue_rear = (p.queue_rear + 1) % p.queue_max_size;
        queue_size = p.queue_size + 1;
      },
      ground (arith, ring.slots),
      record {
        slots = length-set p.task_queue p.queue_rear task ∙ ring.slots;
        front_in = ring.front_in;
        rear_in = ground (arith, next_index p.queue_rear p.queue_max_size ring.rear_in);
        size_in = omega arith;
        behind = ground (arith, next_index p.queue_rear p.queue_max_size ring.rear_in);
      },
      ap (tasks_from (set p.task_queue p.queue_rear task) p.queue_max_size p.queue_front)
            (omega arith)
          ∙ tasks_from-set p.task_queue p.queue_max_size p.queue_front p.queue_size p.queue_rear
              task ring.slots ring.front_in ring.rear_in room ring.behind,
    )

tasks_from-cons :
    (slots : List Task) (m i k : ℕ) (task : Task) (rest : List Task)
    → tasks_from slots m i k ≡ task ∷ rest
    → (entry slots i ≡ task) × (0 < k) × (tasks_from slots m ((i + 1) % m) (k - 1) ≡ rest)
unfolding tasks_from
tasks_from-cons slots m i zero task rest h = cc
tasks_from-cons slots m i (suc k) task rest h =
    let less : suc k - 1 ≡ k = omega arith in (cc, omega arith, rw less (cc))

-- If the queue is a ring, the pool is not shut down and tasks wait, a worker that looks for a task gets
-- the oldest, the others wait on, and the queue is still a ring.
pub look_for_task_dequeues :
    (p : Pool) (task : Task) (rest : List Task)
    → IsRing p
    → p.shutdown ≡ false
    → waiting p ≡ task ∷ rest
    → (p' : Pool) × (look_for_task p ≡ (work task, p')) × IsRing p' × (waiting p' ≡ rest)
unfolding look_for_task
look_for_task_dequeues p task rest ring open' full =
    let first =
      tasks_from-cons p.task_queue p.queue_max_size p.queue_front p.queue_size task rest full in
    (
      record p {
        queue_front = (p.queue_front + 1) % p.queue_max_size;
        queue_size = p.queue_size - 1;
      },
      ground (arith, first),
      record {
        slots = ring.slots;
        front_in = ground (arith, next_index p.queue_front p.queue_max_size ring.front_in);
        rear_in = ring.rear_in;
        size_in = omega arith;
        behind = ground (arith, next_index p.queue_front p.queue_max_size ring.front_in, first.1);
      },
      first.2,
    )
