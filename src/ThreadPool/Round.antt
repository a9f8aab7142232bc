-- ===== src/ThreadPool/Round.antt =====
-- What the array of tasks holds: the last tasks that were written to it.
use safe_transmission.Common.{
  ℕ, suc, ◌+◌, ◌-◌, ◌%◌, ◌<◌, ◌≡◌, refl, sym, ap, ◌∙◌, arith, List, [], ◌∷◌, ◌++◌, append_assoc,
  length-append, length,
}
use safe_transmission.ThreadPool.{Task, Pool, set, entry}
use safe_transmission.ThreadPool.Ring.{IsRing, tasks_from, tasks_from-set, next_index}
use safe_transmission.ThreadPool.Order.{tasks_from_some}
use safe_transmission.ThreadPool.System.{}

-- The array, read once round from `queue_rear` on.
abbrev pub once_round : Pool → List Task
once_round p = tasks_from p.task_queue p.queue_max_size p.queue_rear p.queue_max_size

-- The array holds the end of what was ever written to it, `memory` first.
pub record HoldsLast (memory : List Task) (added : List Task) (p : Pool) : Type 0 where
  pub gone : List Task
  pub count : length gone ≡ length added
  pub parts : memory ++ added ≡ gone ++ once_round p

pub once_round_some :
    (p : Pool)
    → IsRing p
    → once_round p
      ≡ entry p.task_queue p.queue_rear
        ∷ tasks_from p.task_queue p.queue_max_size
            ((p.queue_rear + 1) % p.queue_max_size)
            (p.queue_max_size - 1)
once_round_some p ring =
    tasks_from_some p.task_queue p.queue_max_size p.queue_rear p.queue_max_size
      (let r = ring.rear_in in omega arith)

-- A task written at `queue_rear` is the last of the next round.
pub round_on :
    (slots : List Task) (m r : ℕ) (task : Task)
    → length slots ≡ m
    → r < m
    → tasks_from (set slots r task) m ((r + 1) % m) m
      ≡ tasks_from slots m ((r + 1) % m) (m - 1) ++ (task ∷ [])
round_on slots m r task size h =
    let at = next_index r m h in
    let whole : suc (m - 1) ≡ m = omega arith in
    ap (tasks_from (set slots r task) m ((r + 1) % m)) (sym whole)
    ∙ tasks_from-set slots m ((r + 1) % m) (m - 1) r task size (ground arith) h (omega arith)
        (ground arith)

pub entry_behind : (gone rest : List Task) (x : Task) → entry (gone ++ (x ∷ rest)) (length gone) ≡ x
entry_behind [] rest x = refl
entry_behind (g ∷ gone) rest x = entry_behind gone rest x

-- An array read from its start.
pub tasks_from_start :
    (gone xs : List Task) (m : ℕ)
    → length gone + length xs ≡ m
    → tasks_from (gone ++ xs) m (length gone) (length xs) ≡ xs
unfolding tasks_from
tasks_from_start gone [] m h = refl
tasks_from_start gone (x ∷ []) m h = ap (λ t. t ∷ []) (entry_behind gone [] x)
tasks_from_start gone (x ∷ (y ∷ ys)) m h =
    let grow_front = length-append gone (x ∷ []) in
    let moved_on : (length gone + 1) % m ≡ length (gone ++ (x ∷ [])) =
      ground (arith, next_index (length gone) m) in
    let rest = tasks_from_start (gone ++ (x ∷ [])) (y ∷ ys) m (omega arith) in
    let there =
      ap (λ t. tasks_from t m (length (gone ++ (x ∷ []))) (length (y ∷ ys)))
        (append_assoc gone (x ∷ []) (y ∷ ys)) in
    ap (λ t. t ∷ tasks_from (gone ++ (x ∷ (y ∷ ys))) m ((length gone + 1) % m) (length (y ∷ ys)))
      (entry_behind gone (y ∷ ys) x)
    ∙ ap (λ i. x ∷ tasks_from (gone ++ (x ∷ (y ∷ ys))) m i (length (y ∷ ys))) moved_on
    ∙ ap (λ t. x ∷ t) (sym there ∙ rest)

-- A task is added.
pub added_last :
    (memory added : List Task) (p : Pool) (task : Task)
    → IsRing p
    → HoldsLast memory added p
    → HoldsLast memory (added ++ (task ∷ [])) (record p {
      task_queue = set p.task_queue p.queue_rear task;
      queue_rear = (p.queue_rear + 1) % p.queue_max_size;
      queue_size = p.queue_size + 1;
    })
added_last memory added p task ring last =
    let first = entry p.task_queue p.queue_rear in
    let others =
      tasks_from p.task_queue p.queue_max_size ((p.queue_rear + 1) % p.queue_max_size)
        (p.queue_max_size - 1) in
    record {
      gone = last.gone ++ (first ∷ []);
      count =
          length-append last.gone (first ∷ [])
          ∙ ap (λ k. k + 1) last.count
          ∙ sym (length-append added (task ∷ []));
      parts =
          sym (append_assoc memory added (task ∷ []))
          ∙ ap (λ t. t ++ (task ∷ []))
              (last.parts ∙ ap (λ t. last.gone ++ t) (once_round_some p ring))
          ∙ ap (λ t. t ++ (task ∷ [])) (sym (append_assoc last.gone (first ∷ []) others))
          ∙ append_assoc (last.gone ++ (first ∷ [])) others (task ∷ [])
          ∙ ap (λ t. (last.gone ++ (first ∷ [])) ++ t)
              (sym
                (round_on p.task_queue p.queue_max_size p.queue_rear task ring.slots ring.rear_in));
    }

-- A step that leaves the array and its end alone.
pub HoldsLast-same :
    (memory added : List Task) (p q : Pool)
    → (q.task_queue ≡ p.task_queue)
      × (q.queue_rear ≡ p.queue_rear)
      × (q.queue_max_size ≡ p.queue_max_size)
    → HoldsLast memory added p
    → HoldsLast memory added q
HoldsLast-same memory added p q same last = record {
  gone = last.gone;
  count = last.count;
  parts = rw (same.0, same.1, same.2) last.parts;
}
