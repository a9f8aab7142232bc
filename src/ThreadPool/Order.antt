-- ===== src/ThreadPool/Order.antt =====
-- Tasks come out of the pool in the order in which they went in.
use safe_transmission.Common.{
  ℕ, zero, suc, ◌+◌, ◌-◌, ◌%◌, ltb, ◌≤◌, ◌<◌, ◌≡◌, ◌⊎◌, inl, inr, refl, sym, ap, ◌∙◌, arith, true,
  false, List, [], ◌∷◌, ◌++◌, append_assoc, Option, length, ok, ◌==◌, Bool-cases,
}
use mathlib.Core.Path.{subst}
use safe_transmission.ThreadPool.{
  Task, Pool, threadpool_create, threadpool_add, sleep, leave, work, look_for_task, wake_up,
  start_task, end_task, grow, shrink, shut_down, entry,
}
use safe_transmission.ThreadPool.Ring.{
  IsRing, waiting, tasks_from, threadpool_add_enqueues, look_for_task_dequeues,
}
use safe_transmission.ThreadPool.System.{
  Worker, System, moved, Step, add, look, wake, begin, finish, more, fewer, close, start, Reach,
  here, next,
}

-- The queue is a ring, and with what came out of it in front it is what went in.
pub record IsOrdered (s : System) : Type 0 where
  pub ring : IsRing s.pool
  pub order : s.added ≡ s.taken ++ waiting s.pool

pub tasks_from_some :
    (slots : List Task) (m i k : ℕ)
    → 0 < k
    → tasks_from slots m i k ≡ entry slots i ∷ tasks_from slots m ((i + 1) % m) (k - 1)
unfolding tasks_from
tasks_from_some slots m i zero h = absurd (omega arith)
tasks_from_some slots m i (suc k) h = let less : suc k - 1 ≡ k = omega arith in rw less refl

-- The three outcomes of a look for a task.
pub look_for_task-cases :
    (p : Pool)
    → IsRing p
    → ((p.shutdown ≡ false) × (look_for_task p ≡ (sleep, p)))
      ⊎ ((p.shutdown ≡ true) × (look_for_task p ≡ (leave, p)))
      ⊎ ((task : Task) × (p' : Pool) × (p.shutdown ≡ false)
          × (look_for_task p ≡ (work task, p'))
          × IsRing p'
          × (waiting p ≡ task ∷ waiting p'))
unfolding look_for_task
look_for_task-cases p ring = elim (Bool-cases p.shutdown) [
  | inl shut ↦ inr (inl (shut, ground (arith, shut)))
  | inr not_shut ↦ elim (Bool-cases (p.queue_size == 0)) [
    | inl none_there ↦ inl (not_shut, ground (arith, not_shut, none_there))
    | inr some_there ↦
        let first =
          tasks_from_some p.task_queue p.queue_max_size p.queue_front p.queue_size (ground arith) in
        let got =
          look_for_task_dequeues p (entry p.task_queue p.queue_front)
            (tasks_from p.task_queue p.queue_max_size ((p.queue_front + 1) % p.queue_max_size)
              (p.queue_size - 1))
            ring not_shut first in
        inr (
          inr (
            entry p.task_queue p.queue_front,
            got.0,
            not_shut,
            got.1,
            got.2,
            first ∙ ap (λ t. entry p.task_queue p.queue_front ∷ t) (sym got.3),
          ))
  ]
]

-- A change of the other fields.
abbrev SameQueue : Pool → Pool → Type 0
SameQueue p q =
    (q.task_queue ≡ p.task_queue)
    × (q.queue_front ≡ p.queue_front)
    × (q.queue_rear ≡ p.queue_rear)
    × (q.queue_size ≡ p.queue_size)
    × (q.queue_max_size ≡ p.queue_max_size)

IsRing-same : (p q : Pool) → SameQueue p q → IsRing p → IsRing q × (waiting q ≡ waiting p)
IsRing-same p q same ring = (
  record {
    slots = ground (arith, ring.slots);
    front_in = omega arith;
    rear_in = omega arith;
    size_in = omega arith;
    behind = ground arith;
  },
  rw (same.0, same.1, same.3, same.4) refl,
)

-- A step that leaves the queue alone.
kept :
    (s : System) (q : Pool) (w : ℕ → Worker) (c : ℕ)
    → SameQueue s.pool q
    → IsOrdered s
    → IsOrdered (record s { pool = q; workers = w; created = c })
kept s q w c same o =
    let r = IsRing-same s.pool q same o.ring in
    record { ring = r.0; order = o.order ∙ ap (λ t. s.taken ++ t) (sym r.1) }

open_with_room :
    (p : Pool) (task : Task) {out : Option ℕ × Pool}
    → IsRing p
    → threadpool_add p task ≡ ok out
    → (p.shutdown ≡ false) × (p.queue_size < p.queue_max_size)
unfolding threadpool_add
open_with_room p task ring h = ground arith

-- A worker that has looked for a task, in the pool `q`.
looked :
    (s : System) (i : ℕ) (q : Pool)
    → IsRing q
    → s.added ≡ s.taken ++ waiting q
    → IsOrdered (moved s i (look_for_task q))
looked s i q ring order = elim (look_for_task-cases q ring) [
  | inl a ↦ rw (a.1) (record { ring = ring; order = order })
  | inr (inl b) ↦ rw (b.1) (record { ring = ring; order = order })
  | inr (inr c) ↦ rw (c.3) (record {
    ring = c.4;
    order =
        order ∙ ap (λ t. s.taken ++ t) c.5 ∙ sym (append_assoc s.taken (c.0 ∷ []) (waiting c.1));
  })
]

woken : (s : System) (i : ℕ) → IsOrdered s → IsOrdered (moved s i (wake_up s.pool))
unfolding wake_up
woken s i o =
    let q : Pool = record s.pool { wait_exit_thr_num = s.pool.wait_exit_thr_num - 1 } in
    let same = IsRing-same s.pool q (refl, refl, refl, refl, refl) o.ring in
    elim (Bool-cases (ltb 0 s.pool.wait_exit_thr_num)) [
      | inr no_exit ↦ rw no_exit (looked s i s.pool o.ring o.order)
      | inl exits ↦ elim (Bool-cases (ltb s.pool.min_thr_num s.pool.live_thr_num)) [
        | inr few ↦ rw (exits, few) (looked s i q same.0 o.order)
        | inl many ↦ rw (exits, many) (kept s _ _ s.created (refl, refl, refl, refl, refl) o)
      ]
    ]

added_behind :
    (before taken queue queue' new : List Task)
    → before ≡ taken ++ queue
    → queue' ≡ queue ++ new
    → before ++ new ≡ taken ++ queue'
added_behind before taken queue queue' new e behind =
    ap (λ t. t ++ new) e ∙ append_assoc taken queue new ∙ ap (λ t. taken ++ t) (sym behind)

Step-IsOrdered : {s t : System} → Step s t → IsOrdered s → IsOrdered t
unfolding start_task end_task shut_down shrink grow
Step-IsOrdered {s} (add task freed p e eq) o = subst IsOrdered (sym eq) (
    let fit = open_with_room s.pool task o.ring e in
    let went = threadpool_add_enqueues s.pool task o.ring fit.1 fit.0 in
    let same : went.1 ≡ p = ground (arith, e, went.2) in
    subst (λ q. IsOrdered (record s { pool = q; added = s.added ++ (task ∷ []) })) same
      (record {
        ring = went.3;
        order =
            added_behind s.added s.taken (waiting s.pool) (waiting went.1) (task ∷ []) o.order
              went.4;
      }))
Step-IsOrdered {s} (look i lt e eq) o = subst IsOrdered (sym eq) (looked s i s.pool o.ring o.order)
Step-IsOrdered {s} (wake i lt e eq) o = subst IsOrdered (sym eq) (woken s i o)
Step-IsOrdered {s} (begin i task lt e eq) o =
    subst IsOrdered (sym eq) (kept s _ _ s.created (refl, refl, refl, refl, refl) o)
Step-IsOrdered {s} (finish i task lt e eq) o =
    subst IsOrdered (sym eq) (kept s _ _ s.created (refl, refl, refl, refl, refl) o)
Step-IsOrdered {s} (more alive q l eq) o = subst IsOrdered (sym eq) (
    kept s (grow alive q l s.created s.pool).0 s.workers (grow alive q l s.created s.pool).1
      (ground arith) o)
Step-IsOrdered {s} (fewer b l eq) o =
    subst IsOrdered (sym eq) (kept s (shrink b l s.pool) s.workers s.created (ground arith) o)
Step-IsOrdered {s} (close eq) o =
    subst IsOrdered (sym eq) (kept s _ _ s.created (refl, refl, refl, refl, refl) o)

pub start-IsOrdered :
    (memory : List Task) (exits min_thr_num max_thr_num queue_max_size : ℕ)
    → length memory ≡ queue_max_size
    → 0 < queue_max_size
    → IsOrdered (start memory exits min_thr_num max_thr_num queue_max_size)
unfolding threadpool_create tasks_from
start-IsOrdered memory exits min_thr_num max_thr_num queue_max_size size some_room = record {
  ring = record {
    slots = size;
    front_in = some_room;
    rear_in = some_room;
    size_in = omega arith;
    behind = inl refl;
  };
  order = refl;
}

pub Reach-IsOrdered : {s t : System} → IsOrdered s → Reach s t → IsOrdered t
Reach-IsOrdered o here = o
Reach-IsOrdered o (next r st) = Step-IsOrdered st (Reach-IsOrdered o r)

-- In every state that a pool with room for a task can reach, by adding tasks, workers that look for
-- tasks, wake up, begin and end them, and adjust_thread and threadpool_destroy in any order: the tasks
-- that were added are those that workers took, in the order of taking, and behind them those that
-- wait, the oldest first; and no more wait than there is room for.
pub tasks_in_order :
    (memory : List Task) (exits min_thr_num max_thr_num queue_max_size : ℕ) {s : System}
    → length memory ≡ queue_max_size
    → 0 < queue_max_size
    → Reach (start memory exits min_thr_num max_thr_num queue_max_size) s
    → (s.added ≡ s.taken ++ waiting s.pool) × (s.pool.queue_size ≤ s.pool.queue_max_size)
tasks_in_order memory exits min_thr_num max_thr_num queue_max_size size some_room r =
    let o =
      Reach-IsOrdered
        (start-IsOrdered memory exits min_thr_num max_thr_num queue_max_size size some_room) r in
    (o.order, o.ring.size_in)
