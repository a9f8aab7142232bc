-- ===== src/ThreadPool/Freed.antt =====
-- What threadpool_add frees.
use safe_transmission.Common.{
  ℕ, ◌+◌, ◌-◌, ◌%◌, ◌<◌, ◌≡◌, refl, sym, ap, ◌∙◌, arith, List, [], ◌∷◌, ◌++◌, append-nil, Option,
  none, some, length, ok, ◌==◌, if◌then◌else◌,
}
use mathlib.Core.Path.{subst}
use safe_transmission.ThreadPool.{
  Task, Pool, threadpool_create, threadpool_add, Next, sleep, leave, work, look_for_task, wake_up,
  start_task, end_task, grow, shrink, shut_down, set, entry,
}
use safe_transmission.ThreadPool.Ring.{IsRing, tasks_from}
use safe_transmission.ThreadPool.Order.{IsOrdered, start-IsOrdered, Reach-IsOrdered}
use safe_transmission.ThreadPool.Round.{
  HoldsLast, once_round_some, entry_behind, tasks_from_start, added_last, HoldsLast-same,
}
use safe_transmission.ThreadPool.System.{
  System, moved, Step, add, look, wake, begin, finish, more, fewer, close, start, Reach, here, next,
}

-- What threadpool_add frees and leaves, where it returns.
threadpool_add_result :
    (p : Pool) (task : Task) (freed : Option ℕ) (q : Pool)
    → threadpool_add p task ≡ ok (freed, q)
    → (freed
        ≡ (let arg = (entry p.task_queue p.queue_rear).arg in if arg == 0 then none else some arg))
      × (q ≡ record p {
        task_queue = set p.task_queue p.queue_rear task;
        queue_rear = (p.queue_rear + 1) % p.queue_max_size;
        queue_size = p.queue_size + 1;
      })
unfolding threadpool_add
threadpool_add_result p task freed q h = ground (arith, h)

look_for_task_same :
    (p : Pool)
    → let q = (look_for_task p).1 in
      (q.task_queue ≡ p.task_queue)
      × (q.queue_rear ≡ p.queue_rear)
      × (q.queue_max_size ≡ p.queue_max_size)
unfolding look_for_task
look_for_task_same p = ground arith

wake_up_same :
    (p : Pool)
    → let q = (wake_up p).1 in
      (q.task_queue ≡ p.task_queue)
      × (q.queue_rear ≡ p.queue_rear)
      × (q.queue_max_size ≡ p.queue_max_size)
unfolding wake_up
wake_up_same p = ground (
  arith,
  look_for_task_same p,
  look_for_task_same (record p { wait_exit_thr_num = p.wait_exit_thr_num - 1 }),
)

abbrev LastOf : List Task → System → Type 0
LastOf memory s = HoldsLast memory s.added s.pool

LastOf-moved :
    (memory : List Task) (s : System) (i : ℕ) (out : Next × Pool)
    → HoldsLast memory s.added out.1
    → LastOf memory (moved s i out)
LastOf-moved memory s i (sleep, p) h = h
LastOf-moved memory s i (leave, p) h = h
LastOf-moved memory s i (work t, p) h = h

Step-LastOf :
    (memory : List Task) {s t : System}
    → Step s t
    → IsRing s.pool
    → LastOf memory s
    → LastOf memory t
unfolding start_task end_task shut_down shrink grow
Step-LastOf memory {s} (add task freed p e eq) ring h = subst (LastOf memory) (sym eq) (
    subst (HoldsLast memory (s.added ++ (task ∷ [])))
      (sym (threadpool_add_result s.pool task freed p e).1)
      (added_last memory s.added s.pool task ring h))
Step-LastOf memory {s} (look i lt at eq) ring h = subst (LastOf memory) (sym eq) (
    LastOf-moved memory s i (look_for_task s.pool)
      (HoldsLast-same memory s.added s.pool _ (look_for_task_same s.pool) h))
Step-LastOf memory {s} (wake i lt at eq) ring h = subst (LastOf memory) (sym eq) (
    LastOf-moved memory s i (wake_up s.pool)
      (HoldsLast-same memory s.added s.pool _ (wake_up_same s.pool) h))
Step-LastOf memory {s} (begin i task lt at eq) ring h =
    subst (LastOf memory) (sym eq) (HoldsLast-same memory s.added s.pool _ (refl, refl, refl) h)
Step-LastOf memory {s} (finish i task lt at eq) ring h =
    subst (LastOf memory) (sym eq) (HoldsLast-same memory s.added s.pool _ (refl, refl, refl) h)
Step-LastOf memory {s} (more alive q l eq) ring h =
    subst (LastOf memory) (sym eq)
      (HoldsLast-same memory s.added s.pool (grow alive q l s.created s.pool).0 (ground arith) h)
Step-LastOf memory {s} (fewer b l eq) ring h =
    subst (LastOf memory) (sym eq)
      (HoldsLast-same memory s.added s.pool (shrink b l s.pool) (ground arith) h)
Step-LastOf memory {s} (close eq) ring h =
    subst (LastOf memory) (sym eq) (HoldsLast-same memory s.added s.pool _ (refl, refl, refl) h)

Reach-LastOf :
    (memory : List Task) {s t : System}
    → IsOrdered s
    → LastOf memory s
    → Reach s t
    → LastOf memory t
Reach-LastOf memory o h here = h
Reach-LastOf memory o h (next r st) =
    Step-LastOf memory st (Reach-IsOrdered o r).ring (Reach-LastOf memory o h r)

start-LastOf :
    (memory : List Task) (exits min_thr_num max_thr_num queue_max_size : ℕ)
    → length memory ≡ queue_max_size
    → LastOf memory (start memory exits min_thr_num max_thr_num queue_max_size)
unfolding threadpool_create
start-LastOf memory exits min_thr_num max_thr_num queue_max_size size = record {
  gone = [];
  count = refl;
  parts =
      append-nil memory
      ∙ sym (tasks_from_start [] memory queue_max_size (omega arith))
      ∙ ap (tasks_from memory queue_max_size 0) size;
}

-- In every state that a pool with room for a task can reach, threadpool_add, where it returns, frees
-- the argument of the task that was added queue_max_size tasks before, wherever a worker has got to
-- with that task; and in the first queue_max_size additions what the memory held that malloc handed out
-- for the queue. It frees nothing only where that argument is null.
pub threadpool_add_frees :
    (memory : List Task) (exits min_thr_num max_thr_num queue_max_size : ℕ) {s : System}
    (task : Task) (freed : Option ℕ) (q : Pool)
    → length memory ≡ queue_max_size
    → 0 < queue_max_size
    → Reach (start memory exits min_thr_num max_thr_num queue_max_size) s
    → threadpool_add s.pool task ≡ ok (freed, q)
    → let old = entry (memory ++ s.added) (length s.added) in
      freed ≡ (if old.arg == 0 then none else some old.arg)
threadpool_add_frees memory exits min_thr_num max_thr_num queue_max_size {s} task freed q size
      some_room r e =
    let o = start-IsOrdered memory exits min_thr_num max_thr_num queue_max_size size some_room in
    let last =
      Reach-LastOf memory o (start-LastOf memory exits min_thr_num max_thr_num queue_max_size size)
        r in
    let p = s.pool in
    let others =
      tasks_from p.task_queue p.queue_max_size ((p.queue_rear + 1) % p.queue_max_size)
        (p.queue_max_size - 1) in
    let split =
      last.parts ∙ ap (λ t. last.gone ++ t) (once_round_some p (Reach-IsOrdered o r).ring) in
    let old : entry (memory ++ s.added) (length s.added) ≡ entry p.task_queue p.queue_rear =
      ap (λ t. entry t (length s.added)) split
      ∙ ap (entry (last.gone ++ (entry p.task_queue p.queue_rear ∷ others))) (sym last.count)
      ∙ entry_behind last.gone others (entry p.task_queue p.queue_rear) in
    (threadpool_add_result p task freed q e).0
    ∙ ap (λ t. if t.arg == 0 then none else some t.arg) (sym old)
