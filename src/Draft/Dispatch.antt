-- ===== src/Draft/Dispatch.antt =====
-- Safe_transmission/serverop/epoll2.cpp: how the loop of Epoll::initepoll hands the events of clients to
-- the thread pool. Every task gets the Epoll object itself.
pub mod Overwritten
use safe_transmission.Common.{
  ℕ, ◌≡◌, List, [], ◌∷◌, ◌++◌, Option, none, some, ◌==◌, if◌then◌else◌, Result, ok, fault, ◌>>=◌,
}
use safe_transmission.ThreadPool.{Task, Pool, threadpool_add}
use safe_transmission.ThreadPool.System
use safe_transmission.ThreadPool.System.{System}

-- The member of the object that the callbacks read and the loop changes: the descriptor of a client.
-- `run` is the same for every event.
pub record Epoll : Type 0 where
  pub fd : ℕ

-- The task for the object at `this`; 1 stands for the function `process`.
abbrev pub job : ℕ → Task
job this = record { function = 1; arg = this }

-- What a call of free leaves of the object.
abbrev pub unless_freed : ℕ → Option ℕ → Epoll → Option Epoll
unless_freed this none e = some e
unless_freed this (some p) e = if p == this then none else some e

-- The loop on an event of a client: `none` is an object that is freed. The object, as `new` made it, is
-- freed by threadpool_add if at all.
unfoldable pub dispatch : ℕ → ℕ → Option Epoll → Pool → Result (Option Epoll × Pool)
dispatch this fd none p = fault
dispatch this fd (some e) p = do
  let e' : Epoll = record { fd = fd }
  (freed, q) ← threadpool_add p (job this)
  ok (unless_freed this freed e', q)

-- The descriptor that a task serves: `pdata->run(pdata)` reads the object when the task begins.
unfoldable pub process : Option Epoll → Result ℕ
process none = fault
process (some e) = ok e.fd

-- The pool with its threads, the object, and a history: the descriptors of the events so far.
pub record Serving : Type 0 where
  pub system : System
  pub object : Option Epoll
  pub events : List ℕ

-- A step of the loop, or one of a thread of the pool, which adds no task.
pub data Serve (this : ℕ) (s t : Serving) : Type 0 where
  event :
      (fd : ℕ) (object : Option Epoll) (p : Pool)
      → dispatch this fd s.object s.system.pool ≡ ok (object, p)
      → t ≡ record s {
        system = record s.system { pool = p; added = s.system.added ++ (job this ∷ []) };
        object = object;
        events = s.events ++ (fd ∷ []);
      }
      → Serve this s t
  thread :
      (u : System)
      → System.Step s.system u
      → u.added ≡ s.system.added
      → t ≡ record s { system = u }
      → Serve this s t

-- threadpool_create(3, 10, 10), and the object before the loop, whose `fd` has no value that counts.
abbrev pub begun : List Task → ℕ → Epoll → Serving
begun memory exits e = record {
  system = System.start memory exits 3 10 10;
  object = some e;
  events = [];
}

pub data Served (this : ℕ) (s : Serving) : Serving → Type 0 where
  here : Served this s s
  next : {t u : Serving} → Served this s t → Serve this t u → Served this s u
