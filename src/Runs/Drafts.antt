-- ===== src/Runs/Drafts.antt =====
-- Runs of the drafts of client and server.
use safe_transmission.Common.{
  ℕ, ◌*◌, ◌≤◌, ◌≡◌, ◌≢◌, ◌⊎◌, refl, arith, true, List, [], ◌∷◌, none, some, ok, fault, Bool,
}
use safe_transmission.TcpSocket.Os.{done, failed}
use safe_transmission.ThreadPool.{Task, threadpool_create, threadpool_add}
use safe_transmission.Draft.{Conn}
use safe_transmission.Draft.Epoll
use safe_transmission.Draft.Epoll.{func}
use safe_transmission.Draft.Cli
use safe_transmission.Draft.Echo.{echo, ended_midway}
use safe_transmission.Draft.Mixing.{mix, client_r1, server_r2, drafts_overflow}
use safe_transmission.Draft.Dispatch.{
  job, dispatch, process, Serving, event, begun, Served, here, next,
}
use safe_transmission.Draft.Dispatch.Overwritten.{object_overwritten}

abbrev always : ℕ → Bool
always n = true

abbrev sender : Conn
sender = record { recvs = []; sends = done 6 ∷ []; sent = []; closes = 0 }

abbrev echoer : Conn
echoer = record {
  recvs = done (2 ∷ 0 ∷ 0 ∷ 0 ∷ []) ∷ done (7 ∷ []) ∷ done (8 ∷ []) ∷ [];
  sends = done 6 ∷ [];
  sent = [];
  closes = 0;
}

echo_example :
    (Cli.senddata always (some (7 ∷ 8 ∷ [])) 2 sender
      ≡ ok (0, record sender { sends = []; sent = 2 ∷ 0 ∷ 0 ∷ 0 ∷ 7 ∷ 8 ∷ [] }))
    × (func always echoer
        ≡ ok (record echoer { recvs = []; sends = []; sent = 2 ∷ 0 ∷ 0 ∷ 0 ∷ 7 ∷ 8 ∷ [] }))
    × (Cli.recvdata always echoer ≡ ok (2, some (7 ∷ 8 ∷ []), record echoer { recvs = [] }))
echo_example =
    echo always (7 ∷ 8 ∷ []) 2 sender echoer echoer [] [] [] [] (λ k h. refl) (omega arith)
      (omega arith) (omega arith) refl refl refl refl

-- Three bytes are announced, one comes, and the descriptor is closed.
abbrev short : Conn
short = record {
  recvs = done (3 ∷ 0 ∷ 0 ∷ 0 ∷ []) ∷ done (7 ∷ []) ∷ done [] ∷ failed 9 ∷ [];
  sends = [];
  sent = [];
  closes = 0;
}

ended_midway_example :
    (Cli.recvdata always short ≡ ok (0, none, record short { recvs = failed 9 ∷ [] }))
    × (Epoll.recvdata always short
        ≡ ok (3, some (7 ∷ 0 ∷ 0 ∷ []), record short { recvs = []; closes = 1 }))
ended_midway_example =
    ended_midway always (7 ∷ []) 3 short (failed 9 ∷ []) [] refl (omega arith) (omega arith)
      (tt, tt) refl

abbrev old : Task
old = record { function = 0; arg = 0 }

abbrev slots : List Task
slots = old ∷ old ∷ old ∷ old ∷ old ∷ old ∷ old ∷ old ∷ old ∷ []

abbrev idle : Serving
idle = begun (old ∷ slots) 0 (record { fd = 0 })

abbrev busy : Serving
busy = record {
  system = record idle.system {
    pool = record idle.system.pool {
      task_queue = job 4096 ∷ slots;
      queue_rear = 1;
      queue_size = 1;
    };
    added = job 4096 ∷ [];
  };
  object = some (record { fd = 7 });
  events = 7 ∷ [];
}

to_busy : Served 4096 idle busy
unfolding dispatch threadpool_add threadpool_create
to_busy = next here (event 7 (some (record { fd = 7 })) busy.system.pool refl refl)

other : old.arg ≢ 4096
other = omega arith

object_overwritten_example :
    ((1 ≤ 10) × (process busy.object ≡ ok 7))
    ⊎ ((◌≡◌ {A = ℕ} 1 11)
        × (process busy.object ≡ fault)
        × ((fd : ℕ) → dispatch 4096 fd busy.object busy.system.pool ≡ fault))
object_overwritten_example =
    object_overwritten (old ∷ slots) 0 4096 (record { fd = 0 }) refl (omega arith)
      (other, (other, (other, (other, (other, (other, (other, (other, (other, (other, tt))))))))))
      to_busy

drafts_overflow_example : mix (client_r1 (λ i. i) []) (server_r2 (λ i. i * 7) (0 ∷ [])) ≡ fault
drafts_overflow_example = drafts_overflow (λ i. i) (λ i. i * 7) [] (0 ∷ [])
