-- ===== src/ServerLoop/Bookkeeping.antt =====
-- The container of sockets, where each thread finds its entry made.
use safe_transmission.Common.{◌≡◌, inl, inr, refl, sym, arith, none, some}
use mathlib.Core.Path.{subst}
use safe_transmission.ServerLoop.{
  assign, subscript, insert, erase, absent, Server, Step, connect, enter, look_up, leave, stop,
  start, Reach, here, next,
}
use safe_transmission.ServerLoop.Entries.{InTime, IsBooked, connected, made_entry, found, left}

Step-IsBooked : {s t : Server} → Step InTime s t → IsBooked s → IsBooked t
unfolding subscript insert erase
Step-IsBooked {s} (connect thid fd l l' go free unused acc eq) b =
    subst IsBooked (sym eq) (connected s thid fd free unused b)
Step-IsBooked {s} (enter thid socket e eq) b =
    let empty = (b.awaited thid socket e).1 in
    subst IsBooked (sym eq) (rw (empty, insert) (made_entry s thid socket e b))
Step-IsBooked {s} (look_up thid e may eq) b = subst IsBooked (sym eq) (elim (b.entered thid e) [
  | inl (a, p) ↦ absurd (may a p)
  | inr (a, p) ↦ rw (p, subscript) (found s thid a e p b)
])
Step-IsBooked {s} (leave thid socket m e erased eq) b =
    let (a, p, q) = b.held thid (some socket) e in
    let same : m ≡ assign s.m_list_socket thid none = ground (arith, erased, q) in
    subst IsBooked (sym eq) (
      subst (λ n. IsBooked (record s { m_list_socket = n; workers = assign s.workers thid absent }))
        (sym same) (left s thid socket e b))
Step-IsBooked {s} (stop eq) b = subst IsBooked (sym eq) (record {
  held = b.held;
  gone = b.gone;
  entered = b.entered;
  awaited = b.awaited;
  old = b.old;
  apart = b.apart;
})

start-IsBooked : IsBooked start
start-IsBooked = record {
  held = λ i v h. absurd (cc);
  gone = λ i h. refl;
  entered = λ i h. absurd (cc);
  awaited = λ i a h. absurd (cc);
  old = λ i a h. absurd (cc);
  apart = λ i j a c p q same. absurd (cc);
}

pub Reach-IsBooked : {s : Server} → Reach InTime start s → IsBooked s
Reach-IsBooked here = start-IsBooked
Reach-IsBooked (next r st) = Step-IsBooked st (Reach-IsBooked r)
