-- ===== src/ServerLoop.antt =====
-- Safe_transmission/ServerSeckey/ServerSeckey/ServerOperation.cpp: startWork, the threads that it starts,
-- and the container of sockets that they share. No lock guards the container: two accesses to it that
-- overlap in time, one of them a change, are a data race, and the behaviour is undefined from there on. A
-- step is one access to the container with what goes with it, so the runs of the model are those in which
-- no two accesses overlap, and no other.
pub mod Entries
pub mod Bookkeeping
pub mod Overtaken
use safe_transmission.Common.{
  ℕ, ◌+◌, ◌≡◌, Bool, true, false, Option, none, some, Result, ok, fault, ◌==◌, if◌then◌else◌,
}
use safe_transmission.TcpServer.{TcpServer, accept_conn}

-- A TcpSocket that `new` made: which object it is, and its member.
pub record TcpSocket : Type 0 where
  pub object : ℕ
  pub m_socket : ℕ

-- `std::map<pthread_t, TcpSocket*>`: the entry of a key, if there is one; `some none` is a null pointer.
abbrev pub SocketMap : Type 0
SocketMap = ℕ → Option (Option TcpSocket)

abbrev pub assign {ℓ} : {A : Type ℓ} → (ℕ → A) → ℕ → A → ℕ → A
assign f k a j = if k == j then a else f j

-- `m[k]`: a missing entry is made, with a null pointer.
unfoldable pub subscript : SocketMap → ℕ → Option TcpSocket × SocketMap
subscript m k = elim (m k) [ none ↦ (none, assign m k (some none)) | some v ↦ (v, m) ]

-- `m.insert(make_pair(k, v))`: an entry that is there stays.
unfoldable pub insert : SocketMap → ℕ → TcpSocket → SocketMap
insert m k v = elim (m k) [ none ↦ assign m k (some (some v)) | some _ ↦ m ]

-- `m.erase(m.find(k))`: the end of the container cannot be erased.
unfoldable pub erase : SocketMap → ℕ → Result SocketMap
erase m k = elim (m k) [ none ↦ fault | some _ ↦ ok (assign m k none) ]

-- A thread number: no thread has it, its thread has not looked into the container, or the thread has
-- found its socket there.
pub data Worker : Type 0 where
  absent : Worker
  fresh : Worker
  holds : Option TcpSocket → Worker

-- `starting` is the thread that startWork has made and not put into the container, with its socket;
-- objects from number `made` on are still to come.
pub record Server : Type 0 where
  pub m_list_socket : SocketMap
  pub m_stop : Bool
  pub starting : Option (ℕ × TcpSocket)
  pub workers : ℕ → Worker
  pub made : ℕ

-- startWork takes any thread number that is free. What working does between its first and its last
-- access to the container is KeyAgreement.Session; `May` restricts when a thread takes its first. The code
-- does not keep accesses apart: these are the steps of a run in which none overlap.
pub data Step (May : Server → ℕ → Type 0) (s t : Server) : Type 0 where
  connect :
      (thid fd : ℕ) (listener listener' : TcpServer)
      → s.m_stop ≡ false
      → s.starting ≡ none
      → s.workers thid ≡ absent
      → accept_conn 5 listener ≡ ok (some fd, listener')
      → t ≡ record s {
        starting = some (thid, record { object = s.made; m_socket = fd });
        workers = assign s.workers thid fresh;
        made = s.made + 1;
      }
      → Step May s t
  enter :
      (thid : ℕ) (socket : TcpSocket)
      → s.starting ≡ some (thid, socket)
      → t ≡ record s { m_list_socket = insert s.m_list_socket thid socket; starting = none }
      → Step May s t
  look_up :
      (thid : ℕ)
      → s.workers thid ≡ fresh
      → May s thid
      → t ≡ record s {
        m_list_socket = (subscript s.m_list_socket thid).1;
        workers = assign s.workers thid (holds (subscript s.m_list_socket thid).0);
      }
      → Step May s t
  leave :
      (thid : ℕ) (socket : TcpSocket) (m : SocketMap)
      → s.workers thid ≡ holds (some socket)
      → erase s.m_list_socket thid ≡ ok m
      → t ≡ record s { m_list_socket = m; workers = assign s.workers thid absent }
      → Step May s t
  stop : t ≡ record s { m_stop = true } → Step May s t

abbrev pub start : Server
start = record {
  m_list_socket = λ k. none;
  m_stop = false;
  starting = none;
  workers = λ k. absent;
  made = 0;
}

pub data Reach (May : Server → ℕ → Type 0) (s : Server) : Server → Type 0 where
  here : Reach May s s
  next : {t u : Server} → Reach May s t → Step May t u → Reach May s u
