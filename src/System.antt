-- ===== src/System.antt =====
-- The whole server as it runs: the connections, the bucket, the management worker, the persistent
-- worker and the sending workers, each call or turn of which is one step. The threads take their
-- steps in any order. A call of `recv_data`, of a handler or of a turn is one step, coarser than the code,
-- in which a thread still uses a frame that it has already put where another thread finds it.
pub mod Frames
pub mod Receiving
pub mod Handling
pub mod Delivering
pub mod Ownership
pub mod Soundness
pub mod Reuse
pub mod Workers
pub mod Committing
pub mod Starting
pub mod Tests
use newtmq_server.Base.{
  ℕ, suc, ◌+◌, ◌-◌, ◌≡◌, List, [], ◌∷◌, ◌++◌, Option, none, some, Bytes, length, replicate,
}
use newtmq_server.Common.{Env}
use newtmq_server.Frame.{Frame}
use newtmq_server.Receive.{Receiver, Pending, done, recv_data, take_frame}
use newtmq_server.Receive.Worker.{conn_init, conn_finish}
use newtmq_server.Queue.{Box, initialize_queuebox}
use newtmq_server.Management.{initialize_manager}
use newtmq_server.Persistence.{Persistent, persist_turn}
use newtmq_server.Restart.{Start, Directory, restarted, unpersist}
use newtmq_server.Protocol.{Server, Context, Result, handled, aborted, corrupted, running}
use newtmq_server.Protocol.Dispatch.{handle_frame}
use newtmq_server.Sending.{
  initialize_sending_worker, WorkerManager, Client, Worker, unicast_worker, reply_worker,
  multicast_worker, DestGroup, Delivery, unicast_turn, reply_turn, multicast_turn,
}

-- a connection: its socket, and its `stomp_conninfo_t`
pub record Link : Type 0 where
  pub sock : ℕ
  pub conn : ℕ
  pub frame : Option Frame
  pub prev : Option Pending

pub record System : Type 0 where
  pub server : Server
  pub bucket : List Frame
  pub links : List Link
  pub draws : ℕ
  pub allocated : ℕ

-- what the thread of a connection sees
abbrev pub receiver_of : System → Link → Receiver
receiver_of s l = record {
  conn = l.conn;
  frame = l.frame;
  prev = l.prev;
  bucket = s.bucket;
  sent = s.server.sent;
  draws = s.draws;
  allocated = s.allocated;
}

abbrev pub link_of : ℕ → Receiver → Link
link_of sock r = record { sock = sock; conn = r.conn; frame = r.frame; prev = r.prev }

-- the server after a step of a connection
abbrev pub received : System → Receiver → List Link → System
received s r links = record {
  server = record s.server { sent = r.sent };
  bucket = r.bucket;
  links = links;
  draws = r.draws;
  allocated = r.allocated;
}

-- what the sending workers see, and what they leave
abbrev pub delivery_of : Server → Delivery
delivery_of s = record {
  queues = s.queues;
  persistent = s.persistent;
  sent = s.sent;
  freed = s.freed;
}

abbrev pub delivered : Server → Delivery → Server
delivered s d = record s {
  queues = d.queues;
  persistent = d.persistent;
  sent = d.sent;
  freed = d.freed;
}

-- a thread has ended, and these are left
abbrev pub without : System → List Worker → System
without s threads = record s {
  server = record s.server { workers = record s.server.workers { threads = threads } };
}

abbrev pub new_link : Link
new_link = record { sock = 0; conn = 0; frame = none; prev = none }

-- what is left when a handler returns; `none` is the end of the server, or a handler that stays
unfoldable pub managed_by : System → List Frame → Result → Option System
managed_by s fs (handled o sv) = some (record s { server = sv; bucket = fs })
managed_by s fs aborted = none
managed_by s fs corrupted = none
managed_by s fs running = none

-- the body of the loop of `stomp_management_worker`
unfoldable pub manage : ℕ → Context → System → Option Frame → List Frame → Option System
unfolding managed_by
manage fuel ctx s none fs = some s
manage fuel ctx s (some f) fs = managed_by s fs (handle_frame fuel ctx f s.server)

unfoldable pub management_turn : ℕ → Context → System → Option System
unfolding manage
management_turn fuel ctx s = let (frame, fs) = take_frame s.bucket in manage fuel ctx s frame fs

-- The steps of the threads that `daemon_start` and the workers create.
pub data Step (ctx : Context) : System → System → Type 0 where
  -- `accept`, and the start of the thread of the connection
  accepted :
      (s : System) (sock : ℕ) (r : Receiver)
      → (conn_init ctx.env (receiver_of s new_link)).1 ≡ r
      → Step ctx s (received s r (s.links ++ link_of sock r ∷ []))
  -- one turn of the loop of `stomp_conn_worker`
  took :
      (s : System) (before after : List Link) (l : Link) (c : ℕ) (cs : Bytes) (r : Receiver)
      → s.links ≡ before ++ l ∷ after
      → recv_data ctx.env l.sock (suc (length (c ∷ cs))) (c ∷ cs) (receiver_of s l) ≡ done r
      → Step ctx s (received s r (before ++ link_of l.sock r ∷ after))
  -- its end
  closed :
      (s : System) (before after : List Link) (l : Link)
      → s.links ≡ before ++ l ∷ after
      → Step ctx s (received s (conn_finish ctx.env (receiver_of s l)).1 (before ++ after))
  -- one turn of the management worker, with any fuel for `transaction_commit`
  managed : (s t : System) (fuel : ℕ) → management_turn fuel ctx s ≡ some t → Step ctx s t
  -- one turn of the persistent worker, unless it uses memory that has been freed
  wrote :
      (s : System) (pm : Persistent)
      → persist_turn s.server.freed s.server.persistent ≡ some pm
      → Step ctx s (record s { server = record s.server { persistent = pm } })
  -- one turn of a sending worker; which sockets are healthy is asked in each turn
  sent_one :
      (s : System) (env : Env) (before after : List Worker) (c : Client) (dest : Bytes)
      (d : Delivery)
      → s.server.workers.threads ≡ before ++ unicast_worker c dest ∷ after
      → unicast_turn env c dest (delivery_of s.server) ≡ some d
      → Step ctx s (record s { server = delivered s.server d })
  replied :
      (s : System) (env : Env) (before after : List Worker) (c : Client) (dest : Bytes)
      (d : Delivery)
      → s.server.workers.threads ≡ before ++ reply_worker c dest ∷ after
      → reply_turn env c dest (delivery_of s.server) ≡ some d
      → Step ctx s (record s { server = delivered s.server d })
  sent_all :
      (s : System) (env : Env) (before after : List Worker) (ahead behind : List DestGroup)
      (g : DestGroup) (cs : List Client) (d : Delivery)
      → s.server.workers.threads ≡ before ++ multicast_worker g.destination ∷ after
      → s.server.workers.groups ≡ ahead ++ g ∷ behind
      → multicast_turn env g.destination g.clients (delivery_of s.server) ≡ some (cs, d)
      → Step ctx s (record s {
        server = record (delivered s.server d) {
          workers = record s.server.workers {
            groups = ahead ++ record g { clients = cs } ∷ behind;
          };
        };
      })
  -- the end of the loop of a sending worker; nothing removes its group
  left_one :
      (s : System) (env : Env) (before after : List Worker) (c : Client) (dest : Bytes)
      → s.server.workers.threads ≡ before ++ unicast_worker c dest ∷ after
      → unicast_turn env c dest (delivery_of s.server) ≡ none
      → Step ctx s (without s (before ++ after))
  left_reply :
      (s : System) (env : Env) (before after : List Worker) (c : Client) (dest : Bytes)
      → s.server.workers.threads ≡ before ++ reply_worker c dest ∷ after
      → reply_turn env c dest (delivery_of s.server) ≡ none
      → Step ctx s (without s (before ++ after))
  left_all :
      (s : System) (env : Env) (before after : List Worker) (ahead behind : List DestGroup)
      (g : DestGroup)
      → s.server.workers.threads ≡ before ++ multicast_worker g.destination ∷ after
      → s.server.workers.groups ≡ ahead ++ g ∷ behind
      → multicast_turn env g.destination g.clients (delivery_of s.server) ≡ none
      → Step ctx s (without s (before ++ after))

-- The state before `unpersist`. The table of queues is zero as a static array is; the server does
-- not call `initialize_queuebox`, which would leave it so.
abbrev pub at_start : Start
at_start = record {
  queues = initialize_queuebox;
  persistent = [];
  reader = record { frame = none; prev = none; found = []; draws = 0; allocated = 0 };
}

-- Static variables are zero.
abbrev static_workers : WorkerManager
static_workers = record { groups = []; threads = [] }

-- the state in which the threads start
abbrev pub initial : Start → System
initial st = record {
  server = record {
    queues = st.queues;
    persistent = st.persistent;
    transactions = [];
    workers = (initialize_sending_worker static_workers).1;
    subscribers = (initialize_manager []).1;
    sent = [];
    connected = [];
    cancelled = [];
    freed = [];
  };
  bucket = [];
  links = [];
  draws = st.reader.draws;
  allocated = st.reader.allocated;
}

-- The server has read back the directories of an earlier run, of which there may be none, and its
-- threads have taken steps.
pub data Reachable (ctx : Context) : System → Type 0 where
  started :
      (memory : Bytes) (dirs : List Directory) (st : Start)
      → unpersist ctx.env ctx.disk memory dirs at_start ≡ restarted st
      → Reachable ctx (initial st)
  step : {s t : System} → Reachable ctx s → Step ctx s t → Reachable ctx t
