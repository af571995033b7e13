-- ===== src/Protocol.antt =====
-- The frame handlers of lib/stomp_proto_*.c and the dispatch of lib/stomp_management_worker.c, which
-- takes the frames from the bucket one at a time, on the state of the whole server.
pub mod Send
pub mod Session
pub mod Tid
pub mod Dispatch
pub mod Publishing
pub mod Subscribing
pub mod Transactional
pub mod Rollback
pub mod Dangling
pub mod Pipeline
pub mod Writing
pub mod Replies
mod Tests
use newtmq_server.Base.{
  ℕ, ◌+◌, ltb, if◌then◌else◌, Bool, true, false, ◌&&◌, leb, List, [], ◌∷◌, ◌++◌, Option, none, some,
  Bytes, codes, length, strlen, c_string, strncmp_eq,
}
use newtmq_server.Common.{Ret, success, error, Env}
use newtmq_server.Connection.{Wire, send_all, send_msg, nul, stomp_send_error, stomp_send_receipt}
use newtmq_server.Frame.{Frame, LineData, ld_max}
use newtmq_server.Management.{
  Subscribers, get_subscriber, unregister_subscriber, Subscriber, Handled, kept, HeaderHandler,
  Iterated, iterated, iterate_header,
}
use newtmq_server.Persistence.{Disk, Persistent, persist_frame}
use newtmq_server.Queue.{Box, enqueue}
use newtmq_server.Sending.{
  WorkerManager, register_reply_worker, register_unicast_worker, register_multicast_worker,
}
use newtmq_server.Transaction.{
  Manager, Outcome, returned, transaction_start, transaction_add, transaction_abort,
  transaction_commit,
}

-- Everything the handlers change. `connected` holds the connections in STATE_CONNECTED, newest
-- first, `freed` the frames, and `cancelled` the threads that were cancelled.
pub record Server : Type 0 where
  pub queues : Box Frame
  pub persistent : Persistent
  pub transactions : Manager Frame
  pub workers : WorkerManager
  pub subscribers : Subscribers
  pub sent : Wire
  pub connected : List ℕ
  pub cancelled : List ℕ
  pub freed : List ℕ

-- What is not the server's own: the system, the random identifier of each connection, what `malloc`
-- leaves in memory, and the functions that `transaction_callback` can point to.
pub record Context : Type 0 where
  pub env : Env
  pub disk : Disk
  pub conn_id : ℕ → Bytes
  pub junk : Bytes
  pub callback : ℕ → Server → Ret × Server

-- How a handler ends: it returns a frame or NULL, a failing assertion stops the server, memory is
-- overwritten, or the fuel of `transaction_commit` ran out.
pub data Result : Type 0 where
  handled : Option Frame → Server → Result
  aborted corrupted running : Result

unfoldable pub send_error : Context → ℕ → Bytes → Server → Server
send_error ctx sock msg s = record s { sent = stomp_send_error ctx.env sock msg s.sent }

-- what every handler does where its headers are refused
unfoldable pub invalid : Context → Frame → Server → Result
unfolding send_error
invalid ctx frame s =
    handled none (send_error ctx frame.sock (codes "failed to validate header\n") s)

-- What follows `iterate_header`: the handler's own part, on the frame with the lines that are left.
unfoldable pub with_attrs :
    {D : Type 0} → Context → Frame → Server → Iterated D → (D → Frame → Result) → Result
unfolding invalid
with_attrs ctx frame s (iterated d lines) act = act d (record frame { attrs = lines })
with_attrs ctx frame s Iterated.refused act = invalid ctx frame s
with_attrs ctx frame s Iterated.overrun act = corrupted

-- `assert(frame->cinfo != NULL)`
unfoldable pub asserting : Option ℕ → Result → Result
asserting none result = aborted
asserting (some cinfo) result = result

-- A header handler that stores the pointer.
abbrev storing : {D : Type 0} → (Bytes → D → D) → Bytes → D → LineData → Handled D
storing f context d line = kept (f context d) line

-- One that refuses an empty value.
unfoldable pub storing_nonempty : {D : Type 0} → (Bytes → D → D) → Bytes → D → LineData → Handled D
storing_nonempty f context d line =
    if ltb 0 (strlen context) then kept (f context d) line else Handled.refused

unfoldable pub receipt : Frame → Option Bytes → Server → Server
receipt frame none s = s
receipt frame (some id) s = record s { sent = stomp_send_receipt frame.sock (some id) s.sent }
