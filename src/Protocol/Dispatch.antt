-- ===== src/Protocol/Dispatch.antt =====
-- The table of handlers and `handle_frame` of lib/stomp_management_worker.c.
pub mod Coverage
use newtmq_server.Base.{
  ℕ, ◌+◌, ltb, if◌then◌else◌, Bool, true, false, ◌&&◌, leb, List, [], ◌∷◌, ◌++◌, Option, none, some,
  Bytes, codes, length, strlen, c_string, strncmp_eq,
}
use newtmq_server.Common.{Ret, success, error, Env}
use newtmq_server.Connection.{Wire, send_all, send_msg, nul, stomp_send_error, stomp_send_receipt}
use newtmq_server.Frame.{Frame, LineData, ld_max}
use newtmq_server.Management.{
  Subscribers, get_subscriber, unregister_subscriber, Subscriber, Handled, kept, HeaderHandler,
  Iterated, iterated, iterate_header,
}
use newtmq_server.Persistence.{Disk, Persistent, persist_frame}
use newtmq_server.Queue.{Box, enqueue}
use newtmq_server.Sending.{
  WorkerManager, register_reply_worker, register_unicast_worker, register_multicast_worker,
}
use newtmq_server.Transaction.{
  Manager, Outcome, returned, transaction_start, transaction_add, transaction_abort,
  transaction_commit,
}
use newtmq_server.Protocol.{
  Server, Context, Result, handled, aborted, corrupted, running, send_error, with_attrs, invalid,
  asserting, storing, storing_nonempty, receipt,
}
use newtmq_server.Protocol.Send.{handler_stomp_send}
use newtmq_server.Protocol.Session.{
  handler_stomp_connect, handler_stomp_subscribe, handler_stomp_unsubscribe,
  handler_stomp_disconnect, handler_stomp_ack, handler_stomp_nack,
}
use newtmq_server.Protocol.Tid.{handler_stomp_begin, handler_stomp_commit, handler_stomp_abort}

-- the functions that the table `stomp_handlers` names
pub data Handler : Type 0 where
  send subscribe connect disconnect unsubscribe begin commit abort ack nack : Handler

abbrev pub stomp_handlers : List (Bytes × Handler)
stomp_handlers =
    (codes "SEND", send)
    ∷ (codes "SUBSCRIBE", subscribe)
    ∷ (codes "CONNECT", connect)
    ∷ (codes "STOMP", connect)
    ∷ (codes "DISCONNECT", disconnect)
    ∷ (codes "UNSUBSCRIBE", unsubscribe)
    ∷ (codes "BEGIN", begin)
    ∷ (codes "COMMIT", commit)
    ∷ (codes "ABORT", abort)
    ∷ (codes "ACK", ack)
    ∷ (codes "NACK", nack)
    ∷ []

-- `(*h->handler)(frame)`; the fuel is for `transaction_commit`.
unfoldable pub call_handler : Handler → ℕ → Context → Frame → Server → Result
call_handler send fuel ctx frame s = handler_stomp_send ctx frame s
call_handler subscribe fuel ctx frame s = handler_stomp_subscribe ctx frame s
call_handler connect fuel ctx frame s = handler_stomp_connect ctx frame s
call_handler disconnect fuel ctx frame s = handler_stomp_disconnect ctx frame s
call_handler unsubscribe fuel ctx frame s = handler_stomp_unsubscribe ctx frame s
call_handler begin fuel ctx frame s = handler_stomp_begin ctx frame s
call_handler commit fuel ctx frame s = handler_stomp_commit fuel ctx frame s
call_handler abort fuel ctx frame s = handler_stomp_abort ctx frame s
call_handler ack fuel ctx frame s = handler_stomp_ack ctx frame s
call_handler nack fuel ctx frame s = handler_stomp_nack ctx frame s

-- The search of `handle_frame`: the first name that the frame's begins with.
unfoldable pub find_handler : Bytes → List (Bytes × Handler) → Option Handler
find_handler name [] = none
find_handler name ((n, h) ∷ hs) =
    if strncmp_eq name n (strlen n) then some h else find_handler name hs

-- `free_frame` where the handler returned NULL
unfoldable pub released : Frame → Result → Result
released frame (handled none s) = handled none (record s { freed = frame.addr ∷ s.freed })
released frame (handled (some f) s) = handled (some f) s
released frame aborted = aborted
released frame corrupted = corrupted
released frame running = running

unfoldable pub handle_found : ℕ → Context → Frame → Server → Option Handler → Result
unfolding released send_error
handle_found fuel ctx frame s (some h) = released frame (call_handler h fuel ctx frame s)
handle_found fuel ctx frame s none = handled (some frame) (
    send_error ctx frame.sock
      (codes "failed to handle frame (" ++ (c_string frame.name ++ codes ")")) s)

-- A frame that no handler takes is answered and kept.
unfoldable pub handle_frame : ℕ → Context → Frame → Server → Result
unfolding handle_found
handle_frame fuel ctx frame s =
    handle_found fuel ctx frame s (find_handler frame.name stomp_handlers)
