-- ===== src/Protocol/Send.antt =====
-- lib/stomp_proto_send.c
use newtmq_server.Base.{
  ℕ, ◌+◌, ltb, if◌then◌else◌, List, [], ◌∷◌, ◌++◌, Option, none, some, Bytes, codes, length, strlen,
  c_string,
}
use newtmq_server.Common.{Ret}
use newtmq_server.Frame.{Frame, LineData, ld_max}
use newtmq_server.Management.{Handled, kept, HeaderHandler, iterate_header}
use newtmq_server.Persistence.{Persistent, persist_frame}
use newtmq_server.Queue.{enqueue}
use newtmq_server.Receive.Worker.{conn_id_len}
use newtmq_server.Sending.{register_reply_worker}
use newtmq_server.Transaction.{transaction_add}
use newtmq_server.Protocol.{
  Server, Context, Result, handled, aborted, corrupted, running, send_error, with_attrs, storing,
  receipt,
}

-- `struct attrinfo_t`
pub record SendAttrs : Type 0 where
  pub conn_id : Bytes
  pub qname : Option Bytes
  pub tid : Option Bytes
  pub receipt_id : Option Bytes
  pub reply_to : Option Bytes

abbrev unique_str_len : ℕ
unique_str_len = 10

-- `sprintf` appends the identifier in the line; the pointer reads the appended string. A line with
-- its NUL goes past `data[LD_MAX]` where the name, the value and the identifier are too long.
unfoldable pub handler_reply_to : Bytes → SendAttrs → LineData → Handled SendAttrs
handler_reply_to context d line =
    let unique = c_string context ++ c_string d.conn_id in
    if ltb (strlen context + unique_str_len) ld_max
    then (if ltb (length (codes "reply-to:" ++ unique)) ld_max
        then kept (record d { reply_to = some unique })
            (record { content = codes "reply-to:" ++ unique; len = line.len + conn_id_len })
        else Handled.overrun)
    else Handled.refused

abbrev pub send_handlers : List (HeaderHandler SendAttrs)
send_handlers =
    record { name = codes "destination:"; handler = storing (λ c d. record d { qname = some c }) }
    ∷ record { name = codes "transaction:"; handler = storing (λ c d. record d { tid = some c }) }
    ∷ record {
      name = codes "receipt:";
      handler = storing (λ c d. record d { receipt_id = some c });
    }
    ∷ record { name = codes "reply-to:"; handler = handler_reply_to }
    ∷ []

unfoldable pub reply_registered : Frame → Option Bytes → Server → Server
reply_registered frame none s = s
reply_registered frame (some dest) s = record s {
  workers = register_reply_worker frame.sock dest s.workers;
}

-- `enqueue`, after `persist_frame` has returned
unfoldable pub publish_persisted : Frame → Bytes → Server → Option (Ret × Persistent) → Result
publish_persisted frame qname s none = aborted
publish_persisted frame qname s (some (r, pm)) =
    handled (some frame)
      (record s { persistent = pm; queues = (enqueue (some frame) qname s.queues).1 })

-- the branches on `tid`; the code of `transaction_add` is not looked at
unfoldable pub publish : Context → Frame → Bytes → Option Bytes → Server → Result
unfolding publish_persisted
publish ctx frame qname none s =
    publish_persisted frame qname s (persist_frame ctx.disk frame qname s.persistent)
publish ctx frame qname (some tid) s =
    let frame' = record frame { transaction_data = some qname } in
    handled (some frame')
      (record s { transactions = (transaction_add tid frame' s.transactions).1 })

unfoldable pub receipted : Frame → Option Bytes → Result → Result
unfolding receipt
receipted frame id (handled f s) = handled f (receipt frame id s)
receipted frame id aborted = aborted
receipted frame id corrupted = corrupted
receipted frame id running = running

unfoldable pub send_destination : Context → Option Bytes → SendAttrs → Frame → Server → Result
unfolding publish receipted
send_destination ctx none d frame s =
    handled none (send_error ctx frame.sock (codes "no destination is specified\n") s)
send_destination ctx (some qname) d frame s =
    receipted frame d.receipt_id (publish ctx frame qname d.tid s)

unfoldable pub send_valid : Context → Server → SendAttrs → Frame → Result
unfolding reply_registered send_destination
send_valid ctx s d frame =
    send_destination ctx d.qname d frame (reply_registered frame d.reply_to s)

abbrev pub no_send_attrs : Bytes → SendAttrs
no_send_attrs id = record {
  conn_id = id;
  qname = none;
  tid = none;
  receipt_id = none;
  reply_to = none;
}

unfoldable pub send_from : Context → Frame → Server → Option ℕ → Result
unfolding send_valid with_attrs handler_reply_to
send_from ctx frame s none = aborted
send_from ctx frame s (some cinfo) =
    with_attrs ctx frame s
      (iterate_header frame.attrs send_handlers (no_send_attrs (ctx.conn_id cinfo)))
      (send_valid ctx s)

unfoldable pub handler_stomp_send : Context → Frame → Server → Result
unfolding send_from
handler_stomp_send ctx frame s = send_from ctx frame s frame.cinfo
