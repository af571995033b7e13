-- ===== src/System/Handling/Publish.antt =====
-- SEND keeps the server in order.
use newtmq_server.Base.{ℕ, ◌<◌, ◌≡◌, refl, ◌∙◌, Option, none, some, Bytes, All}
use newtmq_server.Common.{Ret, get_hash}
use newtmq_server.Frame.{Frame}
use newtmq_server.Management.{iterate_header}
use newtmq_server.Persistence.{Persistent, persist_frame}
use newtmq_server.Persistence.Accounting.{IsAccounted, persist_frame-IsAccounted}
use newtmq_server.Queue.{enqueue}
use newtmq_server.Queue.Laws.{length-put_entry}
use newtmq_server.Protocol.{
  Server, Context, Result, handled, aborted, corrupted, running, send_error, receipt,
}
use newtmq_server.Protocol.Send.{
  SendAttrs, send_from, send_valid, send_destination, receipted, publish, publish_persisted,
  reply_registered, send_handlers, no_send_attrs,
}
use newtmq_server.System.Frames.{IsReady}
use newtmq_server.System.Handling.Transactions.{NoCallback, transaction_add-IsUncalled}
use newtmq_server.System.Handling.Results.{IsOrderly, Keeps, with_attrs-Keeps}

publish_persisted-Keeps :
    (f : Frame) (qname : Bytes) (s : Server) (o : Option (Ret × Persistent))
    → ((r : Ret) (pm : Persistent) → o ≡ some (r, pm) → All IsAccounted pm)
    → IsOrderly s
    → Keeps (publish_persisted f qname s o)
unfolding publish_persisted enqueue
publish_persisted-Keeps f qname s none k h = tt
publish_persisted-Keeps f qname s (some (r, pm)) k h =
    (length-put_entry f (get_hash qname) qname s.queues ∙ h.0, k r pm refl, h.2)

publish-Keeps :
    (ctx : Context) (f : Frame) (qname : Bytes) (tid : Option Bytes) (s : Server)
    → 0 < f.size
    → NoCallback f
    → IsOrderly s
    → Keeps (publish ctx f qname tid s)
unfolding publish
publish-Keeps ctx f qname none s p n h =
    publish_persisted-Keeps f qname s (persist_frame ctx.disk f qname s.persistent)
      (λ r pm e. persist_frame-IsAccounted ctx.disk f qname s.persistent pm r h.1 p e) h
publish-Keeps ctx f qname (some tid) s p n h = (
  h.0,
  h.1,
  transaction_add-IsUncalled tid (record f { transaction_data = some qname }) s.transactions n h.2,
)

receipted-Keeps : (f : Frame) (id : Option Bytes) (r : Result) → Keeps r → Keeps (receipted f id r)
unfolding receipted receipt
receipted-Keeps f none (handled o s) h = h
receipted-Keeps f (some id) (handled o s) h = h
receipted-Keeps f id aborted h = tt
receipted-Keeps f id corrupted h = tt
receipted-Keeps f id running h = tt

reply_registered-IsOrderly :
    (f : Frame) (o : Option Bytes) (s : Server) → IsOrderly s → IsOrderly (reply_registered f o s)
unfolding reply_registered
reply_registered-IsOrderly f none s h = h
reply_registered-IsOrderly f (some dest) s h = h

send_destination-Keeps :
    (ctx : Context) (o : Option Bytes) (d : SendAttrs) (f : Frame) (s : Server)
    → 0 < f.size
    → NoCallback f
    → IsOrderly s
    → Keeps (send_destination ctx o d f s)
unfolding send_destination send_error
send_destination-Keeps ctx none d f s p n h = h
send_destination-Keeps ctx (some qname) d f s p n h =
    receipted-Keeps f d.receipt_id _ (publish-Keeps ctx f qname d.tid s p n h)

pub send_from-Keeps :
    (ctx : Context) (f : Frame) (s : Server) (o : Option ℕ)
    → IsReady f
    → IsOrderly s
    → Keeps (send_from ctx f s o)
unfolding send_from send_valid
send_from-Keeps ctx f s none r h = tt
send_from-Keeps ctx f s (some c) r h =
    with_attrs-Keeps ctx f s (iterate_header f.attrs send_handlers (no_send_attrs (ctx.conn_id c)))
      (send_valid ctx s) h
      (λ d lines.
        let f' : Frame = record f { attrs = lines } in
        send_destination-Keeps ctx d.qname d f' (reply_registered f' d.reply_to s) r.sized
          r.no_callback (reply_registered-IsOrderly f' d.reply_to s h))
