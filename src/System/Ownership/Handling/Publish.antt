-- ===== src/System/Ownership/Handling/Publish.antt =====
-- SEND puts its frame in one place at most.
use newtmq_server.Base.{ℕ, Option, none, some, Bytes, arith}
use newtmq_server.Common.{Ret}
use newtmq_server.Frame.{Frame}
use newtmq_server.Management.{iterate_header}
use newtmq_server.Persistence.{Persistent, persist_frame}
use newtmq_server.Protocol.{
  Server, Context, Result, handled, aborted, corrupted, running, send_error, receipt,
}
use newtmq_server.Protocol.Send.{
  SendAttrs, send_from, send_valid, send_destination, receipted, publish, publish_persisted,
  reply_registered, send_handlers, no_send_attrs,
}
use newtmq_server.System.Ownership.Counts.{is_at, count_server}
use newtmq_server.System.Ownership.Queues.{enqueue-count}
use newtmq_server.System.Ownership.Transactions.{transaction_add-count}
use newtmq_server.System.Ownership.Handling.Results.{Handed, with_attrs-Handed}

module _ (a : ℕ) (ctx : Context) (f : Frame) where
  publish_persisted-Handed :
      (qname : Bytes) (s : Server) (o : Option (Ret × Persistent))
      → Handed a (count_server a s) (is_at a f.addr) (publish_persisted f qname s o)
  unfolding publish_persisted
  publish_persisted-Handed qname s none = tt
  publish_persisted-Handed qname s (some (r, pm)) = omega (arith, enqueue-count a f qname s.queues)

  publish-Handed :
      (qname : Bytes) (tid : Option Bytes) (s : Server)
      → Handed a (count_server a s) (is_at a f.addr) (publish ctx f qname tid s)
  unfolding publish
  publish-Handed qname none s =
      publish_persisted-Handed qname s (persist_frame ctx.disk f qname s.persistent)
  publish-Handed qname (some tid) s = omega (
    arith,
    transaction_add-count a tid (record f { transaction_data = some qname }) s.transactions,
  )

  receipted-Handed :
      (k : ℕ) (id : Option Bytes) (r : Result)
      → Handed a k (is_at a f.addr) r
      → Handed a k (is_at a f.addr) (receipted f id r)
  unfolding receipted receipt
  receipted-Handed k none (handled none s) h = h
  receipted-Handed k none (handled (some g) s) h = h
  receipted-Handed k (some id) (handled none s) h = h
  receipted-Handed k (some id) (handled (some g) s) h = h
  receipted-Handed k id aborted h = tt
  receipted-Handed k id corrupted h = tt
  receipted-Handed k id running h = tt

  send_destination-Handed :
      (o : Option Bytes) (d : SendAttrs) (s : Server)
      → Handed a (count_server a s) (is_at a f.addr) (send_destination ctx o d f s)
  unfolding send_destination send_error
  send_destination-Handed none d s = omega arith
  send_destination-Handed (some qname) d s =
      receipted-Handed (count_server a s) d.receipt_id _ (publish-Handed qname d.tid s)

send_valid-Handed :
    (a : ℕ) (ctx : Context) (f : Frame) (s : Server) (d : SendAttrs) (reply : Option Bytes)
    → Handed a
        (count_server a s)
        (is_at a f.addr)
        (send_destination ctx d.qname d f (reply_registered f reply s))
unfolding reply_registered
send_valid-Handed a ctx f s d none = send_destination-Handed a ctx f d.qname d s
send_valid-Handed a ctx f s d (some dest) =
    send_destination-Handed a ctx f d.qname d (reply_registered f (some dest) s)

pub send_from-Handed :
    (a : ℕ) (ctx : Context) (f : Frame) (s : Server) (o : Option ℕ)
    → Handed a (count_server a s) (is_at a f.addr) (send_from ctx f s o)
unfolding send_from send_valid
send_from-Handed a ctx f s none = tt
send_from-Handed a ctx f s (some c) =
    with_attrs-Handed a (is_at a f.addr) ctx f s
      (iterate_header f.attrs send_handlers (no_send_attrs (ctx.conn_id c))) (send_valid ctx s)
      (λ d lines. send_valid-Handed a ctx (record f { attrs = lines }) s d d.reply_to)
