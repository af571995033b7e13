-- ===== src/System/Workers/Publish.antt =====
-- SEND registers a worker for replies at most.
use newtmq_server.Base.{ℕ, refl, Option, none, some, Bytes, inl}
use newtmq_server.Common.{Ret}
use newtmq_server.Frame.{Frame}
use newtmq_server.Management.{iterate_header}
use newtmq_server.Persistence.{Persistent, persist_frame}
use newtmq_server.Sending.{WorkerManager}
use newtmq_server.Sending.Counts.{Enrols, register_reply_worker-Enrols}
use newtmq_server.Protocol.{
  Server, Context, Result, handled, aborted, corrupted, running, send_error, receipt,
}
use newtmq_server.Protocol.Send.{
  SendAttrs, send_from, send_valid, send_destination, receipted, publish, publish_persisted,
  reply_registered, send_handlers, no_send_attrs,
}
use newtmq_server.System.Workers.Results.{Enrolled, with_attrs-Enrolled}

module _ (a : Bytes) (ctx : Context) (f : Frame) where
  publish_persisted-Enrolled :
      (qname : Bytes) (s : Server) (w : WorkerManager) (o : Option (Ret × Persistent))
      → Enrols a w s.workers
      → Enrolled a w (publish_persisted f qname s o)
  unfolding publish_persisted
  publish_persisted-Enrolled qname s w none h = tt
  publish_persisted-Enrolled qname s w (some (r, pm)) h = h

  publish-Enrolled :
      (qname : Bytes) (tid : Option Bytes) (s : Server) (w : WorkerManager)
      → Enrols a w s.workers
      → Enrolled a w (publish ctx f qname tid s)
  unfolding publish
  publish-Enrolled qname none s w h =
      publish_persisted-Enrolled qname s w (persist_frame ctx.disk f qname s.persistent) h
  publish-Enrolled qname (some tid) s w h = h

  receipted-Enrolled :
      (id : Option Bytes) (w : WorkerManager) (r : Result)
      → Enrolled a w r
      → Enrolled a w (receipted f id r)
  unfolding receipted receipt
  receipted-Enrolled none w (handled o s) h = h
  receipted-Enrolled (some id) w (handled o s) h = h
  receipted-Enrolled id w aborted h = tt
  receipted-Enrolled id w corrupted h = tt
  receipted-Enrolled id w running h = tt

  send_destination-Enrolled :
      (o : Option Bytes) (d : SendAttrs) (s : Server) (w : WorkerManager)
      → Enrols a w s.workers
      → Enrolled a w (send_destination ctx o d f s)
  unfolding send_destination send_error
  send_destination-Enrolled none d s w h = h
  send_destination-Enrolled (some qname) d s w h =
      receipted-Enrolled d.receipt_id w _ (publish-Enrolled qname d.tid s w h)

  reply_registered-Enrols :
      (o : Option Bytes) (s : Server) → Enrols a s.workers (reply_registered f o s).workers
  unfolding reply_registered
  reply_registered-Enrols none s = inl (refl, refl)
  reply_registered-Enrols (some dest) s = register_reply_worker-Enrols a dest f.sock s.workers

pub send_from-Enrolled :
    (a : Bytes) (ctx : Context) (f : Frame) (s : Server) (o : Option ℕ)
    → Enrolled a s.workers (send_from ctx f s o)
unfolding send_from send_valid
send_from-Enrolled a ctx f s none = tt
send_from-Enrolled a ctx f s (some c) =
    with_attrs-Enrolled a ctx f s
      (iterate_header f.attrs send_handlers (no_send_attrs (ctx.conn_id c))) (send_valid ctx s)
      (λ d lines.
        let g : Frame = record f { attrs = lines } in
        send_destination-Enrolled a ctx g d.qname d (reply_registered g d.reply_to s) s.workers
          (reply_registered-Enrols a ctx g d.reply_to s))
