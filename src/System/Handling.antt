-- ===== src/System/Handling.antt =====
-- What the frame handlers keep: the size of the table of queues, the books of the persistent worker,
-- and that no frame of a transaction has a callback.
pub mod Transactions
pub mod Results
pub mod Publish
use newtmq_server.Base.{
  ℕ, zero, suc, ◌+◌, ◌<◌, ◌≡◌, refl, ap, ◌∙◌, subst, sym, List, [], ◌∷◌, Option, none, some, Bytes,
  All, length,
}
use newtmq_server.Common.{Ret, get_hash}
use newtmq_server.Frame.{Frame, LineData}
use newtmq_server.Management.{Iterated, iterated, iterate_header}
use newtmq_server.Persistence.{Persistent, persist_frame}
use newtmq_server.Persistence.Accounting.{IsAccounted, persist_frame-IsAccounted}
use newtmq_server.Queue.{qb_size, enqueue}
use newtmq_server.Queue.Laws.{length-put_entry}
use newtmq_server.Transaction.{Manager, Outcome, returned, transaction_commit, transaction_start}
use newtmq_server.Protocol.{
  Server, Context, Result, handled, aborted, corrupted, running, with_attrs, invalid, send_error,
  asserting, receipt,
}
use newtmq_server.Protocol.Send.{
  SendAttrs, handler_stomp_send, send_from, send_valid, send_destination, receipted, publish,
  publish_persisted, reply_registered, send_handlers, no_send_attrs,
}
use newtmq_server.Protocol.Session.{
  handler_stomp_connect, connect_from, handler_stomp_subscribe, subscribe_to,
  handler_stomp_unsubscribe, unsubscribe_id, handler_stomp_disconnect, handler_stomp_ack,
  handler_stomp_nack, connect_handlers, subscribe_handlers, disconnect_handlers, id_handlers,
  send_connected_msg,
}
use newtmq_server.Protocol.Tid.{
  handler_stomp_begin, handler_stomp_commit, handler_stomp_abort, begin_tid, abort_tid, commit_tid,
  started, commit_result, callback_of, tid_handlers,
}
use newtmq_server.Protocol.Dispatch.{
  Handler, call_handler, handle_frame, handle_found, released, find_handler, stomp_handlers,
}
use newtmq_server.System.Frames.{IsReady}
use newtmq_server.System.Handling.Transactions.{
  NoCallback, IsUncalled, Returns, Commits, transaction_start-IsUncalled,
  transaction_add-IsUncalled, transaction_abort-IsUncalled, transaction_commit-Commits,
}
use newtmq_server.System.Handling.Results.{IsOrderly, Keeps, with_attrs-Keeps, asserting-Keeps}
use newtmq_server.System.Handling.Publish.{send_from-Keeps}

connect_from-Keeps :
    (ctx : Context) (f : Frame) (s : Server) (o : Option ℕ)
    → IsOrderly s
    → Keeps (connect_from ctx f s o)
unfolding connect_from
connect_from-Keeps ctx f s none h = tt
connect_from-Keeps ctx f s (some c) h =
    with_attrs-Keeps ctx f s
      (iterate_header f.attrs connect_handlers (record { userid = none; passwd = none }))
      (λ d g.
        handled none
          (record s { connected = c ∷ s.connected; sent = send_connected_msg g.sock s.sent }))
      h (λ d lines. h)

subscribe_to-Keeps :
    (ctx : Context) (f : Frame) (s : Server) (o id : Option Bytes)
    → IsOrderly s
    → Keeps (subscribe_to ctx f s o id)
unfolding subscribe_to send_error
subscribe_to-Keeps ctx f s none id h = h
subscribe_to-Keeps ctx f s (some dest) id h = h

unsubscribe_id-IsOrderly :
    (o : Option Bytes) (s : Server) → IsOrderly s → IsOrderly (unsubscribe_id o s)
unfolding unsubscribe_id
unsubscribe_id-IsOrderly none s h = h
unsubscribe_id-IsOrderly (some id) s h = h

receipt-IsOrderly :
    (f : Frame) (o : Option Bytes) (s : Server) → IsOrderly s → IsOrderly (receipt f o s)
unfolding receipt
receipt-IsOrderly f none s h = h
receipt-IsOrderly f (some id) s h = h

started-Keeps :
    (s : Server) (o : Outcome (Ret × Manager Frame))
    → IsOrderly s
    → Returns (λ x. IsUncalled x.1) o
    → Keeps (started s o)
unfolding started
started-Keeps s (returned (r, m)) h k = (h.0, h.1, k)
started-Keeps s Outcome.corrupted h k = tt
started-Keeps s Outcome.deadlocked h k = tt
started-Keeps s Outcome.running h k = tt

begin_tid-Keeps :
    (ctx : Context) (f : Frame) (s : Server) (o : Option Bytes)
    → IsOrderly s
    → Keeps (begin_tid ctx f s o)
unfolding begin_tid send_error
begin_tid-Keeps ctx f s none h = h
begin_tid-Keeps ctx f s (some tid) h =
    started-Keeps s _ h (transaction_start-IsUncalled ctx.junk tid s.transactions h.2)

abort_tid-Keeps :
    (ctx : Context) (f : Frame) (s : Server) (o : Option Bytes)
    → IsOrderly s
    → Keeps (abort_tid ctx f s o)
unfolding abort_tid send_error
abort_tid-Keeps ctx f s none h = h
abort_tid-Keeps ctx f s (some tid) h =
    (h.0, h.1, transaction_abort-IsUncalled tid s.transactions h.2)

pub callback_of-none : (ctx : Context) (f : Frame) → NoCallback f → callback_of ctx f ≡ none
unfolding callback_of
callback_of-none ctx f n = rw n refl

commit_result-Keeps :
    (s : Server) (o : Outcome (Ret × (Manager Frame × Server)))
    → IsOrderly s
    → Returns (λ x. IsUncalled x.1.0 × (x.1.1 ≡ s)) o
    → Keeps (commit_result o)
unfolding commit_result
commit_result-Keeps s (returned (r, (m, s'))) h k = (
  ap (λ t. length t.queues) k.1 ∙ h.0,
  subst (λ t. All IsAccounted t.persistent) (sym k.1) h.1,
  k.0,
)
commit_result-Keeps s Outcome.corrupted h k = tt
commit_result-Keeps s Outcome.deadlocked h k = tt
commit_result-Keeps s Outcome.running h k = tt

commit_tid-Keeps :
    (fuel : ℕ) (ctx : Context) (f : Frame) (s : Server) (o : Option Bytes)
    → IsOrderly s
    → Keeps (commit_tid fuel ctx f s o)
unfolding commit_tid send_error
commit_tid-Keeps fuel ctx f s none h = h
commit_tid-Keeps fuel ctx f s (some tid) h =
    commit_result-Keeps s (transaction_commit (callback_of ctx) fuel tid s.transactions s) h (
      transaction_commit-Commits (callback_of ctx) (callback_of-none ctx) s fuel tid s.transactions
        h.2)

call_handler-Keeps :
    (k : Handler) (fuel : ℕ) (ctx : Context) (f : Frame) (s : Server)
    → IsReady f
    → IsOrderly s
    → Keeps (call_handler k fuel ctx f s)
unfolding call_handler handler_stomp_send handler_stomp_subscribe handler_stomp_connect
    handler_stomp_disconnect handler_stomp_unsubscribe handler_stomp_ack handler_stomp_nack
    handler_stomp_begin handler_stomp_commit handler_stomp_abort
call_handler-Keeps Handler.send fuel ctx f s r h = send_from-Keeps ctx f s f.cinfo r h
call_handler-Keeps Handler.connect fuel ctx f s r h = connect_from-Keeps ctx f s f.cinfo h
call_handler-Keeps Handler.subscribe fuel ctx f s r h = asserting-Keeps f.cinfo _ (
    with_attrs-Keeps ctx f s
      (iterate_header f.attrs subscribe_handlers (record { destination = none; id = none }))
      (λ d g. subscribe_to ctx g s d.destination d.id) h
      (λ d lines. subscribe_to-Keeps ctx (record f { attrs = lines }) s d.destination d.id h))
call_handler-Keeps Handler.disconnect fuel ctx f s r h =
    with_attrs-Keeps ctx f s (iterate_header f.attrs disconnect_handlers none)
      (λ d g. handled none (receipt g d s)) h
      (λ d lines. receipt-IsOrderly (record f { attrs = lines }) d s h)
call_handler-Keeps Handler.unsubscribe fuel ctx f s r h = asserting-Keeps f.cinfo _ (
    with_attrs-Keeps ctx f s (iterate_header f.attrs id_handlers none)
      (λ d g. handled none (unsubscribe_id d s)) h (λ d lines. unsubscribe_id-IsOrderly d s h))
call_handler-Keeps Handler.begin fuel ctx f s r h =
    with_attrs-Keeps ctx f s (iterate_header f.attrs tid_handlers none) (λ d g. begin_tid ctx g s d)
      h (λ d lines. begin_tid-Keeps ctx (record f { attrs = lines }) s d h)
call_handler-Keeps Handler.commit fuel ctx f s r h =
    with_attrs-Keeps ctx f s (iterate_header f.attrs tid_handlers none)
      (λ d g. commit_tid fuel ctx g s d) h
      (λ d lines. commit_tid-Keeps fuel ctx (record f { attrs = lines }) s d h)
call_handler-Keeps Handler.abort fuel ctx f s r h =
    with_attrs-Keeps ctx f s (iterate_header f.attrs tid_handlers none) (λ d g. abort_tid ctx g s d)
      h (λ d lines. abort_tid-Keeps ctx (record f { attrs = lines }) s d h)
call_handler-Keeps Handler.ack fuel ctx f s r h = asserting-Keeps f.cinfo _ (
    with_attrs-Keeps ctx f s (iterate_header f.attrs id_handlers none) (λ d g. handled none s) h
      (λ d lines. h))
call_handler-Keeps Handler.nack fuel ctx f s r h = asserting-Keeps f.cinfo _ (
    with_attrs-Keeps ctx f s (iterate_header f.attrs id_handlers none) (λ d g. handled none s) h
      (λ d lines. h))

released-Keeps : (f : Frame) (r : Result) → Keeps r → Keeps (released f r)
unfolding released
released-Keeps f (handled none s) h = h
released-Keeps f (handled (some g) s) h = h
released-Keeps f aborted h = tt
released-Keeps f corrupted h = tt
released-Keeps f running h = tt

handle_found-Keeps :
    (fuel : ℕ) (ctx : Context) (f : Frame) (s : Server) (o : Option Handler)
    → IsReady f
    → IsOrderly s
    → Keeps (handle_found fuel ctx f s o)
unfolding handle_found send_error
handle_found-Keeps fuel ctx f s none r h = h
handle_found-Keeps fuel ctx f s (some k) r h =
    released-Keeps f _ (call_handler-Keeps k fuel ctx f s r h)

-- Handling a ready frame keeps the server in order, if the handler returns.
pub handle_frame-Keeps :
    (fuel : ℕ) (ctx : Context) (f : Frame) (s : Server)
    → IsReady f
    → IsOrderly s
    → Keeps (handle_frame fuel ctx f s)
unfolding handle_frame
handle_frame-Keeps fuel ctx f s r h =
    handle_found-Keeps fuel ctx f s (find_handler f.name stomp_handlers) r h
