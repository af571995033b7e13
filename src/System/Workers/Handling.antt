-- ===== src/System/Workers/Handling.antt =====
-- The other handlers, and the dispatch.
use newtmq_server.Base.{ℕ, ◌≡◌, refl, ap, ◌∷◌, Option, none, some, Bytes, Bool-cases, inl, inr}
use newtmq_server.Common.{Ret}
use newtmq_server.Frame.{Frame}
use newtmq_server.Management.{iterate_header}
use newtmq_server.Sending.{WorkerManager}
use newtmq_server.Sending.Counts.{register_multicast_worker-Enrols, register_unicast_worker-Enrols}
use newtmq_server.Transaction.{Manager, Outcome, returned, transaction_start, transaction_commit}
use newtmq_server.Protocol.{
  Server, Context, Result, handled, aborted, corrupted, running, send_error, receipt,
}
use newtmq_server.Protocol.Send.{handler_stomp_send}
use newtmq_server.Protocol.Session.{
  handler_stomp_connect, connect_from, handler_stomp_subscribe, subscribe_to, is_topic,
  handler_stomp_unsubscribe, unsubscribe_id, handler_stomp_disconnect, handler_stomp_ack,
  handler_stomp_nack, connect_handlers, subscribe_handlers, disconnect_handlers, id_handlers,
  send_connected_msg,
}
use newtmq_server.Protocol.Tid.{
  handler_stomp_begin, handler_stomp_commit, handler_stomp_abort, begin_tid, abort_tid, commit_tid,
  started, commit_result, callback_of, tid_handlers,
}
use newtmq_server.Protocol.Dispatch.{
  Handler, call_handler, handle_frame, handle_found, released, find_handler, stomp_handlers,
}
use newtmq_server.System.Handling.{callback_of-none}
use newtmq_server.System.Handling.Transactions.{IsUncalled, Returns, transaction_commit-Commits}
use newtmq_server.System.Workers.Results.{
  Enrolled, with_attrs-Enrolled, asserting-Enrolled, unchanged,
}
use newtmq_server.System.Workers.Publish.{send_from-Enrolled}

module _ (a : Bytes) (ctx : Context) (f : Frame) (s : Server) where
  subscribe_to-Enrolled : (o id : Option Bytes) → Enrolled a s.workers (subscribe_to ctx f s o id)
  unfolding subscribe_to send_error
  subscribe_to-Enrolled none id = inl (refl, refl)
  subscribe_to-Enrolled (some dest) id = elim (Bool-cases (is_topic dest)) [
    | inl e ↦ rw e (register_multicast_worker-Enrols a dest f.sock id s.workers)
    | inr e ↦ rw e (register_unicast_worker-Enrols a dest f.sock id s.workers)
  ]

  unsubscribe_id-workers : (o : Option Bytes) → (unsubscribe_id o s).workers ≡ s.workers
  unfolding unsubscribe_id
  unsubscribe_id-workers none = refl
  unsubscribe_id-workers (some id) = refl

  receipt-workers : (o : Option Bytes) → (receipt f o s).workers ≡ s.workers
  unfolding receipt
  receipt-workers none = refl
  receipt-workers (some id) = refl

  connect_from-Enrolled : (o : Option ℕ) → Enrolled a s.workers (connect_from ctx f s o)
  unfolding connect_from
  connect_from-Enrolled none = tt
  connect_from-Enrolled (some c) =
      with_attrs-Enrolled a ctx f s
        (iterate_header f.attrs connect_handlers (record { userid = none; passwd = none }))
        (λ d g.
          handled none
            (record s { connected = c ∷ s.connected; sent = send_connected_msg g.sock s.sent }))
        (λ d lines. inl (refl, refl))

  started-Enrolled : (o : Outcome (Ret × Manager Frame)) → Enrolled a s.workers (started s o)
  unfolding started
  started-Enrolled (returned (r, m)) = inl (refl, refl)
  started-Enrolled Outcome.corrupted = tt
  started-Enrolled Outcome.deadlocked = tt
  started-Enrolled Outcome.running = tt

  begin_tid-Enrolled : (o : Option Bytes) → Enrolled a s.workers (begin_tid ctx f s o)
  unfolding begin_tid send_error
  begin_tid-Enrolled none = inl (refl, refl)
  begin_tid-Enrolled (some tid) = started-Enrolled (transaction_start ctx.junk tid s.transactions)

  abort_tid-Enrolled : (o : Option Bytes) → Enrolled a s.workers (abort_tid ctx f s o)
  unfolding abort_tid send_error
  abort_tid-Enrolled none = inl (refl, refl)
  abort_tid-Enrolled (some tid) = inl (refl, refl)

  commit_result-Enrolled :
      (o : Outcome (Ret × (Manager Frame × Server)))
      → Returns (λ x. IsUncalled x.1.0 × (x.1.1 ≡ s)) o
      → Enrolled a s.workers (commit_result o)
  unfolding commit_result
  commit_result-Enrolled (returned (r, (m, s'))) h =
      unchanged a ctx f s none (record s' { transactions = m }) (ap (λ t. t.workers) h.1)
  commit_result-Enrolled Outcome.corrupted h = tt
  commit_result-Enrolled Outcome.deadlocked h = tt
  commit_result-Enrolled Outcome.running h = tt

  commit_tid-Enrolled :
      (fuel : ℕ) (o : Option Bytes)
      → IsUncalled s.transactions
      → Enrolled a s.workers (commit_tid fuel ctx f s o)
  unfolding commit_tid send_error
  commit_tid-Enrolled fuel none h = inl (refl, refl)
  commit_tid-Enrolled fuel (some tid) h =
      commit_result-Enrolled (transaction_commit (callback_of ctx) fuel tid s.transactions s) (
        transaction_commit-Commits (callback_of ctx) (callback_of-none ctx) s fuel tid
          s.transactions h)

call_handler-Enrolled :
    (a : Bytes) (k : Handler) (fuel : ℕ) (ctx : Context) (f : Frame) (s : Server)
    → IsUncalled s.transactions
    → Enrolled a s.workers (call_handler k fuel ctx f s)
unfolding call_handler handler_stomp_send handler_stomp_subscribe handler_stomp_connect
    handler_stomp_disconnect handler_stomp_unsubscribe handler_stomp_ack handler_stomp_nack
    handler_stomp_begin handler_stomp_commit handler_stomp_abort
call_handler-Enrolled a Handler.send fuel ctx f s h = send_from-Enrolled a ctx f s f.cinfo
call_handler-Enrolled a Handler.connect fuel ctx f s h = connect_from-Enrolled a ctx f s f.cinfo
call_handler-Enrolled a Handler.subscribe fuel ctx f s h = asserting-Enrolled a ctx f s f.cinfo _ (
    with_attrs-Enrolled a ctx f s
      (iterate_header f.attrs subscribe_handlers (record { destination = none; id = none }))
      (λ d g. subscribe_to ctx g s d.destination d.id)
      (λ d lines. subscribe_to-Enrolled a ctx (record f { attrs = lines }) s d.destination d.id))
call_handler-Enrolled a Handler.disconnect fuel ctx f s h =
    with_attrs-Enrolled a ctx f s (iterate_header f.attrs disconnect_handlers none)
      (λ d g. handled none (receipt g d s))
      (λ d lines.
        let g : Frame = record f { attrs = lines } in
        unchanged a ctx f s none (receipt g d s) (receipt-workers a ctx g s d))
call_handler-Enrolled a Handler.unsubscribe fuel ctx f s h =
    asserting-Enrolled a ctx f s f.cinfo _ (
      with_attrs-Enrolled a ctx f s (iterate_header f.attrs id_handlers none)
        (λ d g. handled none (unsubscribe_id d s))
        (λ d lines.
          unchanged a ctx f s none (unsubscribe_id d s) (unsubscribe_id-workers a ctx f s d)))
call_handler-Enrolled a Handler.begin fuel ctx f s h =
    with_attrs-Enrolled a ctx f s (iterate_header f.attrs tid_handlers none)
      (λ d g. begin_tid ctx g s d)
      (λ d lines. begin_tid-Enrolled a ctx (record f { attrs = lines }) s d)
call_handler-Enrolled a Handler.commit fuel ctx f s h =
    with_attrs-Enrolled a ctx f s (iterate_header f.attrs tid_handlers none)
      (λ d g. commit_tid fuel ctx g s d)
      (λ d lines. commit_tid-Enrolled a ctx (record f { attrs = lines }) s fuel d h)
call_handler-Enrolled a Handler.abort fuel ctx f s h =
    with_attrs-Enrolled a ctx f s (iterate_header f.attrs tid_handlers none)
      (λ d g. abort_tid ctx g s d)
      (λ d lines. abort_tid-Enrolled a ctx (record f { attrs = lines }) s d)
call_handler-Enrolled a Handler.ack fuel ctx f s h = asserting-Enrolled a ctx f s f.cinfo _ (
    with_attrs-Enrolled a ctx f s (iterate_header f.attrs id_handlers none) (λ d g. handled none s)
      (λ d lines. inl (refl, refl)))
call_handler-Enrolled a Handler.nack fuel ctx f s h = asserting-Enrolled a ctx f s f.cinfo _ (
    with_attrs-Enrolled a ctx f s (iterate_header f.attrs id_handlers none) (λ d g. handled none s)
      (λ d lines. inl (refl, refl)))

released-Enrolled :
    (a : Bytes) (w : WorkerManager) (f : Frame) (r : Result)
    → Enrolled a w r
    → Enrolled a w (released f r)
unfolding released
released-Enrolled a w f (handled none s) h = h
released-Enrolled a w f (handled (some g) s) h = h
released-Enrolled a w f aborted h = tt
released-Enrolled a w f corrupted h = tt
released-Enrolled a w f running h = tt

handle_found-Enrolled :
    (a : Bytes) (fuel : ℕ) (ctx : Context) (f : Frame) (s : Server) (o : Option Handler)
    → IsUncalled s.transactions
    → Enrolled a s.workers (handle_found fuel ctx f s o)
unfolding handle_found send_error
handle_found-Enrolled a fuel ctx f s none h = inl (refl, refl)
handle_found-Enrolled a fuel ctx f s (some k) h =
    released-Enrolled a s.workers f _ (call_handler-Enrolled a k fuel ctx f s h)

pub handle_frame-Enrolled :
    (a : Bytes) (fuel : ℕ) (ctx : Context) (f : Frame) (s : Server)
    → IsUncalled s.transactions
    → Enrolled a s.workers (handle_frame fuel ctx f s)
unfolding handle_frame
handle_frame-Enrolled a fuel ctx f s h =
    handle_found-Enrolled a fuel ctx f s (find_handler f.name stomp_handlers) h
