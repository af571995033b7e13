-- ===== src/System/Ownership/Handling.antt =====
-- Each frame handler frees a frame, or puts it in one place, or drops it, and touches no other frame.
pub mod Results
pub mod Publish
use newtmq_server.Base.{ℕ, ◌+◌, ◌≤◌, ◌≡◌, subst, sym, List, ◌∷◌, Option, none, some, Bytes, arith}
use newtmq_server.Common.{Ret}
use newtmq_server.Frame.{Frame, LineData}
use newtmq_server.Management.{Iterated, iterated, iterate_header}
use newtmq_server.Persistence.{Persistent, persist_frame}
use newtmq_server.Transaction.{Manager, Outcome, returned, transaction_commit}
use newtmq_server.Protocol.{
  Server, Context, Result, handled, aborted, corrupted, running, with_attrs, invalid, send_error,
  asserting, receipt,
}
use newtmq_server.Protocol.Send.{
  SendAttrs, handler_stomp_send, send_from, send_valid, send_destination, receipted, publish,
  publish_persisted, reply_registered, send_handlers, no_send_attrs,
}
use newtmq_server.Protocol.Session.{
  handler_stomp_connect, connect_from, handler_stomp_subscribe, subscribe_to,
  handler_stomp_unsubscribe, unsubscribe_id, handler_stomp_disconnect, handler_stomp_ack,
  handler_stomp_nack, connect_handlers, subscribe_handlers, disconnect_handlers, id_handlers,
  send_connected_msg,
}
use newtmq_server.Protocol.Tid.{
  handler_stomp_begin, handler_stomp_commit, handler_stomp_abort, begin_tid, abort_tid, commit_tid,
  started, commit_result, callback_of, tid_handlers,
}
use newtmq_server.Protocol.Dispatch.{
  Handler, call_handler, handle_frame, handle_found, released, find_handler, stomp_handlers,
}
use newtmq_server.System.Handling.{callback_of-none}
use newtmq_server.System.Handling.Transactions.{IsUncalled, Returns, transaction_commit-Commits}
use newtmq_server.System.Ownership.Counts.{is_at, count_server, count_transactions}
use newtmq_server.System.Ownership.Queues.{enqueue-count}
use newtmq_server.System.Ownership.Transactions.{
  transaction_add-count, transaction_abort-count, transaction_start-count, transaction_commit-count,
}
use newtmq_server.System.Ownership.Handling.Results.{
  Handed, Counted, with_attrs-Handed, asserting-Handed,
}
use newtmq_server.System.Ownership.Handling.Publish.{send_from-Handed}

module _ (a n : ℕ) (ctx : Context) (f : Frame) (s : Server) where
  subscribe_to-Handed :
      (o id : Option Bytes) → Handed a (count_server a s) n (subscribe_to ctx f s o id)
  unfolding subscribe_to send_error
  subscribe_to-Handed none id = omega arith
  subscribe_to-Handed (some dest) id = omega arith

  unsubscribe_id-count : (o : Option Bytes) → count_server a (unsubscribe_id o s) ≤ count_server a s
  unfolding unsubscribe_id
  unsubscribe_id-count none = omega arith
  unsubscribe_id-count (some id) = omega arith

  receipt-count : (o : Option Bytes) → count_server a (receipt f o s) ≤ count_server a s
  unfolding receipt
  receipt-count none = omega arith
  receipt-count (some id) = omega arith

  connect_from-Handed : (o : Option ℕ) → Handed a (count_server a s) n (connect_from ctx f s o)
  unfolding connect_from
  connect_from-Handed none = tt
  connect_from-Handed (some c) =
      with_attrs-Handed a n ctx f s
        (iterate_header f.attrs connect_handlers (record { userid = none; passwd = none }))
        (λ d g.
          handled none
            (record s { connected = c ∷ s.connected; sent = send_connected_msg g.sock s.sent }))
        (λ d lines. omega arith)

  started-Handed :
      (o : Outcome (Ret × Manager Frame))
      → Returns (λ x. count_transactions a x.1 ≤ count_transactions a s.transactions) o
      → Handed a (count_server a s) n (started s o)
  unfolding started
  started-Handed (returned (r, m)) k = omega arith
  started-Handed Outcome.corrupted k = tt
  started-Handed Outcome.deadlocked k = tt
  started-Handed Outcome.running k = tt

  begin_tid-Handed : (o : Option Bytes) → Handed a (count_server a s) n (begin_tid ctx f s o)
  unfolding begin_tid send_error
  begin_tid-Handed none = omega arith
  begin_tid-Handed (some tid) =
      started-Handed _ (transaction_start-count a ctx.junk tid s.transactions)

  abort_tid-Handed : (o : Option Bytes) → Handed a (count_server a s) n (abort_tid ctx f s o)
  unfolding abort_tid send_error
  abort_tid-Handed none = omega arith
  abort_tid-Handed (some tid) = omega (arith, transaction_abort-count a tid s.transactions)

  commit_result-Handed :
      (o : Outcome (Ret × (Manager Frame × Server)))
      → Returns (λ x. IsUncalled x.1.0 × (x.1.1 ≡ s)) o
      → Returns (λ x. count_transactions a x.1.0 ≤ count_transactions a s.transactions) o
      → Handed a (count_server a s) n (commit_result o)
  unfolding commit_result
  commit_result-Handed (returned (r, (m, s'))) h k =
      subst (λ t. count_server a (record t { transactions = m }) ≤ count_server a s) (sym h.1)
        (omega arith)
  commit_result-Handed Outcome.corrupted h k = tt
  commit_result-Handed Outcome.deadlocked h k = tt
  commit_result-Handed Outcome.running h k = tt

  commit_tid-Handed :
      (fuel : ℕ) (o : Option Bytes)
      → IsUncalled s.transactions
      → Handed a (count_server a s) n (commit_tid fuel ctx f s o)
  unfolding commit_tid send_error
  commit_tid-Handed fuel none h = omega arith
  commit_tid-Handed fuel (some tid) h =
      commit_result-Handed (transaction_commit (callback_of ctx) fuel tid s.transactions s)
        (transaction_commit-Commits (callback_of ctx) (callback_of-none ctx) s fuel tid
          s.transactions h)
        (transaction_commit-count (callback_of ctx) s a fuel tid s.transactions)

call_handler-Handed :
    (a : ℕ) (k : Handler) (fuel : ℕ) (ctx : Context) (f : Frame) (s : Server)
    → IsUncalled s.transactions
    → Handed a (count_server a s) (is_at a f.addr) (call_handler k fuel ctx f s)
unfolding call_handler handler_stomp_send handler_stomp_subscribe handler_stomp_connect
    handler_stomp_disconnect handler_stomp_unsubscribe handler_stomp_ack handler_stomp_nack
    handler_stomp_begin handler_stomp_commit handler_stomp_abort
call_handler-Handed a Handler.send fuel ctx f s h = send_from-Handed a ctx f s f.cinfo
call_handler-Handed a Handler.connect fuel ctx f s h =
    connect_from-Handed a (is_at a f.addr) ctx f s f.cinfo
call_handler-Handed a Handler.subscribe fuel ctx f s h =
    asserting-Handed a (is_at a f.addr) ctx f s f.cinfo _ (
      with_attrs-Handed a (is_at a f.addr) ctx f s
        (iterate_header f.attrs subscribe_handlers (record { destination = none; id = none }))
        (λ d g. subscribe_to ctx g s d.destination d.id)
        (λ d lines.
          subscribe_to-Handed a (is_at a f.addr) ctx (record f { attrs = lines }) s d.destination
            d.id))
call_handler-Handed a Handler.disconnect fuel ctx f s h =
    with_attrs-Handed a (is_at a f.addr) ctx f s (iterate_header f.attrs disconnect_handlers none)
      (λ d g. handled none (receipt g d s))
      (λ d lines. receipt-count a (is_at a f.addr) ctx (record f { attrs = lines }) s d)
call_handler-Handed a Handler.unsubscribe fuel ctx f s h =
    asserting-Handed a (is_at a f.addr) ctx f s f.cinfo _ (
      with_attrs-Handed a (is_at a f.addr) ctx f s (iterate_header f.attrs id_handlers none)
        (λ d g. handled none (unsubscribe_id d s))
        (λ d lines. unsubscribe_id-count a (is_at a f.addr) ctx f s d))
call_handler-Handed a Handler.begin fuel ctx f s h =
    with_attrs-Handed a (is_at a f.addr) ctx f s (iterate_header f.attrs tid_handlers none)
      (λ d g. begin_tid ctx g s d)
      (λ d lines. begin_tid-Handed a (is_at a f.addr) ctx (record f { attrs = lines }) s d)
call_handler-Handed a Handler.commit fuel ctx f s h =
    with_attrs-Handed a (is_at a f.addr) ctx f s (iterate_header f.attrs tid_handlers none)
      (λ d g. commit_tid fuel ctx g s d)
      (λ d lines. commit_tid-Handed a (is_at a f.addr) ctx (record f { attrs = lines }) s fuel d h)
call_handler-Handed a Handler.abort fuel ctx f s h =
    with_attrs-Handed a (is_at a f.addr) ctx f s (iterate_header f.attrs tid_handlers none)
      (λ d g. abort_tid ctx g s d)
      (λ d lines. abort_tid-Handed a (is_at a f.addr) ctx (record f { attrs = lines }) s d)
call_handler-Handed a Handler.ack fuel ctx f s h =
    asserting-Handed a (is_at a f.addr) ctx f s f.cinfo _ (
      with_attrs-Handed a (is_at a f.addr) ctx f s (iterate_header f.attrs id_handlers none)
        (λ d g. handled none s) (λ d lines. omega arith))
call_handler-Handed a Handler.nack fuel ctx f s h =
    asserting-Handed a (is_at a f.addr) ctx f s f.cinfo _ (
      with_attrs-Handed a (is_at a f.addr) ctx f s (iterate_header f.attrs id_handlers none)
        (λ d g. handled none s) (λ d lines. omega arith))

released-Counted :
    (a k : ℕ) (f : Frame) (r : Result)
    → Handed a k (is_at a f.addr) r
    → Counted a (k + is_at a f.addr) (released f r)
unfolding released
released-Counted a k f (handled none s) h = omega arith
released-Counted a k f (handled (some g) s) h = h
released-Counted a k f aborted h = tt
released-Counted a k f corrupted h = tt
released-Counted a k f running h = tt

handle_found-Counted :
    (a fuel : ℕ) (ctx : Context) (f : Frame) (s : Server) (o : Option Handler)
    → IsUncalled s.transactions
    → Counted a (count_server a s + is_at a f.addr) (handle_found fuel ctx f s o)
unfolding handle_found send_error
handle_found-Counted a fuel ctx f s none h = omega arith
handle_found-Counted a fuel ctx f s (some k) h =
    released-Counted a (count_server a s) f _ (call_handler-Handed a k fuel ctx f s h)

-- The frame is in one place more at most, and no other frame is in more places than before.
pub handle_frame-Counted :
    (a fuel : ℕ) (ctx : Context) (f : Frame) (s : Server)
    → IsUncalled s.transactions
    → Counted a (count_server a s + is_at a f.addr) (handle_frame fuel ctx f s)
unfolding handle_frame
handle_frame-Counted a fuel ctx f s h =
    handle_found-Counted a fuel ctx f s (find_handler f.name stomp_handlers) h
