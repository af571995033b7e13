-- ===== src/Protocol/Tid.antt =====
-- lib/stomp_proto_{begin,commit,abort}.c
use newtmq_server.Base.{ℕ, List, [], ◌∷◌, Option, none, some, Bytes, codes}
use newtmq_server.Common.{Ret}
use newtmq_server.Frame.{Frame}
use newtmq_server.Management.{HeaderHandler, iterate_header}
use newtmq_server.Transaction.{
  Manager, Outcome, returned, transaction_start, transaction_abort, transaction_commit,
}
use newtmq_server.Protocol.{
  Server, Context, Result, handled, corrupted, running, send_error, with_attrs, storing_nonempty,
}

abbrev pub tid_handlers : List (HeaderHandler (Option Bytes))
tid_handlers =
    record { name = codes "transaction:"; handler = storing_nonempty (λ c d. some c) } ∷ []

unfoldable pub started : Server → Outcome (Ret × Manager Frame) → Result
started s (returned (r, m)) = handled none (record s { transactions = m })
started s Outcome.corrupted = corrupted
started s Outcome.deadlocked = running
started s Outcome.running = running

unfoldable pub begin_tid : Context → Frame → Server → Option Bytes → Result
unfolding started send_error
begin_tid ctx frame s none =
    handled none
      (send_error ctx frame.sock (codes "BEGIN frame MUST be specified transaction header") s)
begin_tid ctx frame s (some tid) = started s (transaction_start ctx.junk tid s.transactions)

unfoldable pub handler_stomp_begin : Context → Frame → Server → Result
unfolding with_attrs begin_tid storing_nonempty
handler_stomp_begin ctx frame s =
    with_attrs ctx frame s (iterate_header frame.attrs tid_handlers none)
      (λ d f. begin_tid ctx f s d)

unfoldable pub abort_tid : Context → Frame → Server → Option Bytes → Result
unfolding send_error
abort_tid ctx frame s none =
    handled none
      (send_error ctx frame.sock (codes "ABORT frame MUST be specified transaction header") s)
abort_tid ctx frame s (some tid) =
    handled none (record s { transactions = (transaction_abort tid s.transactions).1 })

unfoldable pub handler_stomp_abort : Context → Frame → Server → Result
unfolding with_attrs abort_tid storing_nonempty
handler_stomp_abort ctx frame s =
    with_attrs ctx frame s (iterate_header frame.attrs tid_handlers none)
      (λ d f. abort_tid ctx f s d)

-- the function that `frame->transaction_callback` points to
unfoldable pub callback_of : Context → Frame → Option (Server → Ret × Server)
callback_of ctx frame = elim frame.transaction_callback [
  | none ↦ none
  | some p ↦ some (ctx.callback p)
]

-- A callback changes the server but for its transactions; no file of the server has one.
unfoldable pub commit_result : Outcome (Ret × (Manager Frame × Server)) → Result
commit_result (returned (r, (m, s))) = handled none (record s { transactions = m })
commit_result Outcome.corrupted = corrupted
commit_result Outcome.deadlocked = running
commit_result Outcome.running = running

unfoldable pub commit_tid : ℕ → Context → Frame → Server → Option Bytes → Result
unfolding commit_result callback_of send_error
commit_tid fuel ctx frame s none =
    handled none
      (send_error ctx frame.sock (codes "COMMIT frame MUST be specified transaction header") s)
commit_tid fuel ctx frame s (some tid) =
    commit_result (transaction_commit (callback_of ctx) fuel tid s.transactions s)

unfoldable pub handler_stomp_commit : ℕ → Context → Frame → Server → Result
unfolding with_attrs commit_tid storing_nonempty
handler_stomp_commit fuel ctx frame s =
    with_attrs ctx frame s (iterate_header frame.attrs tid_handlers none)
      (λ d f. commit_tid fuel ctx f s d)
