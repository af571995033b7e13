-- ===== src/Protocol/Transactional.antt =====
-- BEGIN, SEND with a transaction, and COMMIT, from the frames of a client to the end of the call.
use newtmq_server.Base.{
  ℕ, ltb, List, All, subst, inl, inr, ◌⊎◌, [], ◌∷◌, ◌++◌, Bytes, codes, none, some, ◌≡◌, refl, ap,
  sym, ◌∙◌, ◌≤◌, ◌<◌, true, arith,
}
use newtmq_server.Base.Text.{strncmp_eq, strlen}
use newtmq_server.Frame.{Frame, LineData}
use newtmq_server.Frame.Steps.{line_data}
use newtmq_server.Management.{kept, iterated, iterate_header, run_handlers}
use newtmq_server.Management.Headers.{Ignored, iterate_header-one, iterate_header-then}
use newtmq_server.Transaction.{Manager, get_transaction, tid_size, transaction_add}
use newtmq_server.Transaction.Lifecycle.{opened, transaction_start-new, adds}
use newtmq_server.Transaction.Commit.{transaction_commit-no_callback}
use newtmq_server.Protocol.{
  Server, Context, handled, running, with_attrs, storing_nonempty, receipt,
}
use newtmq_server.Protocol.Send.{
  SendAttrs, send_handlers, no_send_attrs, handler_stomp_send, send_from, send_valid,
  send_destination, publish, receipted, reply_registered,
}
use newtmq_server.Protocol.Tid.{
  tid_handlers, handler_stomp_begin, handler_stomp_commit, begin_tid, commit_tid, started,
  commit_result, callback_of,
}
use newtmq_server.Protocol.Dispatch.{
  stomp_handlers, find_handler, call_handler, handle_frame, handle_found, released,
}
use newtmq_server.Protocol.Publishing.{destination_line, run_handlers-destination}

abbrev pub transaction_line : Bytes → LineData
transaction_line tid = line_data (codes "transaction:" ++ tid)

-- A SEND frame of a known connection with two header lines that SEND reads, the destination and the
-- transaction, in either order, among others.
pub record IsTransactional (f : Frame) (q tid : Bytes) (conn : ℕ) : Type 0 where
  pub before : List LineData
  pub between : List LineData
  pub after : List LineData
  pub first : LineData
  pub second : LineData
  pub named : f.name ≡ codes "SEND"
  pub connected : f.cinfo ≡ some conn
  pub lines : f.attrs ≡ before ++ first ∷ (between ++ second ∷ after)
  pub order :
      (first ≡ destination_line q) × (second ≡ transaction_line tid)
      ⊎ (first ≡ transaction_line tid) × (second ≡ destination_line q)
  pub plain_before : All (Ignored send_handlers) before
  pub plain_between : All (Ignored send_handlers) between
  pub plain_after : All (Ignored send_handlers) after

-- A frame with the name of a command and the line of a transaction, among others that BEGIN, COMMIT
-- and ABORT do not read.
pub record IsBoundary (name : Bytes) (f : Frame) (tid : Bytes) : Type 0 where
  pub before : List LineData
  pub after : List LineData
  pub named : f.name ≡ name
  pub lines : f.attrs ≡ before ++ transaction_line tid ∷ after
  pub plain_before : All (Ignored tid_handlers) before
  pub plain_after : All (Ignored tid_handlers) after

-- the frame as `transaction_add` gets it
abbrev pub with_queue : Bytes → Frame → Frame
with_queue q f = record f { transaction_data = some q }

abbrev pub with_transactions : Manager Frame → Server → Server
with_transactions m s = record s { transactions = m }

run_handlers-transaction :
    (d : SendAttrs) (tid : Bytes)
    → run_handlers send_handlers d (transaction_line tid)
      ≡ kept (record d { tid = some tid }) (transaction_line tid)
unfolding run_handlers strncmp_eq strlen
run_handlers-transaction d tid = refl

-- the walk of SEND over its two lines
iterate_header-transaction :
    (f : Frame) (q tid : Bytes) (conn : ℕ) (d : SendAttrs)
    → IsTransactional f q tid conn
    → iterate_header f.attrs send_handlers d
      ≡ iterated (record d { qname = some q; tid = some tid }) f.attrs
iterate_header-transaction f q tid conn d h =
    let found : SendAttrs = record d { qname = some q; tid = some tid } in
    let walk : (d' : SendAttrs)
        → run_handlers send_handlers d h.first ≡ kept d' h.first
        → run_handlers send_handlers d' h.second ≡ kept found h.second
        → iterate_header (h.before ++ h.first ∷ (h.between ++ h.second ∷ h.after)) send_handlers d
          ≡ iterated found (h.before ++ h.first ∷ (h.between ++ h.second ∷ h.after)) =
      λ d' one two.
        iterate_header-then send_handlers d d' found h.before _ _ h.first h.first h.plain_before one
          (iterate_header-one send_handlers d' found h.between h.after h.second h.second
            h.plain_between h.plain_after two) in
    let kept_by : (d d' : SendAttrs) (x y : LineData)
        → x ≡ y
        → run_handlers send_handlers d y ≡ kept d' y
        → run_handlers send_handlers d x ≡ kept d' x =
      λ d d' x y e k. subst (λ z. run_handlers send_handlers d z ≡ kept d' z) (sym e) k in
    ap (λ ls. iterate_header ls send_handlers d) h.lines
    ∙ elim h.order [
      | inl (e, k) ↦
          walk (record d { qname = some q })
            (kept_by d _ h.first _ e (run_handlers-destination d q))
            (kept_by _ found h.second _ k (run_handlers-transaction _ tid))
      | inr (e, k) ↦
          walk (record d { tid = some tid })
            (kept_by d _ h.first _ e (run_handlers-transaction d tid))
            (kept_by _ found h.second _ k (run_handlers-destination _ q))
    ]
    ∙ ap (iterated found) (sym h.lines)

handler_stomp_send-transaction :
    (ctx : Context) (f : Frame) (s : Server) (q tid : Bytes) (conn : ℕ)
    → IsTransactional f q tid conn
    → handler_stomp_send ctx f s
      ≡ handled
          (some (with_queue q f))
          (with_transactions (transaction_add tid (with_queue q f) s.transactions).1 s)
unfolding handler_stomp_send send_from with_attrs send_valid send_destination publish receipted
    receipt reply_registered
handler_stomp_send-transaction ctx f s q tid conn h =
    ap (send_from ctx f s) h.connected
    ∙ ap (λ i. with_attrs ctx f s i (send_valid ctx s))
        (iterate_header-transaction f q tid conn (no_send_attrs (ctx.conn_id conn)) h)

-- the walk of BEGIN, COMMIT and ABORT over their line
pub iterate_header-tid :
    (f : Frame) (name tid : Bytes)
    → IsBoundary name f tid
    → 0 < strlen tid
    → iterate_header f.attrs tid_handlers none ≡ iterated (some tid) f.attrs
unfolding run_handlers strncmp_eq strlen storing_nonempty
iterate_header-tid f name tid h p =
    let nonempty : ltb 0 (strlen tid) ≡ true = ground arith in
    ap (λ ls. iterate_header ls tid_handlers none) h.lines
    ∙ iterate_header-one tid_handlers none (some tid) h.before h.after (transaction_line tid)
        (transaction_line tid) h.plain_before h.plain_after (rw nonempty refl)
    ∙ ap (iterated (some tid)) (sym h.lines)

no_call : (ctx : Context) (f : Frame) → f.transaction_callback ≡ none → callback_of ctx f ≡ none
unfolding callback_of
no_call ctx f e = rw e refl

-- the server after BEGIN, whose frame is freed
abbrev pub begun : Context → Frame → Bytes → Server → Server
begun ctx b tid s = record s {
  transactions = s.transactions ++ opened ctx.junk tid [] ∷ [];
  freed = b.addr ∷ s.freed;
}

pub handle_frame-begin :
    (fuel : ℕ) (ctx : Context) (b : Frame) (s : Server) (tid : Bytes)
    → IsBoundary (codes "BEGIN") b tid
    → 0 < strlen tid
    → get_transaction tid s.transactions ≡ none
    → strlen tid ≤ tid_size
    → handle_frame fuel ctx b s ≡ handled none (begun ctx b tid s)
unfolding handle_frame find_handler strncmp_eq strlen call_handler handler_stomp_begin with_attrs
    begin_tid started handle_found
handle_frame-begin fuel ctx b s tid h p new short =
    ap (λ n. handle_found fuel ctx b s (find_handler n stomp_handlers)) h.named
    ∙ ap (λ i. released b (with_attrs ctx b s i (λ d f. begin_tid ctx f s d)))
        (iterate_header-tid b (codes "BEGIN") tid h p)
    ∙ ap (λ o. released b (started s o))
        (transaction_start-new ctx.junk tid s.transactions new short)

-- A SEND frame with a transaction is added to it, if it is open, and the frame is kept; no queue
-- changes and nothing is sent.
pub handle_frame-transaction :
    (fuel : ℕ) (ctx : Context) (f : Frame) (s : Server) (q tid : Bytes) (conn : ℕ)
    → IsTransactional f q tid conn
    → handle_frame fuel ctx f s
      ≡ handled
          (some (with_queue q f))
          (with_transactions (transaction_add tid (with_queue q f) s.transactions).1 s)
unfolding handle_frame find_handler strncmp_eq strlen call_handler handle_found
handle_frame-transaction fuel ctx f s q tid conn h =
    ap (λ n. handle_found fuel ctx f s (find_handler n stomp_handlers)) h.named
    ∙ ap (released f) (handler_stomp_send-transaction ctx f s q tid conn h)

-- A client begins a transaction under an identifier of 1 to 512 bytes with which no open transaction
-- begins, sends a frame with a destination in it, and commits it; each frame may have other header
-- lines that its handler does not read. BEGIN and SEND return, and then no fuel is enough for COMMIT,
-- if the frame has no callback.
pub handle_frame-commit_running :
    (fuel : ℕ) (ctx : Context) (b f c : Frame) (s : Server) (q tid : Bytes) (conn : ℕ)
    → IsBoundary (codes "BEGIN") b tid
    → IsTransactional f q tid conn
    → f.transaction_callback ≡ none
    → IsBoundary (codes "COMMIT") c tid
    → 0 < strlen tid
    → get_transaction tid s.transactions ≡ none
    → strlen tid ≤ tid_size
    → (s' : Server) × (handle_frame fuel ctx f (begun ctx b tid s)
        ≡ handled (some (with_queue q f)) s')
      × (handle_frame fuel ctx b s ≡ handled none (begun ctx b tid s))
      × (handle_frame fuel ctx c s' ≡ running)
unfolding handle_frame find_handler strncmp_eq strlen call_handler handler_stomp_commit with_attrs
    commit_tid handle_found adds
handle_frame-commit_running fuel ctx b f c s q tid conn hb hf none_set hc p new short =
    let f' = with_queue q f in
    let m = s.transactions ++ opened ctx.junk tid [] ∷ [] in
    let s' = with_transactions (transaction_add tid f' m).1 (begun ctx b tid s) in
    (
      s',
      (handle_frame-transaction fuel ctx f (begun ctx b tid s) q tid conn hf),
      handle_frame-begin fuel ctx b s tid hb p new short,
      ap (λ n. handle_found fuel ctx c s' (find_handler n stomp_handlers)) hc.named
          ∙ ap (λ i. released c (with_attrs ctx c s' i (λ d g. commit_tid fuel ctx g s' d)))
              (iterate_header-tid c (codes "COMMIT") tid hc p)
          ∙ ap (λ o. released c (commit_result o))
              (transaction_commit-no_callback (callback_of ctx) (λ g w. w) fuel ctx.junk tid [] []
                f' s.transactions s' tt (no_call ctx f' none_set)),
    )
