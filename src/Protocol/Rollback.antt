-- ===== src/Protocol/Rollback.antt =====
-- A transaction of a client, from BEGIN over its SEND frames to ABORT.
mod Tests
use newtmq_server.Base.{
  ℕ, List, [], ◌∷◌, ◌++◌, Bytes, Option, none, some, codes, map, reverse, append-nil, All, ◌≡◌,
  refl, ap, ◌∙◌, ◌≤◌, ◌<◌,
}
use newtmq_server.Base.Text.{strncmp_eq, strlen}
use newtmq_server.Frame.{Frame}
use newtmq_server.Transaction.{get_transaction, tid_size, transaction_abort}
use newtmq_server.Transaction.Lifecycle.{opened, adds, adds-opened, transaction_abort-opened}
use newtmq_server.Protocol.{Server, Context, Result, handled, with_attrs}
use newtmq_server.Protocol.Tid.{handler_stomp_abort, abort_tid}
use newtmq_server.Protocol.Dispatch.{
  stomp_handlers, find_handler, call_handler, handle_frame, handle_found, released,
}
use newtmq_server.Protocol.Transactional.{
  IsTransactional, IsBoundary, with_queue, with_transactions, begun, iterate_header-tid,
  handle_frame-begin, handle_frame-transaction,
}

abbrev pub resume : (Server → Option Server) → Result → Option Server
resume next (handled kept s) = next s
resume next result = none

-- the frames handled one after the other; `none` if a call does not return
abbrev pub handle_all : ℕ → Context → List Frame → Server → Option Server
handle_all fuel ctx [] s = some s
handle_all fuel ctx (f ∷ fs) s = resume (handle_all fuel ctx fs) (handle_frame fuel ctx f s)

-- a frame with the name of its queue
abbrev pub Posted : Type 0
Posted = Bytes × Frame

abbrev pub frame_of : Posted → Frame
frame_of p = p.1

abbrev pub queued : Posted → Frame
queued p = with_queue p.0 p.1

abbrev pub IsPosted : Bytes → ℕ → Posted → Type 0
IsPosted tid conn p = IsTransactional p.1 p.0 tid conn

handle_all-sends :
    (fuel : ℕ) (ctx : Context) (tid : Bytes) (conn : ℕ) (ps : List Posted) (rest : List Frame)
    (s : Server)
    → All (IsPosted tid conn) ps
    → handle_all fuel ctx (map frame_of ps ++ rest) s
      ≡ handle_all fuel ctx rest (with_transactions (adds tid (map queued ps) s.transactions) s)
unfolding adds
handle_all-sends fuel ctx tid conn [] rest s h = refl
handle_all-sends fuel ctx tid conn (p ∷ ps) rest s h =
    ap (resume (handle_all fuel ctx (map frame_of ps ++ rest)))
      (handle_frame-transaction fuel ctx p.1 s p.0 tid conn h.0)
    ∙ handle_all-sends fuel ctx tid conn ps rest _ h.1

handle_frame-abort :
    (fuel : ℕ) (ctx : Context) (a : Frame) (s : Server) (tid : Bytes)
    → IsBoundary (codes "ABORT") a tid
    → 0 < strlen tid
    → handle_frame fuel ctx a s
      ≡ handled none (record s {
        transactions = (transaction_abort tid s.transactions).1;
        freed = a.addr ∷ s.freed;
      })
unfolding handle_frame find_handler strncmp_eq strlen call_handler handler_stomp_abort with_attrs
    abort_tid handle_found released
handle_frame-abort fuel ctx a s tid h p =
    ap (λ n. handle_found fuel ctx a s (find_handler n stomp_handlers)) h.named
    ∙ ap (λ i. released a (with_attrs ctx a s i (λ d f. abort_tid ctx f s d)))
        (iterate_header-tid a (codes "ABORT") tid h p)

-- the server with the transaction open that holds the frames, newest first
abbrev pub collected : Context → Frame → Bytes → List Posted → Server → Server
collected ctx b tid ps s = record s {
  transactions = s.transactions ++ opened ctx.junk tid (reverse (map queued ps)) ∷ [];
  freed = b.addr ∷ s.freed;
}

handle_all-collected :
    (fuel : ℕ) (ctx : Context) (b : Frame) (tid : Bytes) (conn : ℕ) (ps : List Posted)
    (rest : List Frame) (s : Server)
    → IsBoundary (codes "BEGIN") b tid
    → All (IsPosted tid conn) ps
    → 0 < strlen tid
    → strlen tid ≤ tid_size
    → get_transaction tid s.transactions ≡ none
    → handle_all fuel ctx (b ∷ map frame_of ps ++ rest) s
      ≡ handle_all fuel ctx rest (collected ctx b tid ps s)
handle_all-collected fuel ctx b tid conn ps rest s hb hp p short new =
    ap (resume (handle_all fuel ctx (map frame_of ps ++ rest)))
      (handle_frame-begin fuel ctx b s tid hb p new short)
    ∙ handle_all-sends fuel ctx tid conn ps rest (begun ctx b tid s) hp
    ∙ ap (λ m. handle_all fuel ctx rest (with_transactions m (begun ctx b tid s)))
        (adds-opened ctx.junk tid (map queued ps) [] s.transactions)
    ∙ ap
        (λ fs.
          handle_all fuel ctx rest
            (with_transactions (s.transactions ++ opened ctx.junk tid fs ∷ []) (begun ctx b tid s)))
        (append-nil (reverse (map queued ps)))

-- A client opens a transaction under an identifier of 1 to 512 bytes with which no open transaction
-- begins, and sends any number of SEND frames in it, to any queues, from one connection; besides the
-- transaction and, for SEND, the destination, each frame may have header lines that its handler does not
-- read. The transaction holds them all,
-- the newest first, and besides that only BEGIN is freed; nothing is queued, persisted or sent. If
-- ABORT comes next, all is as it was before, but that BEGIN and ABORT are freed: no SEND frame is.
pub handle_all-rollback :
    (fuel : ℕ) (ctx : Context) (b a : Frame) (tid : Bytes) (conn : ℕ) (ps : List Posted)
    (s : Server)
    → IsBoundary (codes "BEGIN") b tid
    → All (IsPosted tid conn) ps
    → IsBoundary (codes "ABORT") a tid
    → 0 < strlen tid
    → strlen tid ≤ tid_size
    → get_transaction tid s.transactions ≡ none
    → (handle_all fuel ctx (b ∷ map frame_of ps ++ []) s ≡ some (collected ctx b tid ps s))
      × (handle_all fuel ctx (b ∷ map frame_of ps ++ a ∷ []) s
          ≡ some (record s { freed = a.addr ∷ b.addr ∷ s.freed }))
handle_all-rollback fuel ctx b a tid conn ps s hb hp ha p short new = (
  handle_all-collected fuel ctx b tid conn ps [] s hb hp p short new,
  handle_all-collected fuel ctx b tid conn ps (a ∷ []) s hb hp p short new
      ∙ ap (resume some) (handle_frame-abort fuel ctx a (collected ctx b tid ps s) tid ha p)
      ∙ ap (λ r. some (record s { transactions = r.1; freed = a.addr ∷ b.addr ∷ s.freed }))
          (transaction_abort-opened ctx.junk tid (reverse (map queued ps)) s.transactions),
)
