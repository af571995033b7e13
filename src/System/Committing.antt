-- ===== src/System/Committing.antt =====
-- COMMIT in a state that the threads can reach.
mod Tests
use newtmq_server.Base.{
  ℕ, ◌<◌, ◌≡◌, refl, ap, ◌∙◌, subst, sym, All, List, [], ◌∷◌, none, some, Bytes, codes,
}
use newtmq_server.Base.Text.{strncmp_eq, strlen}
use newtmq_server.Base.Last.{All-find_last, Found}
use newtmq_server.Frame.{Frame}
use newtmq_server.Receive.{take_frame}
use newtmq_server.Transaction.{
  Transaction, matches, get_transaction, transaction_commit, commit_found, committed, running,
}
use newtmq_server.Transaction.Commit.{commit_loop-none}
use newtmq_server.Protocol.{Server, Context, Result, with_attrs}
use newtmq_server.Protocol.Tid.{handler_stomp_commit, commit_tid, commit_result, callback_of}
use newtmq_server.Protocol.Dispatch.{
  stomp_handlers, find_handler, call_handler, handle_frame, handle_found, released,
}
use newtmq_server.Protocol.Transactional.{IsBoundary, iterate_header-tid}
use newtmq_server.System.{System, Reachable, management_turn, manage, managed_by}
use newtmq_server.System.Soundness.{Reachable-IsSound}
use newtmq_server.System.Handling.{callback_of-none}
use newtmq_server.System.Handling.Transactions.{NoCallback, IsUncalled}

-- No fuel is enough for a transaction whose next frame has no callback.
transaction_commit-uncalled :
    (ctx : Context) (fuel : ℕ) (tid : Bytes) (s : Server) (t : Transaction Frame) (f : Frame)
    (fs : List Frame)
    → IsUncalled s.transactions
    → get_transaction tid s.transactions ≡ some t
    → t.frames ≡ f ∷ fs
    → transaction_commit (callback_of ctx) fuel tid s.transactions s ≡ running
unfolding transaction_commit commit_found get_transaction
transaction_commit-uncalled ctx fuel tid s t f fs u e k =
    let held : All NoCallback t.frames =
      subst (Found (λ x. All NoCallback x.frames)) e
        (All-find_last (λ x. All NoCallback x.frames) (matches tid) s.transactions u) in
    let silent : callback_of ctx f ≡ none =
      callback_of-none ctx f (subst (All NoCallback) k held).0 in
    ap (commit_found (callback_of ctx) fuel tid s.transactions s) e
    ∙ rw (k, commit_loop-none (callback_of ctx) fuel f fs s silent) refl

handle_frame-uncalled :
    (ctx : Context) (fuel : ℕ) (c : Frame) (tid : Bytes) (s : Server) (t : Transaction Frame)
    (f : Frame) (fs : List Frame)
    → IsUncalled s.transactions
    → IsBoundary (codes "COMMIT") c tid
    → 0 < strlen tid
    → get_transaction tid s.transactions ≡ some t
    → t.frames ≡ f ∷ fs
    → handle_frame fuel ctx c s ≡ Result.running
unfolding handle_frame find_handler strncmp_eq strlen call_handler handler_stomp_commit with_attrs
    commit_tid handle_found
handle_frame-uncalled ctx fuel c tid s t f fs u h p e k =
    ap (λ n. handle_found fuel ctx c s (find_handler n stomp_handlers)) h.named
    ∙ ap (λ i. released c (with_attrs ctx c s i (λ d g. commit_tid fuel ctx g s d)))
        (iterate_header-tid c (codes "COMMIT") tid h p)
    ∙ ap (λ o. released c (commit_result o))
        (transaction_commit-uncalled ctx fuel tid s t f fs u e k)

-- In every state that the threads can reach in which the next frame of the bucket is a COMMIT of an open
-- transaction that holds at least one frame: no fuel is enough for the handler, and the turn of the
-- management worker does not end, so that no later frame of any client is handled.
pub Reachable-commit_running :
    {ctx : Context} {s : System} (fuel : ℕ) (c f : Frame) (rest fs : List Frame) (tid : Bytes)
    (t : Transaction Frame)
    → Reachable ctx s
    → s.bucket ≡ c ∷ rest
    → IsBoundary (codes "COMMIT") c tid
    → 0 < strlen tid
    → get_transaction tid s.server.transactions ≡ some t
    → t.frames ≡ f ∷ fs
    → (handle_frame fuel ctx c s.server ≡ Result.running) × (management_turn fuel ctx s ≡ none)
unfolding management_turn manage managed_by take_frame
Reachable-commit_running {ctx} {s} fuel c f rest fs tid t r b h p e k =
    let stays =
      handle_frame-uncalled ctx fuel c tid s.server t f fs (Reachable-IsSound r).orderly.2 h p e
        k in
    (
      stays,
      ap (λ fs'. manage fuel ctx s (take_frame fs').0 (take_frame fs').1) b
          ∙ ap (managed_by s rest) stays,
    )
