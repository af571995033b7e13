-- ===== src/Transaction/Tests.antt =====
-- Runs of the transactions.
use newtmq_server.Base.{
  ℕ, ◌==◌, if◌then◌else◌, List, [], ◌∷◌, ◌++◌, codes, Option, some, ◌≡◌, refl, arith,
}
use newtmq_server.Base.Text.{strlen}
use newtmq_server.Base.Last.{find_last}
use newtmq_server.Common.{Ret, success, error}
use newtmq_server.Transaction.{
  Manager, get_transaction, returned, transaction_start, transaction_abort, transaction_commit,
}
use newtmq_server.Transaction.Lifecycle.{
  adds, opened, transaction_abort-adds, transaction_abort-prefix,
}
use newtmq_server.Transaction.Commit.{transaction_commit-adds, transaction_commit-failure}

-- Frames are numbers; the callback of a frame adds it to a log, and 9 fails.
abbrev log_frame : ℕ → List ℕ → List ℕ
log_frame f log = log ++ f ∷ []

abbrev callback : ℕ → Option (List ℕ → Ret × List ℕ)
callback f = some (λ log. (if f == 9 then error else success, log_frame f log))

transaction_abort-prefix_example :
    (transaction_start {A = ℕ} [] (codes "t1") (opened [] (codes "t1" ++ codes "0") (1 ∷ []) ∷ [])
      ≡ returned (error, opened [] (codes "t1" ++ codes "0") (1 ∷ []) ∷ []))
    × (transaction_abort {A = ℕ} (codes "t1") (opened [] (codes "t1" ++ codes "0") (1 ∷ []) ∷ [])
        ≡ (success, []))
transaction_abort-prefix_example =
    transaction_abort-prefix [] [] (codes "t1") (codes "0") (1 ∷ []) [] (ground arith)
      (ground arith)

transaction_commit-adds_example :
    transaction_commit callback 3
      (codes "t1")
      (adds (codes "t1") (1 ∷ 2 ∷ []) ([] ++ opened [] (codes "t1") [] ∷ []))
      []
    ≡ returned (success, ([], 2 ∷ 1 ∷ []))
transaction_commit-adds_example =
    transaction_commit-adds callback log_frame 3 [] (codes "t1") (1 ∷ 2 ∷ []) [] [] (omega arith)
      (refl, (refl, tt))

transaction_commit-failure_example :
    transaction_commit callback 3
      (codes "t1")
      (adds (codes "t1") (1 ∷ 9 ∷ 2 ∷ []) ([] ++ opened [] (codes "t1") [] ∷ []))
      []
    ≡ returned (success, ([], 2 ∷ 9 ∷ []))
transaction_commit-failure_example =
    transaction_commit-failure callback log_frame 3 [] (codes "t1") (1 ∷ []) (2 ∷ []) 9 [] []
      (omega arith) (refl, tt) refl

transaction_abort-adds_example :
    (m' : Manager ℕ) × (transaction_start [] (codes "t1") [] ≡ returned (success, m'))
    × (transaction_start [] (codes "t1") m' ≡ returned (error, m'))
    × (transaction_abort (codes "t1") (adds (codes "t1") (1 ∷ 2 ∷ []) m') ≡ (success, []))
unfolding strlen get_transaction find_last
transaction_abort-adds_example =
    transaction_abort-adds [] [] (codes "t1") (1 ∷ 2 ∷ []) [] refl (omega arith)
