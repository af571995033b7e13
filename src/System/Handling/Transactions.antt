-- ===== src/System/Handling/Transactions.antt =====
-- No frame of a transaction has a callback, so a commit runs nothing.
use newtmq_server.Base.{
  ℕ, zero, suc, ◌≡◌, List, [], ◌∷◌, Option, none, some, Bytes, All, All-append, Bool-cases, inl,
  inr, refl, ltb,
}
use newtmq_server.Base.Text.{strlen}
use newtmq_server.Base.Last.{All-update_last, All-remove_last, All-find_last, Found}
use newtmq_server.Common.{Ret}
use newtmq_server.Frame.{Frame}
use newtmq_server.Transaction.{
  Transaction, Manager, Outcome, returned, corrupted, deadlocked, running, matches, tid_size,
  transaction_start, transaction_add, transaction_abort, transaction_commit, alloc_transaction,
  get_transaction, free_transaction, commit_loop, committed, commit_found, start_unless, started,
  add_to, abort_found,
}

abbrev pub NoCallback : Frame → Type 0
NoCallback f = f.transaction_callback ≡ none

abbrev pub IsUncalled : Manager Frame → Type 0
IsUncalled m = All (λ t. All NoCallback t.frames) m

abbrev Uncalled : Transaction Frame → Type 0
Uncalled t = All NoCallback t.frames

abbrev pub Returns {ℓ κ} : {A : Type ℓ} → (A → Type κ) → Outcome A → Type κ
Returns P (returned a) = P a
Returns P corrupted = Unit
Returns P deadlocked = Unit
Returns P running = Unit

alloc_transaction-IsUncalled :
    (junk tid : Bytes) (m : Manager Frame)
    → IsUncalled m
    → Returns IsUncalled (alloc_transaction junk tid m)
unfolding alloc_transaction
alloc_transaction-IsUncalled junk tid m h = elim (Bool-cases (ltb tid_size (strlen tid))) [
  | inl e ↦ rw e tt
  | inr e ↦ rw e (All-append Uncalled m _ h (tt, tt))
]

started-IsUncalled :
    (o : Outcome (Manager Frame)) → Returns IsUncalled o → Returns (λ x. IsUncalled x.1) (started o)
unfolding started
started-IsUncalled (returned m) h = h
started-IsUncalled corrupted h = tt
started-IsUncalled deadlocked h = tt
started-IsUncalled running h = tt

start_unless-IsUncalled :
    (junk tid : Bytes) (m : Manager Frame) (o : Option (Transaction Frame))
    → IsUncalled m
    → Returns (λ x. IsUncalled x.1) (start_unless junk tid m o)
unfolding start_unless
start_unless-IsUncalled junk tid m none h =
    started-IsUncalled (alloc_transaction junk tid m) (alloc_transaction-IsUncalled junk tid m h)
start_unless-IsUncalled junk tid m (some t) h = h

pub transaction_start-IsUncalled :
    (junk tid : Bytes) (m : Manager Frame)
    → IsUncalled m
    → Returns (λ x. IsUncalled x.1) (transaction_start junk tid m)
unfolding transaction_start
transaction_start-IsUncalled junk tid m h =
    start_unless-IsUncalled junk tid m (get_transaction tid m) h

add_to-IsUncalled :
    (tid : Bytes) (f : Frame) (m : Manager Frame) (o : Option (Transaction Frame))
    → NoCallback f
    → IsUncalled m
    → IsUncalled (add_to tid f m o).1
unfolding add_to
add_to-IsUncalled tid f m none n h = h
add_to-IsUncalled tid f m (some t) n h =
    All-update_last Uncalled (matches tid) _ m (λ u k. (n, k)) h

pub transaction_add-IsUncalled :
    (tid : Bytes) (f : Frame) (m : Manager Frame)
    → NoCallback f
    → IsUncalled m
    → IsUncalled (transaction_add tid f m).1
unfolding transaction_add
transaction_add-IsUncalled tid f m n h = add_to-IsUncalled tid f m (get_transaction tid m) n h

pub free_transaction-IsUncalled :
    (tid : Bytes) (m : Manager Frame) → IsUncalled m → IsUncalled (free_transaction tid m)
unfolding free_transaction
free_transaction-IsUncalled tid m h = All-remove_last Uncalled (matches tid) m h

abort_found-IsUncalled :
    (tid : Bytes) (m : Manager Frame) (o : Option (Transaction Frame))
    → IsUncalled m
    → IsUncalled (abort_found tid m o).1
unfolding abort_found
abort_found-IsUncalled tid m none h = h
abort_found-IsUncalled tid m (some t) h = free_transaction-IsUncalled tid m h

pub transaction_abort-IsUncalled :
    (tid : Bytes) (m : Manager Frame) → IsUncalled m → IsUncalled (transaction_abort tid m).1
unfolding transaction_abort
transaction_abort-IsUncalled tid m h = abort_found-IsUncalled tid m (get_transaction tid m) h

module _ {ℓ} {W : Type ℓ} (callback : Frame → Option (W → Ret × W))
    (silent : (f : Frame) → NoCallback f → callback f ≡ none) (w : W) where
  commit_loop-uncalled :
      (fuel : ℕ) (fs : List Frame)
      → All NoCallback fs
      → Returns (λ w'. w' ≡ w) (commit_loop callback fuel fs w)
  unfolding commit_loop
  commit_loop-uncalled zero fs h = tt
  commit_loop-uncalled (suc fuel) [] h = refl
  commit_loop-uncalled (suc fuel) (f ∷ fs) h =
      rw (silent f h.0, Returns, commit_loop) (commit_loop-uncalled fuel (f ∷ fs) h)

  -- the transactions, and the rest as it was
  abbrev pub Commits : Ret × (Manager Frame × W) → Type ℓ
  Commits x = IsUncalled x.1.0 × (x.1.1 ≡ w)

  committed-Commits :
      (tid : Bytes) (m : Manager Frame) (o : Outcome W)
      → IsUncalled m
      → Returns (λ w'. w' ≡ w) o
      → Returns Commits (committed callback tid m o)
  committed-Commits tid m (returned w') h e = (free_transaction-IsUncalled tid m h, e)
  committed-Commits tid m corrupted h e = tt
  committed-Commits tid m deadlocked h e = tt
  committed-Commits tid m running h e = tt

  commit_found-Commits :
      (fuel : ℕ) (tid : Bytes) (m : Manager Frame) (o : Option (Transaction Frame))
      → IsUncalled m
      → Found Uncalled o
      → Returns Commits (commit_found callback fuel tid m w o)
  unfolding commit_found
  commit_found-Commits fuel tid m none h k = (h, refl)
  commit_found-Commits fuel tid m (some t) h k =
      committed-Commits tid m (commit_loop callback fuel t.frames w) h
        (commit_loop-uncalled fuel t.frames k)

  pub transaction_commit-Commits :
      (fuel : ℕ) (tid : Bytes) (m : Manager Frame)
      → IsUncalled m
      → Returns Commits (transaction_commit callback fuel tid m w)
  unfolding transaction_commit get_transaction
  transaction_commit-Commits fuel tid m h =
      commit_found-Commits fuel tid m (get_transaction tid m) h
        (All-find_last Uncalled (matches tid) m h)
