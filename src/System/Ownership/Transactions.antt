-- ===== src/System/Ownership/Transactions.antt =====
-- A frame that is added to a transaction stands there once, and no other call adds one.
use newtmq_server.Base.{
  ℕ, ◌+◌, ◌≤◌, [], ◌∷◌, Option, none, some, Bytes, Bool, arith, Bool-cases, inl, inr, ltb,
}
use newtmq_server.Base.Text.{strlen}
use newtmq_server.Base.Last.{any, update_last, remove_last}
use newtmq_server.Common.{Ret}
use newtmq_server.Frame.{Frame}
use newtmq_server.Transaction.{
  Transaction, Manager, Outcome, returned, corrupted, deadlocked, running, matches, tid_size,
  transaction_start, transaction_add, transaction_abort, transaction_commit, alloc_transaction,
  get_transaction, free_transaction, committed, commit_found, commit_loop, start_unless, started,
  add_to, add_frame, abort_found,
}
use newtmq_server.System.Handling.Transactions.{Returns}
use newtmq_server.System.Ownership.Counts.{is_at, count_transactions, count_transactions-append}

update_last-count :
    (a : ℕ) (p : Transaction Frame → Bool) (f : Frame) (m : Manager Frame)
    → count_transactions a (update_last p (add_frame f) m) ≤ count_transactions a m + is_at a f.addr
unfolding update_last
update_last-count a p f [] = omega arith
update_last-count a p f (t ∷ m) = elim (Bool-cases (any p m)) [
  | inl e ↦ rw e (omega (arith, update_last-count a p f m))
  | inr e ↦ elim (Bool-cases (p t)) [
    | inl e' ↦ rw (e, e') (omega arith)
    | inr e' ↦ rw (e, e') (omega arith)
  ]
]

remove_last-count :
    (a : ℕ) (p : Transaction Frame → Bool) (m : Manager Frame)
    → count_transactions a (remove_last p m) ≤ count_transactions a m
unfolding remove_last
remove_last-count a p [] = omega arith
remove_last-count a p (t ∷ m) = elim (Bool-cases (any p m)) [
  | inl e ↦ rw e (omega (arith, remove_last-count a p m))
  | inr e ↦ elim (Bool-cases (p t)) [
    | inl e' ↦ rw (e, e') (omega arith)
    | inr e' ↦ rw (e, e') (omega arith)
  ]
]

add_to-count :
    (a : ℕ) (tid : Bytes) (f : Frame) (m : Manager Frame) (o : Option (Transaction Frame))
    → count_transactions a (add_to tid f m o).1 ≤ count_transactions a m + is_at a f.addr
unfolding add_to
add_to-count a tid f m none = omega arith
add_to-count a tid f m (some t) = update_last-count a (matches tid) f m

pub transaction_add-count :
    (a : ℕ) (tid : Bytes) (f : Frame) (m : Manager Frame)
    → count_transactions a (transaction_add tid f m).1 ≤ count_transactions a m + is_at a f.addr
unfolding transaction_add
transaction_add-count a tid f m = add_to-count a tid f m (get_transaction tid m)

free_transaction-count :
    (a : ℕ) (tid : Bytes) (m : Manager Frame)
    → count_transactions a (free_transaction tid m) ≤ count_transactions a m
unfolding free_transaction
free_transaction-count a tid m = remove_last-count a (matches tid) m

abort_found-count :
    (a : ℕ) (tid : Bytes) (m : Manager Frame) (o : Option (Transaction Frame))
    → count_transactions a (abort_found tid m o).1 ≤ count_transactions a m
unfolding abort_found
abort_found-count a tid m none = omega arith
abort_found-count a tid m (some t) = free_transaction-count a tid m

pub transaction_abort-count :
    (a : ℕ) (tid : Bytes) (m : Manager Frame)
    → count_transactions a (transaction_abort tid m).1 ≤ count_transactions a m
unfolding transaction_abort
transaction_abort-count a tid m = abort_found-count a tid m (get_transaction tid m)

alloc_transaction-count :
    (a : ℕ) (junk tid : Bytes) (m : Manager Frame)
    → Returns (λ n. count_transactions a n ≤ count_transactions a m) (alloc_transaction junk tid m)
unfolding alloc_transaction
alloc_transaction-count a junk tid m = elim (Bool-cases (ltb tid_size (strlen tid))) [
  | inl e ↦ rw e tt
  | inr e ↦ rw e (omega (arith, count_transactions-append a m _))
]

started-count :
    (a k : ℕ) (o : Outcome (Manager Frame))
    → Returns (λ n. count_transactions a n ≤ k) o
    → Returns (λ x. count_transactions a x.1 ≤ k) (started o)
unfolding started
started-count a k (returned m) h = h
started-count a k corrupted h = tt
started-count a k deadlocked h = tt
started-count a k running h = tt

start_unless-count :
    (a : ℕ) (junk tid : Bytes) (m : Manager Frame) (o : Option (Transaction Frame))
    → Returns (λ x. count_transactions a x.1 ≤ count_transactions a m) (start_unless junk tid m o)
unfolding start_unless
start_unless-count a junk tid m none =
    started-count a (count_transactions a m) (alloc_transaction junk tid m)
      (alloc_transaction-count a junk tid m)
start_unless-count a junk tid m (some t) = omega arith

pub transaction_start-count :
    (a : ℕ) (junk tid : Bytes) (m : Manager Frame)
    → Returns
        (λ x. count_transactions a x.1 ≤ count_transactions a m)
        (transaction_start junk tid m)
unfolding transaction_start
transaction_start-count a junk tid m = start_unless-count a junk tid m (get_transaction tid m)

module _ {ℓ} {W : Type ℓ} (callback : Frame → Option (W → Ret × W)) (w : W) where
  committed-count :
      (a : ℕ) (tid : Bytes) (m : Manager Frame) (o : Outcome W)
      → Returns
          (λ x. count_transactions a x.1.0 ≤ count_transactions a m)
          (committed callback tid m o)
  committed-count a tid m (returned w') = free_transaction-count a tid m
  committed-count a tid m corrupted = tt
  committed-count a tid m deadlocked = tt
  committed-count a tid m running = tt

  commit_found-count :
      (a fuel : ℕ) (tid : Bytes) (m : Manager Frame) (o : Option (Transaction Frame))
      → Returns
          (λ x. count_transactions a x.1.0 ≤ count_transactions a m)
          (commit_found callback fuel tid m w o)
  unfolding commit_found
  commit_found-count a fuel tid m none = omega arith
  commit_found-count a fuel tid m (some t) =
      committed-count a tid m (commit_loop callback fuel t.frames w)

  pub transaction_commit-count :
      (a fuel : ℕ) (tid : Bytes) (m : Manager Frame)
      → Returns
          (λ x. count_transactions a x.1.0 ≤ count_transactions a m)
          (transaction_commit callback fuel tid m w)
  unfolding transaction_commit
  transaction_commit-count a fuel tid m = commit_found-count a fuel tid m (get_transaction tid m)
