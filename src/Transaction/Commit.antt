-- ===== src/Transaction/Commit.antt =====
-- What `transaction_commit` does with the frames of a transaction.
use newtmq_server.Base.{
  ℕ, zero, suc, ◌<◌, List, [], ◌∷◌, ◌++◌, Option, none, some, Bytes, ◌≡◌, refl, ap, ◌∙◌, arith,
  length, reverse, reverse-cons, append-nil, append_assoc, reverse-append, All, All-append,
  length-append,
}
use newtmq_server.Base.Last.{remove_last-end}
use newtmq_server.Common.{Ret, success, error}
use newtmq_server.Transaction.{
  Manager, matches, returned, running, commit_loop, transaction_commit, free_transaction,
}
use newtmq_server.Transaction.Lifecycle.{
  opened, adds, adds-opened, get_transaction-opened, matches-opened,
}

module _ {ℓ κ} {A : Type ℓ} {W : Type κ} (callback : A → Option (W → Ret × W)) where
  transaction_commit-opened :
      (fuel : ℕ) (junk tid : Bytes) (fs : List A) (m : Manager A) (w w' : W)
      → commit_loop callback fuel fs w ≡ returned w'
      → transaction_commit callback fuel tid (m ++ opened junk tid fs ∷ []) w
        ≡ returned (success, (m, w'))
  unfolding transaction_commit free_transaction
  transaction_commit-opened fuel junk tid fs m w w' e =
      rw (get_transaction-opened junk tid fs m, e)
        (ap (λ x. returned (success, (x, w')))
          (remove_last-end (matches tid) (opened junk tid fs) (matches-opened junk tid fs) m))

  transaction_commit-running :
      (fuel : ℕ) (junk tid : Bytes) (fs : List A) (m : Manager A) (w : W)
      → commit_loop callback fuel fs w ≡ running
      → transaction_commit callback fuel tid (m ++ opened junk tid fs ∷ []) w ≡ running
  unfolding transaction_commit
  transaction_commit-running fuel junk tid fs m w e = rw (get_transaction-opened junk tid fs m, e)

  -- A frame with no callback is never taken off the list.
  pub commit_loop-none :
      (fuel : ℕ) (f : A) (fs : List A) (w : W)
      → callback f ≡ none
      → commit_loop callback fuel (f ∷ fs) w ≡ running
  unfolding commit_loop
  commit_loop-none zero f fs w e = refl
  commit_loop-none (suc fuel) f fs w e = rw (e, commit_loop) (commit_loop-none fuel f fs w e)

-- the effects of frames, one after the other
abbrev pub applied {ℓ κ} : {A : Type ℓ} {W : Type κ} → (A → W → W) → List A → W → W
applied step [] w = w
applied step (f ∷ fs) w = applied step fs (step f w)

module _ {ℓ κ} {A : Type ℓ} {W : Type κ} (callback : A → Option (W → Ret × W))
    (step : A → W → W) where
  -- the callback of the frame succeeds, with the effect `step`
  abbrev pub Succeeds : A → Type κ
  Succeeds f = callback f ≡ some (λ w. (success, step f w))

  commit_loop-applied :
      (fuel : ℕ) (fs : List A) (w : W)
      → length fs < fuel
      → All Succeeds fs
      → commit_loop callback fuel fs w ≡ returned (applied step fs w)
  unfolding commit_loop
  commit_loop-applied zero fs w h k = absurd (omega arith)
  commit_loop-applied (suc fuel) [] w h k = refl
  commit_loop-applied (suc fuel) (f ∷ fs) w h k =
      rw (k.0, commit_loop) (commit_loop-applied fuel fs (step f w) (omega arith) k.1)

  commit_loop-stuck :
      (fuel : ℕ) (fs later : List A) (f : A) (w : W)
      → All Succeeds fs
      → callback f ≡ none
      → commit_loop callback fuel (fs ++ f ∷ later) w ≡ running
  unfolding commit_loop
  commit_loop-stuck fuel [] later f w k n = commit_loop-none callback fuel f later w n
  commit_loop-stuck zero (g ∷ fs) later f w k n = refl
  commit_loop-stuck (suc fuel) (g ∷ fs) later f w k n =
      rw (k.0, commit_loop) (commit_loop-stuck fuel fs later f (step g w) k.1 n)

  commit_loop-failure :
      (fuel : ℕ) (fs later : List A) (f : A) (w : W)
      → length fs < fuel
      → All Succeeds fs
      → callback f ≡ some (λ w. (error, step f w))
      → commit_loop callback fuel (fs ++ f ∷ later) w ≡ returned (step f (applied step fs w))
  unfolding commit_loop
  commit_loop-failure zero fs later f w h k n = absurd (omega arith)
  commit_loop-failure (suc fuel) [] later f w h k n = rw (n, commit_loop)
  commit_loop-failure (suc fuel) (g ∷ fs) later f w h k n =
      rw (k.0, commit_loop) (commit_loop-failure fuel fs later f (step g w) (omega arith) k.1 n)

  All-reverse : (fs : List A) → All Succeeds fs → All Succeeds (reverse fs)
  All-reverse [] h = tt
  All-reverse (f ∷ fs) h =
      rw (reverse-cons f fs)
        (All-append Succeeds (reverse fs) (f ∷ []) (All-reverse fs h.1) (h.0, tt))

  length-reverse : (fs : List A) → length (reverse fs) ≡ length fs
  length-reverse [] = refl
  length-reverse (f ∷ fs) =
      omega (
        arith,
        ap length (reverse-cons f fs),
        length-append (reverse fs) (f ∷ []),
        length-reverse fs,
      )

  reverse-middle :
      (before later : List A) (f : A)
      → reverse (before ++ f ∷ later) ≡ reverse later ++ f ∷ reverse before
  reverse-middle before later f =
      reverse-append before (f ∷ later)
      ∙ ap (λ xs. xs ++ reverse before) (reverse-cons f later)
      ∙ append_assoc (reverse later) (f ∷ []) (reverse before)

  added :
      (junk tid : Bytes) (fs : List A) (m : Manager A)
      → adds tid fs (m ++ opened junk tid [] ∷ []) ≡ m ++ opened junk tid (reverse fs) ∷ []
  added junk tid fs m =
      adds-opened junk tid fs [] m
      ∙ ap (λ xs. m ++ opened junk tid xs ∷ []) (append-nil (reverse fs))

  -- If all the callbacks succeed, `transaction_commit`, with more fuel than frames, runs each of
  -- them once, the frame that was added last first, and closes the transaction.
  pub transaction_commit-adds :
      (fuel : ℕ) (junk tid : Bytes) (fs : List A) (m : Manager A) (w : W)
      → length fs < fuel
      → All Succeeds fs
      → transaction_commit callback fuel tid (adds tid fs (m ++ opened junk tid [] ∷ [])) w
        ≡ returned (success, (m, applied step (reverse fs) w))
  transaction_commit-adds fuel junk tid fs m w h k = rw (added junk tid fs m) (
      transaction_commit-opened callback fuel junk tid (reverse fs) m w _ (
        commit_loop-applied fuel (reverse fs) w (omega (arith, length-reverse fs))
          (All-reverse fs k)))

  -- A callback that fails is reported as success: the frames that were added before that frame
  -- are dropped with the transaction and their callbacks do not run.
  pub transaction_commit-failure :
      (fuel : ℕ) (junk tid : Bytes) (before later : List A) (f : A) (m : Manager A) (w : W)
      → length later < fuel
      → All Succeeds later
      → callback f ≡ some (λ w. (error, step f w))
      → transaction_commit callback fuel tid
          (adds tid (before ++ f ∷ later) (m ++ opened junk tid [] ∷ []))
          w
        ≡ returned (success, (m, step f (applied step (reverse later) w)))
  transaction_commit-failure fuel junk tid before later f m w h k n =
      rw (added junk tid (before ++ f ∷ later) m, reverse-middle before later f)
        (transaction_commit-opened callback fuel junk tid _ m w _ (
          commit_loop-failure fuel (reverse later) (reverse before) f w
            (omega (arith, length-reverse later)) (All-reverse later k) n))

  -- With a frame that has no callback in the transaction, and success of the frames that were
  -- added after it, `transaction_commit` never returns: no fuel is enough.
  pub transaction_commit-no_callback :
      (fuel : ℕ) (junk tid : Bytes) (before later : List A) (f : A) (m : Manager A) (w : W)
      → All Succeeds later
      → callback f ≡ none
      → transaction_commit callback fuel tid
          (adds tid (before ++ f ∷ later) (m ++ opened junk tid [] ∷ []))
          w
        ≡ running
  transaction_commit-no_callback fuel junk tid before later f m w k n =
      rw (added junk tid (before ++ f ∷ later) m, reverse-middle before later f)
        (transaction_commit-running callback fuel junk tid _ m w
          (commit_loop-stuck fuel (reverse later) (reverse before) f w (All-reverse later k) n))
