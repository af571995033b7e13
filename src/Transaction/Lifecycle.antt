-- ===== src/Transaction/Lifecycle.antt =====
-- Starting, filling and aborting a transaction.
use newtmq_server.Base.{
  ltb, true, false, List, [], ◌∷◌, ◌++◌, none, some, Bytes, strlen, c_string, drop, ◌≡◌, refl, ap,
  ◌∙◌, sym, arith, ◌≤◌, reverse, All, ◌≢◌, append_assoc, reverse-cons,
}
use newtmq_server.Base.Last.{find_last-end, update_last-end, remove_last-end}
use newtmq_server.Base.Text.Laws.{
  strncmp_eq-c_string, strncmp_eq-prefix, c_string-exact, strlen-exact,
}
use newtmq_server.Common.{success, error}
use newtmq_server.Transaction.{
  Transaction, Manager, matches, tid_size, returned, get_transaction, transaction_start,
  transaction_add, transaction_abort, free_transaction,
}

module _ {ℓ} {A : Type ℓ} where
  abbrev pub opened : Bytes → Bytes → List A → Transaction A
  opened junk tid frames = record { tid = c_string tid ++ drop (strlen tid) junk; frames = frames }

  pub matches-opened :
      (junk tid : Bytes) (frames : List A) → matches tid (opened junk tid frames) ≡ true
  matches-opened junk tid frames = strncmp_eq-c_string tid (drop (strlen tid) junk)

  -- frames added in order
  unfoldable pub adds : Bytes → List A → Manager A → Manager A
  adds tid [] m = m
  adds tid (f ∷ fs) m = adds tid fs (transaction_add tid f m).1

  get_transaction-end :
      (tid : Bytes) (t : Transaction A) (m : Manager A)
      → matches tid t ≡ true
      → get_transaction tid (m ++ t ∷ []) ≡ some t
  unfolding get_transaction
  get_transaction-end tid t m e = find_last-end (matches tid) t e m

  pub get_transaction-opened :
      (junk tid : Bytes) (frames : List A) (m : Manager A)
      → get_transaction tid (m ++ opened junk tid frames ∷ []) ≡ some (opened junk tid frames)
  get_transaction-opened junk tid frames m =
      get_transaction-end tid (opened junk tid frames) m (matches-opened junk tid frames)

  pub transaction_start-new :
      (junk tid : Bytes) (m : Manager A)
      → get_transaction tid m ≡ none
      → strlen tid ≤ tid_size
      → transaction_start junk tid m ≡ returned (success, m ++ opened junk tid [] ∷ [])
  unfolding transaction_start
  transaction_start-new junk tid m e h = rw (e, not_long) refl
    where
      not_long : ltb tid_size (strlen tid) ≡ false
      not_long = ground arith

  transaction_add-opened :
      (junk tid : Bytes) (f : A) (fs : List A) (m : Manager A)
      → transaction_add tid f (m ++ opened junk tid fs ∷ [])
        ≡ (success, m ++ opened junk tid (f ∷ fs) ∷ [])
  unfolding transaction_add
  transaction_add-opened junk tid f fs m = rw (get_transaction-opened junk tid fs m) (
      ap (λ x. (success, x))
        (update_last-end (matches tid) (opened junk tid fs) (matches-opened junk tid fs) _ m))

  -- A transaction holds its frames newest first.
  pub adds-opened :
      (junk tid : Bytes) (fs gs : List A) (m : Manager A)
      → adds tid fs (m ++ opened junk tid gs ∷ []) ≡ m ++ opened junk tid (reverse fs ++ gs) ∷ []
  unfolding adds
  adds-opened junk tid [] gs m = refl
  adds-opened junk tid (f ∷ fs) gs m =
      ap (λ r. adds tid fs r.1) (transaction_add-opened junk tid f gs m)
      ∙ adds-opened junk tid fs (f ∷ gs) m
      ∙ ap (λ xs. m ++ opened junk tid xs ∷ [])
          (sym (append_assoc (reverse fs) (f ∷ []) gs)
            ∙ ap (λ xs. xs ++ gs) (sym (reverse-cons f fs)))

  pub transaction_abort-opened :
      (junk tid : Bytes) (fs : List A) (m : Manager A)
      → transaction_abort tid (m ++ opened junk tid fs ∷ []) ≡ (success, m)
  unfolding transaction_abort free_transaction
  transaction_abort-opened junk tid fs m = rw (get_transaction-opened junk tid fs m) (
      ap (λ x. (success, x))
        (remove_last-end (matches tid) (opened junk tid fs) (matches-opened junk tid fs) m))

  -- A transaction that is started under an identifier which no open transaction begins with, and
  -- of at most 512 bytes, is open: starting it again is refused. However many frames are added,
  -- aborting it leaves the open transactions as they were before it.
  pub transaction_abort-adds :
      (junk again tid : Bytes) (fs : List A) (m : Manager A)
      → get_transaction tid m ≡ none
      → strlen tid ≤ tid_size
      → (m' : Manager A) × (transaction_start junk tid m ≡ returned (success, m'))
        × (transaction_start again tid m' ≡ returned (error, m'))
        × (transaction_abort tid (adds tid fs m') ≡ (success, m))
  unfolding transaction_start
  transaction_abort-adds junk again tid fs m e h = (
    m ++ opened junk tid [] ∷ [],
    transaction_start-new junk tid m e h,
    rw (get_transaction-opened junk tid [] m),
    ap (transaction_abort tid) (adds-opened junk tid fs [] m)
        ∙ transaction_abort-opened junk tid (reverse fs ++ []) m,
  )

  matches-prefix :
      (junk a b : Bytes) (fs : List A)
      → All (λ c. c ≢ 0) (a ++ b)
      → All (λ c. c ≢ 0) a
      → matches a (opened junk (a ++ b) fs) ≡ true
  matches-prefix junk a b fs h k =
      rw (c_string-exact (a ++ b) h, strlen-exact a k, append_assoc a b _) (strncmp_eq-prefix a _)

  -- An identifier is compared only as far as it goes: while the newest transaction is `a ++ b`,
  -- starting `a` is refused, and aborting `a` aborts `a ++ b`.
  pub transaction_abort-prefix :
      (junk again a b : Bytes) (fs : List A) (m : Manager A)
      → All (λ c. c ≢ 0) a
      → All (λ c. c ≢ 0) (a ++ b)
      → let m' = m ++ opened junk (a ++ b) fs ∷ [] in
        (transaction_start again a m' ≡ returned (error, m'))
        × (transaction_abort a m' ≡ (success, m))
  unfolding transaction_start transaction_abort free_transaction
  transaction_abort-prefix junk again a b fs m k h =
      let t = opened junk (a ++ b) fs in
      let e = matches-prefix junk a b fs h k in
      let found = get_transaction-end a t m e in
      (rw found, rw found (ap (λ x. (success, x)) (remove_last-end (matches a) t e m)))
