-- ===== src/Queue/Collision.antt =====
-- Queues that share a hash.
use newtmq_server.Base.{ℕ, ◌+◌, [], ◌∷◌, ◌++◌, Bytes, some, ◌≡◌, ◌≢◌, ap, sym, ◌∙◌, length, arith}
use newtmq_server.Common.{get_hash}
use newtmq_server.Common.Hash.{get_hash-collision}
use newtmq_server.Queue.{Box, qb_size, enqueue, dequeue, put_entry}
use newtmq_server.Queue.Laws.{contents, first, take_entry-first, contents-put_entry}

module _ {ℓ} {A : Type ℓ} where
  -- What is queued under one name is taken under another, if two neighbouring bytes are one more and
  -- 33 less: while the first queue is empty, the entry is what `dequeue` returns for the other name.
  pub dequeue-collision :
      (e : A) (p s : Bytes) (c d : ℕ) (box : Box A)
      → c ≢ 0
      → d ≢ 0
      → length box ≡ qb_size
      → contents box (get_hash (p ++ (c ∷ (d + 33) ∷ s))) ≡ []
      → (dequeue (p ++ ((c + 1) ∷ d ∷ s)) (enqueue (some e) (p ++ (c ∷ (d + 33) ∷ s)) box).1).0
        ≡ some e
  unfolding enqueue dequeue
  dequeue-collision e p s c d box n m l empty =
      let name = p ++ (c ∷ (d + 33) ∷ s) in
      let other = p ++ ((c + 1) ∷ d ∷ s) in
      take_entry-first (get_hash other) other _
      ∙ ap first {y = e ∷ []} (
          ap (contents (put_entry e (get_hash name) name box))
            (sym (get_hash-collision p s c d n m))
          ∙ contents-put_entry e (get_hash name) (get_hash name) name box l
          ∙ ground (arith, empty))
