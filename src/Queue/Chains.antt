-- ===== src/Queue/Chains.antt =====
-- A chain as a map from hashes to entries.
use newtmq_server.Base.{
  ℕ, ◌==◌, ==_iff, if◌then◌else◌, true, false, List, [], ◌∷◌, Option, none, some, ◌≡◌, refl, arith,
  ◌∙◌, Bool-cases, inl, inr, ◌⊎◌,
}
use newtmq_server.Queue.{Queue, Chain, scan_queue, has_hash, write_queue}

-- the entries of a queue, none if it is not there
abbrev pub entries_of {ℓ} : {A : Type ℓ} → Option (Queue A) → List A
entries_of none = []
entries_of (some q) = q.entries

module _ {ℓ} {A : Type ℓ} where
  abbrev pub lookup : ℕ → Chain A → Option (Queue A)
  lookup h chain = scan_queue h chain none

  abbrev pub or_else : Option (Queue A) → Option (Queue A) → Option (Queue A)
  or_else none d = d
  or_else (some q) d = some q

  scan_queue-found :
      (h : ℕ) (chain : Chain A) (found : Option (Queue A))
      → scan_queue h chain found ≡ or_else (lookup h chain) found
  unfolding scan_queue
  scan_queue-found h [] found = refl
  scan_queue-found h (q ∷ qs) found =
      ground (arith, scan_queue-found h qs found, scan_queue-found h qs (some q))

  pub lookup-cons :
      (h : ℕ) (q : Queue A) (qs : Chain A)
      → lookup h (q ∷ qs) ≡ or_else (lookup h qs) (if q.hashnum == h then some q else none)
  unfolding scan_queue
  lookup-cons h q qs = scan_queue-found h qs _

  pub has_hash-lookup :
      (h : ℕ) (chain : Chain A)
      → (has_hash h chain ≡ false) × (lookup h chain ≡ none)
        ⊎ (has_hash h chain ≡ true) × ((q : Queue A) × (lookup h chain ≡ some q) × (q.hashnum ≡ h))
  unfolding has_hash scan_queue
  has_hash-lookup h [] = inl (refl, refl)
  has_hash-lookup h (q ∷ qs) = elim (has_hash-lookup h qs) [
    | inl (n, e) ↦ elim (Bool-cases (q.hashnum == h)) [
      | inl y ↦ inr (ground arith, (q, lookup-cons h q qs ∙ rw (e, y), (==_iff _ h).0 y))
      | inr y ↦ inl (ground arith, lookup-cons h q qs ∙ rw (e, y))
    ]
    | inr (y, (p, e, k)) ↦ inr (ground arith, (p, lookup-cons h q qs ∙ rw e, k))
  ]

  -- A write is seen under its own hash and no other.
  pub lookup-write_queue :
      (h k : ℕ) (new : Queue A) (chain : Chain A)
      → new.hashnum ≡ h
      → lookup k (write_queue h new chain)
        ≡ (if k == h then (if has_hash h chain then some new else none) else lookup k chain)
  unfolding write_queue has_hash scan_queue
  lookup-write_queue h k new [] e = ground arith
  lookup-write_queue h k new (q ∷ qs) e = ground (
    arith,
    lookup-write_queue h k new qs e,
    lookup-cons k q qs,
    lookup-cons k q (write_queue h new qs),
    lookup-cons k new qs,
    has_hash-lookup h qs,
  )
