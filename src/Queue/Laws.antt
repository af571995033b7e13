-- ===== src/Queue/Laws.antt =====
-- Each operation on the table, as a change of what the queues hold.
use newtmq_server.Base.{
  ℕ, zero, suc, ◌<◌, ◌==◌, ==_iff, if◌then◌else◌, true, false, List, [], ◌∷◌, ◌++◌, Option, none,
  some, Bytes, ◌≡◌, refl, arith, sym, ap, ◌∙◌, Bool-cases, inl, inr, Option-cases, length,
  length-set, get_elem?, set, get_elem?-set_self, get_elem?-set_ne, replicate,
}
use newtmq_server.Queue.{
  initialize_queuebox, Queue, Chain, Box, slot, qb_size, chain_of, chain_at, scan_queue,
  create_queue, get_queue, has_hash, write_queue, put_entry, take_entry, first_entry, rest_entries,
}
use newtmq_server.Queue.Chains.{
  entries_of, lookup, has_hash-lookup, lookup-cons, lookup-write_queue,
}

slot-lt : (h : ℕ) → slot h < qb_size
slot-lt h = omega arith

slots_ne : (k h : ℕ) → (slot k == slot h) ≡ false → (k == h) ≡ false
slots_ne k h other = ground arith

module _ {ℓ} {A : Type ℓ} where
  -- what the queue with a hash holds, first out first
  abbrev pub contents : Box A → ℕ → List A
  contents box h = entries_of (lookup h (chain_at box (slot h)))

  -- what `get_queue` returns
  record Got (h : ℕ) (chain : Chain A) (r : Queue A × Chain A) : Type ℓ where
    hashed : r.0.hashnum ≡ h
    linked : has_hash h r.1 ≡ true
    holds : r.0.entries ≡ entries_of (lookup h chain)
    kept : (k : ℕ) → entries_of (lookup k r.1) ≡ entries_of (lookup k chain)

  Got-some :
      (h : ℕ) (qname : Bytes) (chain : Chain A) (q : Queue A)
      → lookup h chain ≡ some q
      → Got h chain (get_queue h qname chain)
  unfolding get_queue
  Got-some h qname chain q e =
      rw (e, get_queue)
        (record {
          hashed = ground (arith, has_hash-lookup h chain);
          linked = ground (arith, has_hash-lookup h chain);
          holds = rw e;
          kept = λ k. refl;
        })

  Got-none :
      (h : ℕ) (qname : Bytes) (chain : Chain A)
      → lookup h chain ≡ none
      → Got h chain (get_queue h qname chain)
  unfolding get_queue create_queue has_hash
  Got-none h qname chain e =
      rw (e, get_queue)
        (record {
          hashed = refl;
          linked = ground arith;
          holds = rw e;
          kept = λ k. ground (arith, lookup-cons k (create_queue h qname) chain);
        })

  get_queue-Got : (h : ℕ) (qname : Bytes) (chain : Chain A) → Got h chain (get_queue h qname chain)
  get_queue-Got h qname chain = elim (Option-cases (lookup h chain)) [
    | inl e ↦ Got-none h qname chain e
    | inr (q, e) ↦ Got-some h qname chain q e
  ]

  chain_at-set :
      (box : Box A) (i j : ℕ) (c : Chain A)
      → i < length box
      → chain_at (set box i (some c)) j ≡ (if j == i then c else chain_at box j)
  unfolding chain_at chain_of
  chain_at-set box i j c h = elim (Bool-cases (j == i)) [
    | inl e ↦ rw e (
        ap chain_of (
          ap (get_elem? (set box i (some c))) ((==_iff j i).0 e)
          ∙ get_elem?-set_self box i (some c) h))
    | inr e ↦ rw e (ap chain_of (get_elem?-set_ne box i j (some c) (λ p. ground arith)))
  ]

  contents-set :
      (box : Box A) (h k : ℕ) (c : Chain A)
      → length box ≡ qb_size
      → contents (set box (slot h) (some c)) k
        ≡ (if slot k == slot h then entries_of (lookup k c) else contents box k)
  contents-set box h k c l =
      ground (arith, chain_at-set box (slot h) (slot k) c (omega (arith, slot-lt h)))

  written :
      (h k : ℕ) (new : Queue A) (chain chain' : Chain A)
      → new.hashnum ≡ h
      → has_hash h chain' ≡ true
      → entries_of (lookup k chain') ≡ entries_of (lookup k chain)
      → entries_of (lookup k (write_queue h new chain'))
        ≡ (if k == h then new.entries else entries_of (lookup k chain))
  written h k new chain chain' e linked kept =
      ap entries_of (lookup-write_queue h k new chain' e) ∙ ground arith

  write_contents :
      (h k : ℕ) (qname : Bytes) (new : Queue A) (box : Box A)
      → length box ≡ qb_size
      → new.hashnum ≡ h
      → contents
          (set box
            (slot h)
            (some (write_queue h new (get_queue h qname (chain_at box (slot h))).1)))
          k
        ≡ (if k == h then new.entries else contents box k)
  write_contents h k qname new box l e =
      let chain = chain_at box (slot h) in
      let g = get_queue-Got h qname chain in
      contents-set box h k _ l ∙ elim (Bool-cases (slot k == slot h)) [
        | inl same ↦ rw same (
            written h k new chain _ e g.linked (g.kept k)
            ∙ ap (λ i. if k == h then new.entries else entries_of (lookup k (chain_at box i)))
                (sym ((==_iff _ _).0 same)))
        | inr other ↦ rw (other, slots_ne k h other)
      ]

  abbrev pub first : List A → Option A
  first [] = none
  first (e ∷ es) = some e

  abbrev pub rest : List A → List A
  rest [] = []
  rest (e ∷ es) = es

  -- The entry goes to the end of the queue of that name, and no other queue changes.
  pub contents-put_entry :
      (e : A) (h k : ℕ) (qname : Bytes) (box : Box A)
      → length box ≡ qb_size
      → contents (put_entry e h qname box) k
        ≡ (if k == h then contents box h ++ e ∷ [] else contents box k)
  unfolding put_entry
  contents-put_entry e h k qname box l =
      let g = get_queue-Got h qname (chain_at box (slot h)) in
      write_contents h k qname _ box l g.hashed ∙ rw g.holds

  pub length-put_entry :
      (e : A) (h : ℕ) (qname : Bytes) (box : Box A) → length (put_entry e h qname box) ≡ length box
  unfolding put_entry
  length-put_entry e h qname box = length-set box _ _

  first_entry-first : (es : List A) → first_entry es ≡ first es
  unfolding first_entry
  first_entry-first [] = refl
  first_entry-first (e ∷ es) = refl

  rest_entries-rest : (es : List A) → rest_entries es ≡ rest es
  unfolding rest_entries
  rest_entries-rest [] = refl
  rest_entries-rest (e ∷ es) = refl

  -- The oldest entry is returned, if there is one, and no other queue changes.
  pub take_entry-first :
      (h : ℕ) (qname : Bytes) (box : Box A) → (take_entry h qname box).0 ≡ first (contents box h)
  unfolding take_entry
  take_entry-first h qname box =
      let g = get_queue-Got h qname (chain_at box (slot h)) in
      first_entry-first _ ∙ ap first g.holds

  pub contents-take_entry :
      (h k : ℕ) (qname : Bytes) (box : Box A)
      → length box ≡ qb_size
      → contents (take_entry h qname box).1 k
        ≡ (if k == h then rest (contents box h) else contents box k)
  unfolding take_entry
  contents-take_entry h k qname box l =
      let g = get_queue-Got h qname (chain_at box (slot h)) in
      let q = (get_queue h qname (chain_at box (slot h))).0 in
      write_contents h k qname (record q { entries = rest_entries q.entries }) box l g.hashed
      ∙ ap (λ es. if k == h then es else contents box k)
          (rest_entries-rest q.entries ∙ ap rest g.holds)

  pub length-take_entry :
      (h : ℕ) (qname : Bytes) (box : Box A) → length (take_entry h qname box).1 ≡ length box
  unfolding take_entry
  length-take_entry h qname box = length-set box _ _

  chain_of-replicate : (n i : ℕ) → chain_of {A = A} (get_elem? (replicate n none) i) ≡ []
  unfolding chain_of
  chain_of-replicate zero i = refl
  chain_of-replicate (suc n) zero = refl
  chain_of-replicate (suc n) (suc i) = chain_of-replicate n i

  -- The table starts with no entries.
  pub contents-initialize_queuebox : (h : ℕ) → contents initialize_queuebox h ≡ []
  unfolding chain_at initialize_queuebox scan_queue
  contents-initialize_queuebox h =
      ap (λ c. entries_of (lookup h c)) (chain_of-replicate qb_size (slot h))
