-- ===== src/Queue/Refinement.antt =====
-- The table refines a map from hashes to first-in-first-out queues.
use newtmq_server.Base.{
  ℕ, ◌==◌, if◌then◌else◌, List, [], ◌∷◌, ◌++◌, Option, none, some, Bytes, ◌≡◌, refl, ap, ◌∙◌,
  length, fun_ext,
}
use newtmq_server.Common.{Ret, success, error, get_hash}
use newtmq_server.Queue.{Box, qb_size, enqueue, dequeue}
use newtmq_server.Queue.Laws.{
  contents, first, rest, contents-put_entry, length-put_entry, take_entry-first,
  contents-take_entry, length-take_entry,
}

-- a call of the interface, with the pointer that is queued
pub data Call {ℓ} (A : Type ℓ) : Type ℓ where
  enqueues : Option A → Bytes → Call A
  dequeues : Bytes → Call A

-- what the caller gets: a return code, or a pointer or NULL
abbrev pub Reply {ℓ} : Type ℓ → Type ℓ
Reply A = Ret × Option A

-- the specification: a list of entries for each hash
abbrev pub Spec {ℓ} : Type ℓ → Type ℓ
Spec A = ℕ → List A

module _ {ℓ} {A : Type ℓ} where
  abbrev answer : Ret × Box A → Reply A × Box A
  answer (r, box) = ((r, none), box)

  abbrev answer_entry : Option A × Box A → Reply A × Box A
  answer_entry (e, box) = ((success, e), box)

  pub call : Call A → Box A → Reply A × Box A
  call (enqueues e qname) box = answer (enqueue e qname box)
  call (dequeues qname) box = answer_entry (dequeue qname box)

  pub run : List (Call A) → Box A → List (Reply A) × Box A
  run [] box = ([], box)
  run (c ∷ cs) box = let (r, box') = call c box in let (rs, last) = run cs box' in (r ∷ rs, last)

  abbrev update : Spec A → ℕ → List A → Spec A
  update s h es k = if k == h then es else s k

  pub spec_call : Call A → Spec A → Reply A × Spec A
  spec_call (enqueues none qname) s = ((error, none), s)
  spec_call (enqueues (some e) qname) s =
      ((success, none), update s (get_hash qname) (s (get_hash qname) ++ e ∷ []))
  spec_call (dequeues qname) s =
      ((success, first (s (get_hash qname))), update s (get_hash qname) (rest (s (get_hash qname))))

  pub spec_run : List (Call A) → Spec A → List (Reply A) × Spec A
  spec_run [] s = ([], s)
  spec_run (c ∷ cs) s =
      let (r, s') = spec_call c s in let (rs, last) = spec_run cs s' in (r ∷ rs, last)

  -- one call, in both
  record Agrees (r : Reply A × Box A) (s : Reply A × Spec A) : Type ℓ where
    replies : r.0 ≡ s.0
    holds : contents r.1 ≡ s.1
    sized : length r.1 ≡ qb_size

  call-Agrees :
      (c : Call A) (box : Box A)
      → length box ≡ qb_size
      → Agrees (call c box) (spec_call c (contents box))
  unfolding call spec_call enqueue dequeue
  call-Agrees (enqueues none qname) box l = record { replies = refl; holds = refl; sized = l }
  call-Agrees (enqueues (some e) qname) box l = record {
    replies = refl;
    holds = fun_ext λ k. contents-put_entry e (get_hash qname) k qname box l;
    sized = length-put_entry e (get_hash qname) qname box ∙ l;
  }
  call-Agrees (dequeues qname) box l = record {
    replies = ap (λ e. (success, e)) (take_entry-first (get_hash qname) qname box);
    holds = fun_ext λ k. contents-take_entry (get_hash qname) k qname box l;
    sized = length-take_entry (get_hash qname) qname box ∙ l;
  }

  -- Any sequence of calls gets the same replies from the table of chains as from a map of
  -- first-in-first-out queues that starts with the same contents, and leaves the same contents.
  pub run-spec_run :
      (cs : List (Call A)) (box : Box A)
      → length box ≡ qb_size
      → ((run cs box).0 ≡ (spec_run cs (contents box)).0)
        × (contents (run cs box).1 ≡ (spec_run cs (contents box)).1)
  unfolding run spec_run
  run-spec_run [] box l = (refl, refl)
  run-spec_run (c ∷ cs) box l =
      let a = call-Agrees c box l in
      let (p, q) = run-spec_run cs (call c box).1 a.sized in
      let e = a.holds in
      (λ i. a.replies i ∷ (p ∙ ap (λ t. (spec_run cs t).0) e) i, q ∙ ap (λ t. (spec_run cs t).1) e)
