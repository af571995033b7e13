-- ===== src/System/Ownership/Queues.antt =====
-- A frame that is queued is in the table once more, and one that is taken is there once less.
use newtmq_server.Base.{
  ℕ, zero, suc, ◌+◌, ◌≤◌, ◌==◌, List, [], ◌∷◌, none, some, Bytes, ◌≡◌, refl, arith, sym, ◌∙◌,
  Bool-cases, inl, inr, Option-cases, get_elem?, set,
}
use newtmq_server.Common.{get_hash}
use newtmq_server.Frame.{Frame}
use newtmq_server.Queue.{
  Queue, Chain, Box, slot, chain_of, chain_at, scan_queue, create_queue, get_queue, write_queue,
  put_entry, take_entry, first_entry, rest_entries, add_entry, enqueue, dequeue,
}
use newtmq_server.Queue.Chains.{lookup, lookup-cons, has_hash-lookup}
use newtmq_server.System.Ownership.Counts.{
  is_at, count_frames, count_frame, count_chain, count_box, count_frames-append,
}

write_queue-count :
    (a h : ℕ) (new q : Queue Frame) (chain : Chain Frame)
    → lookup h chain ≡ some q
    → count_chain a (write_queue h new chain) + count_frames a q.entries
      ≡ count_chain a chain + count_frames a new.entries
unfolding write_queue scan_queue
write_queue-count a h new q [] e = ground arith
write_queue-count a h new q (p ∷ ps) e = elim (has_hash-lookup h ps) [
  | inl (n, l) ↦ elim (Bool-cases (p.hashnum == h)) [
    | inl here ↦
        let k : some p ≡ some q = sym (lookup-cons h p ps ∙ rw (l, here)) ∙ e in
        rw (n, here) (ground (arith, k))
    | inr other ↦
        let k : none ≡ some q = sym (lookup-cons h p ps ∙ rw (l, other)) ∙ e in ground (arith, k)
  ]
  | inr (y, (r, l, _)) ↦
      let k : some r ≡ some q = sym (lookup-cons h p ps ∙ rw l) ∙ e in
      rw y (omega (arith, write_queue-count a h new q ps (l ∙ k)))
]

-- what `get_queue` returns: a queue of the chain, in which no frame is new
record Found (a h : ℕ) (chain : Chain Frame) (r : Queue Frame × Chain Frame) : Type 0 where
  linked : lookup h r.1 ≡ some r.0
  same : count_chain a r.1 ≡ count_chain a chain

get_queue-Found :
    (a h : ℕ) (qname : Bytes) (chain : Chain Frame) → Found a h chain (get_queue h qname chain)
unfolding get_queue create_queue
get_queue-Found a h qname chain = elim (Option-cases (lookup h chain)) [
  | inl e ↦
      rw (e, get_queue)
        (record {
          linked = lookup-cons h (create_queue h qname) chain ∙ ground arith;
          same = omega arith;
        })
  | inr (q, e) ↦ rw (e, get_queue) (record { linked = e; same = refl })
]

set-count :
    (a : ℕ) (box : Box Frame) (i : ℕ) (c : Chain Frame)
    → count_box a (set box i (some c)) + count_chain a (chain_of (get_elem? box i))
      ≤ count_box a box + count_chain a c
unfolding chain_of
set-count a [] i c = omega arith
set-count a (none ∷ box) zero c = omega arith
set-count a (some d ∷ box) zero c = omega arith
set-count a (d ∷ box) (suc i) c = omega (arith, set-count a box i c)

pub enqueue-count :
    (a : ℕ) (f : Frame) (qname : Bytes) (box : Box Frame)
    → count_box a (enqueue (some f) qname box).1 ≤ count_box a box + is_at a f.addr
unfolding enqueue put_entry add_entry chain_at
enqueue-count a f qname box =
    let h = get_hash qname in
    let r = get_queue h qname (chain_at box (slot h)) in
    let g = get_queue-Found a h qname (chain_at box (slot h)) in
    omega (
      arith,
      set-count a box (slot h) (write_queue h (add_entry f r.0) r.1),
      write_queue-count a h (add_entry f r.0) r.0 r.1 g.linked,
      g.same,
      count_frames-append a r.0.entries (f ∷ []),
    )

entries-count :
    (a : ℕ) (fs : List Frame)
    → count_frame a (first_entry fs) + count_frames a (rest_entries fs) ≡ count_frames a fs
unfolding first_entry rest_entries
entries-count a [] = refl
entries-count a (f ∷ fs) = refl

pub dequeue-count :
    (a : ℕ) (qname : Bytes) (box : Box Frame)
    → count_frame a (dequeue qname box).0 + count_box a (dequeue qname box).1 ≤ count_box a box
unfolding dequeue take_entry chain_at
dequeue-count a qname box =
    let h = get_hash qname in
    let r = get_queue h qname (chain_at box (slot h)) in
    let g = get_queue-Found a h qname (chain_at box (slot h)) in
    let popped : Queue Frame = record r.0 { entries = rest_entries r.0.entries } in
    omega (
      arith,
      set-count a box (slot h) (write_queue h popped r.1),
      write_queue-count a h popped r.0 r.1 g.linked,
      g.same,
      entries-count a r.0.entries,
    )
