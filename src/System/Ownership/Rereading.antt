-- ===== src/System/Ownership/Rereading.antt =====
-- The frames that `unpersist` reads back are allocated one by one, and each is queued once.
use newtmq_server.Base.{
  ℕ, zero, suc, ◌+◌, ◌≡◌, refl, ◌∙◌, ap, subst, sym, [], ◌∷◌, Option, none, some, Bytes, Bool-cases,
  Option-cases, inl, inr, length, arith, take, drop, ltb,
}
use newtmq_server.Common.{Env, Ret, success, error, gen_random}
use newtmq_server.Frame.{Frame, Update, failed, more, complete, frame_id_len, alloc_frame}
use newtmq_server.Parse.{
  Parsed, returned, parse_frame, parse_loop, parse_split, parse_line, after_update, keep_rest,
  is_body, frame_update,
}
use newtmq_server.Parse.Copies.{frame_update-unbucketed, unbucketed}
use newtmq_server.Restart.{
  Reader, Outcome, done, unpersist_queue_context, chunks_loop, next_chunk, frames_loop, after_parse,
  current, kept, next_index, buffer_len, fread,
}
use newtmq_server.System.Ownership.Addresses
use newtmq_server.System.Ownership.Counts.{
  is_at, count_frames, count_frame, count_frames-append, Fits, Fits-less, Fits-fresh,
}

unbucketed-addr : (u : Update × Frame) → (unbucketed u).1.addr ≡ u.1.addr
unbucketed-addr (complete, f) = refl
unbucketed-addr (more, f) = refl
unbucketed-addr (failed, f) = refl

frame_update-addr :
    (id line : Bytes) (len : ℕ) (f : Frame) → (frame_update id line len f).1.addr ≡ f.addr
frame_update-addr id line len f =
    ap (λ u. u.1.addr) (frame_update-unbucketed id line len f)
    ∙ unbucketed-addr _
    ∙ Addresses.frame_update-addr id line len f

abbrev LiesAt : ℕ → Parsed → Type 0
LiesAt n (returned ret offset f prev) = f.addr ≡ n
LiesAt n Parsed.corrupted = Unit
LiesAt n Parsed.running = Unit

module _ (loop : ℕ → Option ℕ → Bytes → Frame → Parsed) (n : ℕ)
    (stays : (at : ℕ) (offset : Option ℕ) (rest : Bytes) (f : Frame)
      → f.addr ≡ n
      → LiesAt n (loop at offset rest f)) where
  after_update-LiesAt :
      (at : ℕ) (rest : Bytes) (u : Update × Frame)
      → u.1.addr ≡ n
      → LiesAt n (after_update loop at rest u)
  unfolding after_update
  after_update-LiesAt at rest (complete, f) e = e
  after_update-LiesAt at rest (more, f) e = stays at _ rest f e
  after_update-LiesAt at rest (failed, f) e = stays at _ rest f e

  parse_line-LiesAt :
      (id : Bytes) (at : ℕ) (curr : Bytes) (len : ℕ) (f : Frame) (prev : Option Bytes)
      → f.addr ≡ n
      → LiesAt n (parse_line loop id at curr len f prev)
  unfolding parse_line
  parse_line-LiesAt id at curr len f (some p) e = tt
  parse_line-LiesAt id at curr len f none e =
      after_update-LiesAt _ _ (frame_update id curr len f) (frame_update-addr id curr len f ∙ e)

  keep_rest-LiesAt :
      (input_len : ℕ) (offset : Option ℕ) (curr : Bytes) (len : ℕ) (f : Frame) (prev : Option Bytes)
      → f.addr ≡ n
      → LiesAt n (keep_rest input_len offset curr len f prev)
  unfolding keep_rest
  keep_rest-LiesAt input_len offset curr len f prev h = elim (Bool-cases (ltb len input_len)) [
    | inl e ↦ rw e tt
    | inr e ↦ rw e h
  ]

  parse_split-LiesAt :
      (id : Bytes) (input_len at : ℕ) (offset : Option ℕ) (curr : Bytes) (f : Frame)
      (prev : Option Bytes) (s : Ret × ℕ)
      → f.addr ≡ n
      → LiesAt n (parse_split loop id input_len at offset curr f prev s)
  unfolding parse_split
  parse_split-LiesAt id input_len at offset curr f prev (success, len) h =
      parse_line-LiesAt id at curr len f prev h
  parse_split-LiesAt id input_len at offset curr f prev (error, len) h =
      elim (Bool-cases (is_body f.status)) [
        | inl e ↦ rw e (keep_rest-LiesAt input_len offset curr len f prev h)
        | inr e ↦ rw e (parse_line-LiesAt id at curr len f prev h)
      ]

parse_loop-LiesAt :
    (n fuel : ℕ) (id : Bytes) (input_len at : ℕ) (offset : Option ℕ) (curr : Bytes) (f : Frame)
    (prev : Option Bytes)
    → f.addr ≡ n
    → LiesAt n (parse_loop fuel id input_len at offset curr f prev)
unfolding parse_loop
parse_loop-LiesAt n zero id input_len at offset curr f prev e = tt
parse_loop-LiesAt n (suc fuel) id input_len at offset [] f prev e = e
parse_loop-LiesAt n (suc fuel) id input_len at offset (c ∷ cs) f prev e =
    parse_split-LiesAt
      (λ at' offset' rest f'. parse_loop fuel id input_len at' offset' rest f' none) n
      (λ at' offset' rest f' k. parse_loop-LiesAt n fuel id input_len at' offset' rest f' none k) id
      input_len at offset (c ∷ cs) f prev _ e

parse_frame-LiesAt :
    (id : Bytes) (f : Frame) (input : Bytes) (prev : Option Bytes)
    → LiesAt f.addr (parse_frame id f input prev)
unfolding parse_frame
parse_frame-LiesAt id f input prev =
    parse_loop-LiesAt f.addr (suc (length input)) id (length input) 0 none input f prev refl

-- `k` is the count of what does not belong to the reader.
abbrev ReaderFits : ℕ → ℕ → Reader → Type 0
ReaderFits a k r = Fits a r.allocated (k + (count_frames a r.found + count_frame a r.frame))

-- the frames found, and the frame in hand
abbrev HandFits : ℕ → ℕ → Frame × Reader → Type 0
HandFits a k x = Fits a x.1.allocated (k + (count_frames a x.1.found + is_at a x.0.addr))

abbrev pub ReadingFits : ℕ → ℕ → Outcome Reader → Type 0
ReadingFits a k (done r) = Fits a r.allocated (k + count_frames a r.found)
ReadingFits a k Outcome.corrupted = Unit
ReadingFits a k Outcome.running = Unit

abbrev LoopFits : ℕ → ℕ → Outcome Reader → Type 0
LoopFits a k (done r) = ReaderFits a k r
LoopFits a k Outcome.corrupted = Unit
LoopFits a k Outcome.running = Unit

current-HandFits : (a k : ℕ) (r : Reader) → ReaderFits a k r → HandFits a k (current r)
unfolding current alloc_frame
current-HandFits a k r h = elim (Option-cases r.frame) [
  | inl e ↦
      let n : count_frame a r.frame ≡ 0 = ap (count_frame a) e in
      let x = k + (count_frames a r.found + count_frame a r.frame) in
      rw (e, current)
        (Fits-less a (r.allocated + 1) (r.allocated + 1) (x + is_at a r.allocated) _
          (Fits-fresh a r.allocated x h) (omega arith) (omega arith))
  | inr (f, e) ↦
      let n : count_frame a r.frame ≡ is_at a f.addr = ap (count_frame a) e in
      rw (e, current) (Fits-less a r.allocated r.allocated _ _ h (omega arith) (omega arith))
]

kept-ReaderFits :
    (a k : ℕ) (ret : Ret) (f g : Frame) (prev : Option Bytes) (r : Reader)
    → f.addr ≡ g.addr
    → HandFits a k (g, r)
    → ReaderFits a k (kept ret f prev r)
unfolding kept
kept-ReaderFits a k success f g prev r e h =
    let same : is_at a f.addr ≡ is_at a g.addr = ap (is_at a) e in
    Fits-less a r.allocated r.allocated _ _ h
      (omega (arith, count_frames-append a r.found (f ∷ []))) (omega arith)
kept-ReaderFits a k error f g prev r e h =
    subst (λ n. Fits a r.allocated (k + (count_frames a r.found + is_at a n))) (sym e) h

after_parse-LoopFits :
    (a k : ℕ) (loop : ℕ → Reader → Outcome Reader) (len index : ℕ) (g : Frame) (r : Reader)
    (p : Parsed)
    → ((next : ℕ) (r' : Reader) → ReaderFits a k r' → LoopFits a k (loop next r'))
    → LiesAt g.addr p
    → HandFits a k (g, r)
    → LoopFits a k (after_parse loop len index r p)
unfolding after_parse
after_parse-LoopFits a k loop len index g r (returned ret offset f prev) ih e h =
    let kept_fits = kept-ReaderFits a k ret f g prev r e h in
    elim (Option-cases (next_index index offset)) [
      | inl n ↦ rw (n, LoopFits, after_parse) tt
      | inr (next, n) ↦ elim (Bool-cases (ltb next len)) [
        | inl b ↦ rw (n, b, LoopFits, after_parse) (ih next (kept ret f prev r) kept_fits)
        | inr b ↦ rw (n, b, LoopFits, after_parse) kept_fits
      ]
    ]
after_parse-LoopFits a k loop len index g r Parsed.corrupted ih e h = tt
after_parse-LoopFits a k loop len index g r Parsed.running ih e h = tt

frames_loop-LoopFits :
    (a k fuel : ℕ) (env : Env) (memory : Bytes) (len index : ℕ) (r : Reader)
    → ReaderFits a k r
    → LoopFits a k (frames_loop fuel env memory len index r)
unfolding frames_loop
frames_loop-LoopFits a k zero env memory len index r h = tt
frames_loop-LoopFits a k (suc fuel) env memory len index r h =
    after_parse-LoopFits a k (frames_loop fuel env memory len) len index (current r).0 (current r).1
      _ (frames_loop-LoopFits a k fuel env memory len)
      (parse_frame-LiesAt (gen_random env r.draws frame_id_len) (current r).0
        (take len (drop index memory)) r.prev)
      (current-HandFits a k r h)

next_chunk-LoopFits :
    (a k : ℕ) (loop : Bytes → Reader → Outcome Reader) (memory : Bytes) (o : Outcome Reader)
    → ((r : Reader) → ReaderFits a k r → LoopFits a k (loop memory r))
    → LoopFits a k o
    → LoopFits a k (next_chunk loop memory o)
unfolding next_chunk
next_chunk-LoopFits a k loop memory (done r) ih h = ih r h
next_chunk-LoopFits a k loop memory Outcome.corrupted ih h = tt
next_chunk-LoopFits a k loop memory Outcome.running ih h = tt

chunks_loop-LoopFits :
    (a k fuel : ℕ) (env : Env) (file memory : Bytes) (r : Reader)
    → ReaderFits a k r
    → LoopFits a k (chunks_loop fuel env file memory r)
unfolding chunks_loop
chunks_loop-LoopFits a k zero env file memory r h = tt
chunks_loop-LoopFits a k (suc fuel) env [] memory r h = h
chunks_loop-LoopFits a k (suc fuel) env (c ∷ cs) memory r h =
    let chunk = take buffer_len (c ∷ cs) in
    let memory' = fread chunk memory in
    next_chunk-LoopFits a k (chunks_loop fuel env (drop buffer_len (c ∷ cs))) memory' _
      (chunks_loop-LoopFits a k fuel env (drop buffer_len (c ∷ cs)) memory')
      (frames_loop-LoopFits a k (suc (length chunk)) env memory' (length chunk) 0 r h)

found_only : (a k : ℕ) (o : Outcome Reader) → LoopFits a k o → ReadingFits a k o
found_only a k (done r) h = Fits-less a r.allocated r.allocated _ _ h (omega arith) (omega arith)
found_only a k Outcome.corrupted h = tt
found_only a k Outcome.running h = tt

-- The frames that are found stand beside those that were there before.
pub unpersist_queue_context-ReadingFits :
    (a k : ℕ) (env : Env) (memory : Bytes) (sent : ℕ) (file : Bytes) (r : Reader)
    → Fits a r.allocated k
    → ReadingFits a k (unpersist_queue_context env memory sent file r)
unfolding unpersist_queue_context
unpersist_queue_context-ReadingFits a k env memory sent file r h = found_only a k _ (
    chunks_loop-LoopFits a k (suc (length file)) env (drop sent file) memory
      (record r { frame = none; found = [] })
      (Fits-less a r.allocated r.allocated _ _ h (omega arith) (omega arith)))
