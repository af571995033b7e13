-- ===== src/Restart/Chunks.antt =====
-- A data file of whole messages, of which at most one buffer is left to read.
use newtmq_server.Base.{
  ℕ, zero, suc, ◌+◌, ◌-◌, ◌≤◌, ltb, ◌≡◌, refl, ap, sym, ◌∙◌, true, if◌then◌else◌, List, [], ◌∷◌,
  ◌++◌, none, Bytes, length, take, drop, arith, All, append_assoc, length-append, take_all,
  drop-length_append, drop-drop,
}
use newtmq_server.Common.{Env, gen_random}
use newtmq_server.Frame.{alloc_frame, frame_id_len, ld_max}
use newtmq_server.Receive.Roundtrip.Wire.{Message, IsMessage, lines, wire, wires, length-wire}
use newtmq_server.Parse.{parse_frame}
use newtmq_server.Parse.Wire.{restored, parse_frame-wire}
use newtmq_server.Restart.{
  Reader, Outcome, done, frames_loop, after_parse, current, kept, next_index, chunks_loop,
  next_chunk, fread, unpersist_queue_context, buffer_len,
}

abbrev pub read_message : Env → Reader → Message → Reader
read_message env r m = record {
  frame = none;
  prev = none;
  found = r.found ++ restored r.allocated (gen_random env r.draws frame_id_len) m ∷ [];
  draws = r.draws + (frame_id_len - 1);
  allocated = r.allocated + 1;
}

abbrev pub read_messages : Env → Reader → List Message → Reader
read_messages env r [] = r
read_messages env r (m ∷ ms) = read_messages env (read_message env r m) ms

pub lines-append : (hs : List Bytes) (xs ys : Bytes) → lines hs xs ++ ys ≡ lines hs (xs ++ ys)
lines-append [] xs ys = refl
lines-append (h ∷ hs) xs ys =
    append_assoc h (b'\n' ∷ lines hs xs) ys ∙ ap (λ t. h ++ b'\n' ∷ t) (lines-append hs xs ys)

pub wire-append : (m : Message) (xs ys : Bytes) → wire m xs ++ ys ≡ wire m (xs ++ ys)
wire-append m xs ys =
    append_assoc m.name (b'\n' ∷ lines m.headers (b'\n' ∷ (m.body ++ 0 ∷ xs))) ys
    ∙ ap (λ t. m.name ++ b'\n' ∷ t)
        (lines-append m.headers (b'\n' ∷ (m.body ++ 0 ∷ xs)) ys
          ∙ ap (λ t. lines m.headers (b'\n' ∷ t)) (append_assoc m.body (0 ∷ xs) ys))

pub take-append :
    (n : ℕ) (xs ys : Bytes) → length xs ≤ n → take n (xs ++ ys) ≡ xs ++ take (n - length xs) ys
take-append n [] ys h = ap (λ k. take k ys) (omega arith)
take-append zero (x ∷ xs) ys h = absurd (omega arith)
take-append (suc n) (x ∷ xs) ys h =
    ap (◌∷◌ x) (take-append n xs ys (omega arith) ∙ ap (λ k. xs ++ take k ys) (omega arith))

take-wire :
    (n : ℕ) (m : Message) (rest : Bytes)
    → length (wire m []) ≤ n
    → take n (wire m rest) ≡ wire m (take (n - length (wire m [])) rest)
take-wire n m rest h =
    ap (take n) (sym (wire-append m [] rest))
    ∙ (take-append n (wire m []) rest h ∙ wire-append m [] _)

drop-wire : (m : Message) (rest : Bytes) → drop (length (wire m [])) (wire m rest) ≡ rest
drop-wire m rest =
    ap (drop (length (wire m []))) (sym (wire-append m [] rest))
    ∙ drop-length_append (wire m []) rest

pub current-none :
    (r : Reader)
    → r.frame ≡ none
    → current r ≡ (alloc_frame r.allocated, record r { allocated = r.allocated + 1 })
unfolding current
current-none r e = rw e refl

-- one call of `parse_frame` and what follows it
frames_loop-wire :
    (fuel : ℕ) (env : Env) (memory : Bytes) (len index : ℕ) (r : Reader) (m : Message)
    (rest : Bytes)
    → IsMessage m
    → length m.body ≤ ld_max
    → r.frame ≡ none
    → r.prev ≡ none
    → length (wire m []) ≤ len
    → drop index memory ≡ wire m rest
    → frames_loop (suc fuel) env memory len index r ≡ (
        if ltb (index + length (wire m [])) len
        then frames_loop fuel env memory len (index + length (wire m [])) (read_message env r m)
        else done (read_message env r m))
unfolding frames_loop after_parse current kept next_index
frames_loop-wire fuel env memory len index r m rest v k e p h d =
    let junk = take (len - length (wire m [])) rest in
    let id = gen_random env r.draws frame_id_len in
    let loop = frames_loop fuel env memory len in
    let r' : Reader = record r { allocated = r.allocated + 1 } in
    ap
      (λ c.
        after_parse loop len index c.1 (parse_frame id c.0 (take len (drop index memory)) r.prev))
      (current-none r e)
    ∙ ap (λ b. after_parse loop len index r' (parse_frame id (alloc_frame r.allocated) b r.prev))
        (ap (take len) d ∙ take-wire len m rest h)
    ∙ ap
        (λ b.
          after_parse loop len index r' (parse_frame id (alloc_frame r.allocated) (wire m junk) b))
        p
    ∙ ap (after_parse loop len index r') (parse_frame-wire id r.allocated m junk v k)

-- The inner loop reads whole messages up to the end of what `fread` gave.
frames_loop-wires :
    (fuel : ℕ) (env : Env) (memory : Bytes) (len index : ℕ) (r : Reader) (m : Message)
    (ms : List Message) (junk : Bytes)
    → All IsMessage (m ∷ ms)
    → length (wires (m ∷ ms)) ≤ ld_max
    → r.frame ≡ none
    → r.prev ≡ none
    → index + length (wires (m ∷ ms)) ≡ len
    → drop index memory ≡ wires (m ∷ ms) ++ junk
    → length (wires (m ∷ ms)) ≤ fuel
    → frames_loop (suc fuel) env memory len index r ≡ done (read_messages env r (m ∷ ms))
frames_loop-wires fuel env memory len index r m [] junk v k e p l d f =
    frames_loop-wire fuel env memory len index r m junk v.0 (omega (arith, length-wire m [])) e p
      (omega (arith, length-wire m [])) (d ∙ wire-append m [] junk)
    ∙ ground (arith, length-wire m [])
frames_loop-wires zero env memory len index r m (m' ∷ ms) junk v k e p l d f =
    absurd (omega (arith, length-wire m (wires (m' ∷ ms))))
frames_loop-wires (suc fuel) env memory len index r m (m' ∷ ms) junk v k e p l d f =
    let here = length (wire m []) in
    let later = wires (m' ∷ ms) in
    let sizes : length (wire m later) ≡ here + length later =
      omega (arith, length-wire m later, length-wire m []) in
    let inside : ltb (index + here) len ≡ true = ground (arith, sizes, length-wire m' (wires ms)) in
    frames_loop-wire (suc fuel) env memory len index r m (later ++ junk) v.0
      (omega (arith, length-wire m later)) e p (omega (arith, sizes)) (d ∙ wire-append m later junk)
    ∙ rw inside (
        frames_loop-wires fuel env memory len (index + here) (read_message env r m) m' ms junk v.1
          (omega (arith, sizes)) refl refl (omega (arith, sizes))
          (sym (drop-drop here index memory)
            ∙ (ap (drop here) (d ∙ wire-append m later junk) ∙ drop-wire m (later ++ junk)))
          (omega (arith, sizes, length-wire m [])))

chunks_loop-end :
    (fuel : ℕ) (env : Env) (memory : Bytes) (r : Reader)
    → chunks_loop (suc fuel) env [] memory r ≡ done r
unfolding chunks_loop
chunks_loop-end fuel env memory r = refl

drop_all : (n : ℕ) (xs : Bytes) → length xs ≤ n → drop n xs ≡ []
drop_all zero [] h = refl
drop_all zero (x ∷ xs) h = absurd (omega arith)
drop_all (suc n) [] h = refl
drop_all (suc n) (x ∷ xs) h = drop_all n xs (omega arith)

-- the first and only chunk
chunks_loop-wires :
    (fuel : ℕ) (env : Env) (file memory : Bytes) (r : Reader) (m : Message) (ms : List Message)
    → All IsMessage (m ∷ ms)
    → file ≡ wires (m ∷ ms)
    → length file ≤ buffer_len
    → r.frame ≡ none
    → r.prev ≡ none
    → chunks_loop (suc (suc fuel)) env file memory r ≡ done (read_messages env r (m ∷ ms))
unfolding chunks_loop next_chunk fread
chunks_loop-wires fuel env [] memory r m ms v e k fr p =
    absurd (omega (arith, ap length e, length-wire m (wires ms)))
chunks_loop-wires fuel env (c ∷ cs) memory r m ms v e k fr p =
    let file : Bytes = c ∷ cs in
    let read : Bytes → Bytes → Outcome Reader = λ chunk left.
      next_chunk (chunks_loop (suc fuel) env left) (fread chunk memory)
        (frames_loop (suc (length chunk)) env (fread chunk memory) (length chunk) 0 r) in
    ap (λ chunk. read chunk (drop buffer_len file)) (take_all buffer_len file k)
    ∙ ap (read file) (drop_all buffer_len file k)
    ∙ ap (next_chunk (chunks_loop (suc fuel) env []) (fread file memory)) (
        frames_loop-wires (length file) env (fread file memory) (length file) 0 r m ms
          (drop (length file) memory) v (omega (arith, ap length e)) fr p
          (omega (arith, ap length e)) (ap (λ b. b ++ drop (length file) memory) e)
          (omega (arith, ap length e)))
    ∙ chunks_loop-end fuel env (fread file memory) _

-- What `unpersist_queue_context` reads of a data file in which whole messages stand behind the part
-- that was sent: all of them, in order, if they fit one buffer.
pub unpersist_queue_context-wires :
    (env : Env) (memory sent : Bytes) (r : Reader) (ms : List Message)
    → All IsMessage ms
    → length (wires ms) ≤ buffer_len
    → r.prev ≡ none
    → unpersist_queue_context env memory (length sent) (sent ++ wires ms) r
      ≡ done (read_messages env (record r { frame = none; found = [] }) ms)
unfolding unpersist_queue_context
unpersist_queue_context-wires env memory sent r [] v k p =
    ap
      (λ file.
        chunks_loop (suc (length (sent ++ []))) env file memory
          (record r { frame = none; found = [] }))
      (drop-length_append sent [])
    ∙ chunks_loop-end (length (sent ++ [])) env memory _
unpersist_queue_context-wires env memory sent r (m ∷ ms) v k p =
    let file = wires (m ∷ ms) in
    let r' : Reader = record r { frame = none; found = [] } in
    let positive : suc (length (sent ++ file)) ≡ suc (suc (length (sent ++ file) - 1)) =
      omega (arith, length-append sent file, length-wire m (wires ms)) in
    ap (λ b. chunks_loop (suc (length (sent ++ file))) env b memory r')
      (drop-length_append sent file)
    ∙ ap (λ n. chunks_loop n env file memory r') positive
    ∙ chunks_loop-wires (length (sent ++ file) - 1) env file memory r' m ms v refl k refl p
