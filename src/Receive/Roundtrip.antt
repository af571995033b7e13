-- ===== src/Receive/Roundtrip.antt =====
-- `recv_data` reads back what a client sends: messages with a command, header lines that declare
-- the length of the body, a blank line, the body and a NUL byte.
pub mod Wire
pub mod Frames
use newtmq_server.Base.{
  ℕ, zero, suc, ◌+◌, ◌-◌, ◌≤◌, ◌<◌, ◌≡◌, refl, ap, ◌∙◌, sym, ◌≢◌, Bool, true, false, List, [], ◌∷◌,
  ◌++◌, Option, none, some, Bytes, length, All, ℤ, pos, negsuc, map, arith, if◌then◌else◌, ltb,
  subst, leb, leb→le, Bool-cases, inl, inr, length-append, drop, take, take-append-drop,
  length-take, length-drop, append-nil, append_assoc,
}
use newtmq_server.Common.{Env, gen_random, success}
use newtmq_server.Frame.{
  Frame, LineData, born, in_bucket, input_header, input_body, more, complete, alloc_frame, ssplit,
  frame_update, frame_id_len, match_name, frame_names, stomp_setdata, ld_max,
}
use newtmq_server.Frame.Split.{IsLine, NotNul, ssplit-body, ssplit-body_full}
use newtmq_server.Frame.Steps.{
  IsHeader, declared, line_data, with_header, with_piece, frame_update-name, frame_update-header,
  frame_update-blank, frame_update-piece, length-line_pos, setdata-whole,
}
use newtmq_server.Frame.Setdata.{stomp_setdata-long}
use newtmq_server.Receive.{Receiver, Round, next, Outcome, done, recv_round, recv_data}
use newtmq_server.Receive.Lines.{
  idle, reading, finished, next_id, fresh, round-line, round-first, round-blank,
  round-blank_complete, round-piece, round-piece_complete, round-skip, is_input_body-header,
}
use newtmq_server.Receive.Roundtrip.Wire.{
  Reaches, stop, step, Message, lines, wire, lines_size, body_size, counted_size, declared_by,
  IsMessage, pieces, delivered, after_message, wires, after_messages, Reaches-done, length-behind,
}
use newtmq_server.Receive.Roundtrip.Frames.{
  with_headers, with_headers_lem, completed, last_piece, Long, Long-take, behind_blank, named,
  blank_more, empty_frame, full_frame, behind_parts, more_piece, completed-parts,
}

module _ {env : Env} {sock : ℕ} {last : Bytes} {q : Receiver} where
  pub Reaches-lines :
      (hs : List Bytes) (rest : Bytes) (r : Receiver) (f : Frame)
      → f.status ≡ input_header
      → All IsHeader hs
      → Reaches env sock last q rest (reading r (with_headers hs f))
      → Reaches env sock last q (lines hs rest) (reading r f)
  Reaches-lines [] rest r f s h t = t
  Reaches-lines (h ∷ hs) rest r f s (hh, hs') t =
      step
        (round-line env sock r h (lines hs rest) f (with_header h f) hh.0 (is_input_body-header f s)
          (frame_update-header (next_id env r) h (lines hs rest) f s hh))
        (length-behind h b'\n' (lines hs rest)) (Reaches-lines hs rest r (with_header h f) s hs' t)

  Reaches-last :
      (c : ℕ) (cs rest : Bytes) (r : Receiver) (f : Frame)
      → All NotNul (c ∷ cs)
      → f.status ≡ input_body
      → f.contentlen ≡ pos (f.has_contentlen + length (c ∷ cs))
      → length (c ∷ cs) ≤ ld_max
      → Reaches env sock last q rest (finished r (completed (next_id env r) (c ∷ cs) f))
      → Reaches env sock last q ((c ∷ cs) ++ 0 ∷ rest) (reading r f)
  Reaches-last c cs rest r f a s e short t =
      step
        (round-piece_complete env sock r (c ∷ cs) rest f _ s (ssplit-body c cs rest a short)
          (last_piece (next_id env r) c cs rest f s e short))
        (length-behind (c ∷ cs) 0 rest) t

  Reaches-body :
      (n : ℕ) (body rest : Bytes) (r : Receiver) (f : Frame)
      → length body ≤ n
      → 0 < length body
      → All NotNul body
      → f.status ≡ input_body
      → f.contentlen ≡ pos (f.has_contentlen + length body)
      → Reaches env sock last q rest (finished r (completed (next_id env r) body f))
      → Reaches env sock last q (body ++ 0 ∷ rest) (reading r f)
  Reaches-body n [] rest r f b p a s e t = absurd (omega arith)
  Reaches-body zero (c ∷ cs) rest r f b p a s e t = absurd (omega arith)
  Reaches-body (suc n) (c ∷ cs) rest r f b p a s e t =
      elim (Bool-cases (leb (length (c ∷ cs)) ld_max)) [
        | inl short ↦ Reaches-last c cs rest r f a s e (leb→le _ _ short) t
        | inr long ↦
            let l = Long-take c cs a (ground arith) in
            let piece = take ld_max (c ∷ cs) in
            let later = drop ld_max (c ∷ cs) in
            subst (λ b. Reaches env sock last q b (reading r f)) (behind_parts l (0 ∷ rest))
              (step
                (round-piece env sock r piece (later ++ 0 ∷ rest) f (with_piece piece f) s
                  (l.split (0 ∷ rest)) (more_piece (next_id env r) (0 ∷ rest) l f s e))
                (omega (arith, length-append piece (later ++ 0 ∷ rest), l.full))
                (Reaches-body n later rest r (with_piece piece f)
                  (omega (arith, ap length l.parts, length-append piece later, l.full)) l.left
                  l.clean s
                  (e ∙ ap pos (omega (arith, ap length l.parts, length-append piece later)))
                  (subst (λ g. Reaches env sock last q rest (finished r g))
                    (completed-parts (next_id env r) l f) t)))
      ]

  -- from the blank line on
  Reaches-blank :
      (body rest : Bytes) (r : Receiver) (f : Frame)
      → All NotNul body
      → f.status ≡ input_header
      → f.contentlen ≡ pos (length body)
      → f.has_contentlen ≡ 0
      → f.body ≡ []
      → Reaches env sock last q rest (finished r (behind_blank (next_id env r) body f))
      → Reaches env sock last q (b'\n' ∷ (body ++ 0 ∷ rest)) (reading r f)
  Reaches-blank [] rest r f a s e z n t =
      step
        (round-blank_complete env sock r (0 ∷ rest) f _ s
          (frame_update-blank (next_id env r) (0 ∷ rest) f s 0 e))
        (omega arith)
        (step (round-skip env sock (finished r _) rest) (omega arith) (
          subst (λ g. Reaches env sock last q rest (finished r g))
            (empty_frame (next_id env r) f e z n) t))
  Reaches-blank (c ∷ cs) rest r f a s e z n t =
      step
        (round-blank env sock r ((c ∷ cs) ++ 0 ∷ rest) f _ s
          (blank_more (next_id env r) ((c ∷ cs) ++ 0 ∷ rest) f s (length cs) e))
        (omega arith)
        (Reaches-body (length (c ∷ cs)) (c ∷ cs) rest r _ (omega arith) (omega arith) a refl
          (e ∙ ap pos (omega arith))
          (subst (λ g. Reaches env sock last q rest (finished r g))
            (full_frame (next_id env r) c cs f e z n) t))

  Reaches-message :
      (m : Message) (rest : Bytes) (r : Receiver)
      → IsMessage m
      → Reaches env sock last q rest (after_message env sock r m)
      → Reaches env sock last q (wire m rest) (idle r)
  unfolding alloc_frame
  Reaches-message m rest r v t =
      let r' = record r { allocated = r.allocated + 1 } in
      let f = named m.name (fresh env sock r) in
      step
        (round-first env sock r m.name _ _ v.name_line
          (frame_update-name (next_id env r) m.name _ (fresh env sock r) refl v.known))
        (length-behind m.name b'\n' _)
        (Reaches-lines m.headers (b'\n' ∷ (m.body ++ 0 ∷ rest)) r' f refl v.header_lines (
          subst (λ g. Reaches env sock last q (b'\n' ∷ (m.body ++ 0 ∷ rest)) (reading r' g))
            (sym (with_headers_lem m.headers f))
            (Reaches-blank m.body rest r' _ v.no_nul refl v.declares refl refl
              (subst (λ g. Reaches env sock last q rest (finished r' g)) (ground arith) t))))

Reaches-messages :
    (env : Env) (sock : ℕ) (ms : List Message) (r : Receiver)
    → All IsMessage ms
    → Reaches env sock [] (after_messages env sock r ms) (wires ms) (idle r)
Reaches-messages env sock [] r v = stop refl refl
Reaches-messages env sock (m ∷ ms) r v =
    Reaches-message m (wires ms) r v.0
      (Reaches-messages env sock ms (after_message env sock r m) v.1)

-- A connection that is between two messages and is sent well-formed messages, one behind the
-- other in one buffer, takes them all, with any fuel above the number of bytes: each stands in the
-- bucket, in order, with its command, its header lines, its body and the counted size, nothing is
-- held back, and no error is sent.
pub recv_data-wires :
    (env : Env) (sock fuel : ℕ) (ms : List Message) (r : Receiver)
    → All IsMessage ms
    → length (wires ms) < fuel
    → recv_data env sock fuel (wires ms) (idle r) ≡ done (after_messages env sock r ms)
recv_data-wires env sock fuel ms r v h = Reaches-done fuel h (Reaches-messages env sock ms r v)
