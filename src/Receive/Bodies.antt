-- ===== src/Receive/Bodies.antt =====
-- A body that a packet boundary cuts: its first part is held back, and joined with the second.
use newtmq_server.Base.{
  ℕ, suc, ◌+◌, ◌≤◌, ◌≡◌, ap, ◌∙◌, sym, true, false, [], ◌∷◌, ◌++◌, Bytes, length, arith, All,
  length-append, append-nil, strncpy, pos, All-append,
}
use newtmq_server.Base.Text.Laws.{strncpy-exact}
use newtmq_server.Common.{Env, error}
use newtmq_server.Frame.{
  Frame, complete, frame_update, input_body, is_frame_name, ssplit, scan, is_bl, ld_max,
}
use newtmq_server.Frame.Steps.{frame_update-piece, setdata-whole}
use newtmq_server.Frame.Split.{NotNul, ssplit-body}
use newtmq_server.Receive.{
  Receiver, next, stopped, done, recv_round, recv_data, merge, take_line, is_complete, stash,
  resume, handle_line, split_round,
}
use newtmq_server.Receive.Lines.{
  reading, finished, drop-line, next_id, is_input_body-body, round-piece_complete,
}
use newtmq_server.Receive.Buffering.{holding, recv_data-step}
use newtmq_server.Receive.Roundtrip.Frames.{completed, last_piece}

scan-body_cut :
    (count : ℕ) (cs : Bytes)
    → All NotNul cs
    → count + suc (length cs) ≤ ld_max
    → scan true count cs ≡ (error, count + suc (length cs))
unfolding scan
scan-body_cut count [] h k = ground arith
scan-body_cut count (c ∷ cs) h k = ground (arith, scan-body_cut (suc count) cs h.1)

-- A piece of a body that the end of the buffer cuts off is reported with RET_ERROR.
pub ssplit-body_cut :
    (c : ℕ) (cs : Bytes)
    → All NotNul (c ∷ cs)
    → length (c ∷ cs) ≤ ld_max
    → ssplit true (c ∷ cs) ≡ (error, length (c ∷ cs))
unfolding ssplit is_bl
ssplit-body_cut c cs h k = ground (arith, scan-body_cut 0 cs h.1)

strncpy-whole : (piece : Bytes) → All NotNul piece → strncpy piece (length piece) ≡ piece
strncpy-whole piece h =
    ap (λ b. strncpy b (length piece)) (sym (append-nil piece)) ∙ strncpy-exact piece [] h

module _ (env : Env) (sock : ℕ) (r : Receiver) (f : Frame) (c : ℕ) (cs : Bytes)
    (s : f.status ≡ input_body) (a : All NotNul (c ∷ cs)) where
  round-body_cut :
      length (c ∷ cs) ≤ ld_max
      → is_frame_name (c ∷ cs) (length (c ∷ cs)) ≡ false
      → recv_round env sock (c ∷ cs) (reading r f) ≡ stopped (holding r f (c ∷ cs))
  unfolding recv_round split_round stash
  round-body_cut k n =
      rw (is_input_body-body f s, ssplit-body_cut c cs a k, n)
        (ground (arith, strncpy-whole (c ∷ cs) a))

  -- The part of a body that ends a packet is held back, and the frame does not get it yet.
  pub recv_data-body_cut :
      (fuel : ℕ)
      → length (c ∷ cs) ≤ ld_max
      → is_frame_name (c ∷ cs) (length (c ∷ cs)) ≡ false
      → recv_data env sock (suc fuel) (c ∷ cs) (reading r f) ≡ done (holding r f (c ∷ cs))
  unfolding resume
  recv_data-body_cut fuel k n =
      recv_data-step env sock fuel (c ∷ cs) (reading r f) (omega arith)
      ∙ ap (resume (recv_data env sock fuel)) (round-body_cut k n)

last_piece-alone :
    (id : Bytes) (c : ℕ) (cs : Bytes) (f : Frame)
    → f.status ≡ input_body
    → f.contentlen ≡ pos (f.has_contentlen + length (c ∷ cs))
    → length (c ∷ cs) ≤ ld_max
    → frame_update id (c ∷ cs) (length (c ∷ cs)) f ≡ (complete, completed id (c ∷ cs) f)
last_piece-alone id c cs f s e k =
    ap (λ b. frame_update id b (length (c ∷ cs)) f) (sym (append-nil (c ∷ cs)))
    ∙ frame_update-piece id (c ∷ cs) [] f s (omega arith) k _ e
    ∙ ground (arith, setdata-whole (c ∷ cs) k)

module _ (env : Env) (sock : ℕ) (r : Receiver) (f : Frame) (c : ℕ) (cs : Bytes) (d : ℕ)
    (ds rest : Bytes) (s : f.status ≡ input_body) (b : All NotNul (d ∷ ds))
    (k : length ((c ∷ cs) ++ d ∷ ds) ≤ ld_max)
    (e : f.contentlen ≡ pos (f.has_contentlen + length ((c ∷ cs) ++ d ∷ ds))) where
  round-body_rejoin :
      recv_round env sock ((d ∷ ds) ++ 0 ∷ rest) (holding r f (c ∷ cs))
      ≡ next (finished r (completed (next_id env r) ((c ∷ cs) ++ d ∷ ds) f)) rest
  unfolding recv_round split_round handle_line merge take_line is_complete
  round-body_rejoin =
      rw
        (
          is_input_body-body f s,
          ssplit-body d ds rest b (omega (arith, length-append (c ∷ cs) (d ∷ ds))),
          strncpy-exact (d ∷ ds) (0 ∷ rest) b,
        )
        (ground (
          arith,
          is_input_body-body f s,
          length-append (c ∷ cs) (d ∷ ds),
          last_piece-alone (next_id env r) c (cs ++ d ∷ ds) f s e k,
          drop-line (d ∷ ds) 0 rest,
        ))

-- A packet boundary inside a body that fits one line makes no difference: the first packet ends with
-- its part of the body held back, and the second, which ends the body, has the effect of one packet
-- with the whole body. The first part must not look like a command.
pub recv_data-two_packets_body :
    (env : Env) (sock first_fuel fuel : ℕ) (r : Receiver) (f : Frame) (c : ℕ) (cs : Bytes) (d : ℕ)
    (ds rest : Bytes)
    → f.status ≡ input_body
    → All NotNul (c ∷ cs)
    → All NotNul (d ∷ ds)
    → is_frame_name (c ∷ cs) (length (c ∷ cs)) ≡ false
    → length ((c ∷ cs) ++ d ∷ ds) ≤ ld_max
    → f.contentlen ≡ pos (f.has_contentlen + length ((c ∷ cs) ++ d ∷ ds))
    → (recv_data env sock (suc first_fuel) (c ∷ cs) (reading r f) ≡ done (holding r f (c ∷ cs)))
      × (recv_data env sock (suc fuel) ((d ∷ ds) ++ 0 ∷ rest) (holding r f (c ∷ cs))
          ≡ recv_data env sock (suc fuel) (((c ∷ cs) ++ d ∷ ds) ++ 0 ∷ rest) (reading r f))
unfolding resume
recv_data-two_packets_body env sock first_fuel fuel r f c cs d ds rest s a b n k e =
    let whole = (c ∷ cs) ++ d ∷ ds in
    let after = resume (recv_data env sock fuel) in
    (
      recv_data-body_cut env sock r f c cs s a first_fuel
          (omega (arith, length-append (c ∷ cs) (d ∷ ds))) n,
      recv_data-step env sock fuel ((d ∷ ds) ++ 0 ∷ rest) (holding r f (c ∷ cs)) (omega arith)
          ∙ ap after (round-body_rejoin env sock r f c cs d ds rest s b k e)
          ∙ ap after (
              sym (
                round-piece_complete env sock r whole rest f _ s
                  (ssplit-body c (cs ++ d ∷ ds) rest (All-append NotNul (c ∷ cs) (d ∷ ds) a b) k)
                  (last_piece (next_id env r) c (cs ++ d ∷ ds) rest f s e k)))
          ∙ sym (recv_data-step env sock fuel (whole ++ 0 ∷ rest) (reading r f) (omega arith)),
    )
