-- ===== src/Receive/Lines.antt =====
-- One round of the loop of `recv_data` on each kind of input, nothing being held back.
use newtmq_server.Base.{
  ℕ, suc, ◌+◌, ◌-◌, ◌≡◌, refl, ap, ◌∙◌, true, false, [], ◌∷◌, ◌++◌, none, some, Bytes, length, drop,
  arith,
}
use newtmq_server.Common.{Env, gen_random, success}
use newtmq_server.Frame.{
  Frame, input_header, input_body, more, complete, alloc_frame, ssplit, frame_update, frame_id_len,
  is_bl, is_nl,
}
use newtmq_server.Frame.Split.{IsLine, ssplit-line}
use newtmq_server.Frame.Steps.{length-line_pos}
use newtmq_server.Receive.{Receiver, next, recv_round, take_line, merge, is_input_body, is_complete}

-- between two messages
abbrev pub idle : Receiver → Receiver
idle r = record r { frame = none; prev = none }

-- in the middle of the message `f`
abbrev pub reading : Receiver → Frame → Receiver
reading r f = record r { frame = some f; prev = none }

-- after the message `f`
abbrev pub finished : Receiver → Frame → Receiver
finished r f = record r {
  frame = none;
  prev = none;
  bucket = r.bucket ++ f ∷ [];
  draws = r.draws + (frame_id_len - 1);
}

-- the identifier that a frame gets if it is finished now
abbrev pub next_id : Env → Receiver → Bytes
next_id env r = gen_random env r.draws frame_id_len

pub drop-line :
    (line : Bytes) (c : ℕ) (rest : Bytes) → drop (length line + 1) (line ++ c ∷ rest) ≡ rest
drop-line [] c rest = refl
drop-line (x ∷ line) c rest =
    ap (λ n. drop n (x ∷ (line ++ c ∷ rest))) {x = suc (length line) + 1}
      {y = suc (length line + 1)} (omega arith)
    ∙ drop-line line c rest

pub drop-piece : (piece rest : Bytes) → drop (length piece) (piece ++ rest) ≡ rest
drop-piece [] rest = refl
drop-piece (x ∷ piece) rest = drop-piece piece rest

pub is_input_body-header : (f : Frame) → f.status ≡ input_header → is_input_body (some f) ≡ false
unfolding is_input_body
is_input_body-header f h = ground arith

pub is_input_body-body : (f : Frame) → f.status ≡ input_body → is_input_body (some f) ≡ true
unfolding is_input_body
is_input_body-body f h = ground arith

pub ssplit-newline : (rest : Bytes) → ssplit false (b'\n' ∷ rest) ≡ (success, 0)
unfolding ssplit is_bl is_nl
ssplit-newline rest = refl

module _ (env : Env) (sock : ℕ) (r : Receiver) where
  pub round-line :
      (line rest : Bytes) (f g : Frame)
      → IsLine line
      → is_input_body (some f) ≡ false
      → frame_update (next_id env r) (line ++ b'\n' ∷ rest) (length line) f ≡ (more, g)
      → recv_round env sock (line ++ b'\n' ∷ rest) (reading r f) ≡ next (reading r g) rest
  unfolding recv_round merge take_line is_complete
  round-line line rest f g h b u =
      rw (b, ssplit-line line rest h) (ground (arith, drop-line line b'\n' rest))

  -- the frame that a first line makes
  abbrev pub fresh : Frame
  fresh = record (alloc_frame r.allocated) { sock = sock; cinfo = some r.conn }

  pub round-first :
      (line rest : Bytes) (g : Frame)
      → IsLine line
      → frame_update (next_id env r) (line ++ b'\n' ∷ rest) (length line) fresh ≡ (more, g)
      → recv_round env sock (line ++ b'\n' ∷ rest) (idle r)
        ≡ next (record (reading r g) { allocated = r.allocated + 1 }) rest
  unfolding recv_round merge take_line is_complete is_input_body
  round-first line rest g h u =
      ground (arith, ssplit-line line rest h, length-line_pos line h, drop-line line b'\n' rest)

  pub round-blank :
      (rest : Bytes) (f g : Frame)
      → f.status ≡ input_header
      → frame_update (next_id env r) (b'\n' ∷ rest) 0 f ≡ (more, g)
      → recv_round env sock (b'\n' ∷ rest) (reading r f) ≡ next (reading r g) rest
  unfolding recv_round merge take_line is_complete
  round-blank rest f g h u =
      rw (is_input_body-header f h) (ground (arith, is_input_body-header f h, ssplit-newline rest))

  pub round-blank_complete :
      (rest : Bytes) (f g : Frame)
      → f.status ≡ input_header
      → frame_update (next_id env r) (b'\n' ∷ rest) 0 f ≡ (complete, g)
      → recv_round env sock (b'\n' ∷ rest) (reading r f) ≡ next (finished r g) rest
  unfolding recv_round merge take_line is_complete
  round-blank_complete rest f g h u =
      rw (is_input_body-header f h) (ground (arith, is_input_body-header f h, ssplit-newline rest))

  pub round-piece :
      (piece rest : Bytes) (f g : Frame)
      → f.status ≡ input_body
      → ssplit true (piece ++ rest) ≡ (success, length piece)
      → frame_update (next_id env r) (piece ++ rest) (length piece) f ≡ (more, g)
      → recv_round env sock (piece ++ rest) (reading r f) ≡ next (reading r g) rest
  unfolding recv_round merge take_line is_complete
  round-piece piece rest f g h s u =
      rw (is_input_body-body f h, s) (ground (arith, is_input_body-body f h, drop-piece piece rest))

  pub round-piece_complete :
      (piece rest : Bytes) (f g : Frame)
      → f.status ≡ input_body
      → ssplit true (piece ++ 0 ∷ rest) ≡ (success, length piece)
      → frame_update (next_id env r) (piece ++ 0 ∷ rest) (length piece) f ≡ (complete, g)
      → recv_round env sock (piece ++ 0 ∷ rest) (reading r f) ≡ next (finished r g) rest
  unfolding recv_round merge take_line is_complete
  round-piece_complete piece rest f g h s u =
      rw (is_input_body-body f h, s)
        (ground (arith, is_input_body-body f h, drop-line piece 0 rest))

  pub round-skip : (rest : Bytes) → recv_round env sock (0 ∷ rest) (idle r) ≡ next (idle r) rest
  unfolding recv_round merge take_line is_complete ssplit is_bl is_input_body
  round-skip rest = ground arith
