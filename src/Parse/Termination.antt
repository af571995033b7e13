-- ===== src/Parse/Termination.antt =====
-- Every round of the loop of `parse_frame` moves on.
use newtmq_server.Base.{
  ℕ, zero, suc, ◌<◌, ◌≤◌, ◌≢◌, Bool, true, false, [], ◌∷◌, Option, none, some, Bytes, length, arith,
  Bool-cases, inl, inr, length-drop, ltb,
}
use newtmq_server.Common.{Ret, success, error}
use newtmq_server.Frame.{Frame, Update, failed, more, complete, ssplit, is_bl}
use newtmq_server.Frame.Split.{ssplit-body_pos}
use newtmq_server.Parse.{
  Parsed, running, parse_frame, parse_loop, parse_split, parse_line, after_update, keep_rest,
  passed, is_body,
}

-- how far `passed` gets, whatever `ssplit` reports
passed_pos : (b : Bool) (c : ℕ) (cs : Bytes) → 0 < passed b (c ∷ cs) (ssplit b (c ∷ cs)).1
unfolding passed is_bl
passed_pos true zero cs = ground arith
passed_pos true (suc c) cs = ground (arith, ssplit-body_pos (suc c) cs (λ e. cc))
passed_pos false c cs = omega arith

module _ (loop : ℕ → Option ℕ → Bytes → Frame → Parsed) (n : ℕ)
    (ends : (at : ℕ) (offset : Option ℕ) (rest : Bytes) (f : Frame)
      → length rest < n
      → loop at offset rest f ≢ running) where
  after_update-ends :
      (at : ℕ) (rest : Bytes) (u : Update × Frame)
      → length rest < n
      → after_update loop at rest u ≢ running
  unfolding after_update
  after_update-ends at rest (complete, f) h = λ e. cc
  after_update-ends at rest (more, f) h = ends at _ rest f h
  after_update-ends at rest (failed, f) h = ends at _ rest f h

  parse_line-ends :
      (id : Bytes) (at c : ℕ) (cs : Bytes) (line_len : ℕ) (f : Frame) (prev : Option Bytes)
      → 0 < passed (is_body f.status) (c ∷ cs) line_len
      → length (c ∷ cs) ≤ n
      → parse_line loop id at (c ∷ cs) line_len f prev ≢ running
  unfolding parse_line
  parse_line-ends id at c cs len f (some p) h k = λ e. cc
  parse_line-ends id at c cs len f none h k =
      after_update-ends _ _ _
        (omega (arith, length-drop (passed (is_body f.status) (c ∷ cs) len) (c ∷ cs)))

  keep_rest-ends :
      (input_len : ℕ) (offset : Option ℕ) (curr : Bytes) (line_len : ℕ) (f : Frame)
      (prev : Option Bytes)
      → keep_rest input_len offset curr line_len f prev ≢ running
  unfolding keep_rest
  keep_rest-ends input_len offset curr line_len f prev =
      elim (Bool-cases (ltb line_len input_len)) [ inl e ↦ rw e (λ r. cc) | inr e ↦ rw e (λ r. cc) ]

  parse_split-ends :
      (id : Bytes) (input_len at : ℕ) (offset : Option ℕ) (c : ℕ) (cs : Bytes) (f : Frame)
      (prev : Option Bytes) (ret : Ret) (line_len : ℕ)
      → 0 < passed (is_body f.status) (c ∷ cs) line_len
      → length (c ∷ cs) ≤ n
      → parse_split loop id input_len at offset (c ∷ cs) f prev (ret, line_len) ≢ running
  unfolding parse_split
  parse_split-ends id input_len at offset c cs f prev success len h k =
      parse_line-ends id at c cs len f prev h k
  parse_split-ends id input_len at offset c cs f prev error len h k =
      elim (Bool-cases (is_body f.status)) [
        | inl e ↦ rw e (keep_rest-ends input_len offset (c ∷ cs) len f prev)
        | inr e ↦ rw e (parse_line-ends id at c cs len f prev h k)
      ]

parse_loop-ends :
    (fuel : ℕ) (id : Bytes) (input_len at : ℕ) (offset : Option ℕ) (curr : Bytes) (f : Frame)
    (prev : Option Bytes)
    → length curr < fuel
    → parse_loop fuel id input_len at offset curr f prev ≢ running
unfolding parse_loop
parse_loop-ends zero id input_len at offset curr f prev h = absurd (omega arith)
parse_loop-ends (suc fuel) id input_len at offset [] f prev h = λ e. cc
parse_loop-ends (suc fuel) id input_len at offset (c ∷ cs) f prev h =
    parse_split-ends (λ at' offset' rest f'. parse_loop fuel id input_len at' offset' rest f' none)
      fuel (λ at' offset' rest f' k. parse_loop-ends fuel id input_len at' offset' rest f' none k)
      id input_len at offset c cs f prev _ _ (passed_pos (is_body f.status) c cs) (omega arith)

-- `parse_frame` ends on every input, in any state of the frame and with any rest kept: each round
-- passes over at least one byte.
pub parse_frame-ends :
    (id : Bytes) (f : Frame) (input : Bytes) (prev : Option Bytes)
    → parse_frame id f input prev ≢ running
unfolding parse_frame
parse_frame-ends id f input prev =
    parse_loop-ends (suc (length input)) id (length input) 0 none input f prev (omega arith)
