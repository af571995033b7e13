-- ===== src/Receive/Buffering.antt =====
-- A line that a packet boundary cuts: what is held back, and where the copy stays in bounds.
use newtmq_server.Base.{
  ℕ, suc, ◌+◌, ◌*◌, ◌≤◌, ◌<◌, ◌≡◌, refl, ap, ◌∙◌, sym, false, [], ◌∷◌, ◌++◌, none, some, Bytes,
  length, ◌≢◌, arith, All, length-append, append-nil, strncpy,
}
use newtmq_server.Base.Text.Laws.{strncpy-exact}
use newtmq_server.Common.{Env}
use newtmq_server.Frame.{Frame, input_header, is_frame_name, ld_max}
use newtmq_server.Frame.Split.{IsLine, IsPlain, ssplit-line, ssplit-cut}
use newtmq_server.Receive.{
  Receiver, Pending, Round, next, stopped, overflow, done, corrupted, recv_round, recv_data, merge,
  take_line, is_complete, stash, resume, handle_line, split_round,
}
use newtmq_server.Receive.Lines.{reading, drop-line, next_id, is_input_body-header}
use newtmq_server.Frame.Steps.{with_header, frame_update-header_alone, length-line_pos}

-- Nothing held back: the round is in bounds, and leaves nothing held back if the loop goes on.
abbrev InBounds : Round → Type 0
InBounds (next r rest) = r.prev ≡ none
InBounds (stopped r) = Unit
InBounds overflow = ⊥

pub recv_data-step :
    (env : Env) (sock fuel : ℕ) (curr : Bytes) (r : Receiver)
    → 0 < length curr
    → recv_data env sock (suc fuel) curr r
      ≡ resume (recv_data env sock fuel) (recv_round env sock curr r)
unfolding recv_data
recv_data-step env sock fuel [] r h = absurd (omega arith)
recv_data-step env sock fuel (c ∷ cs) r h = refl

round-overflow :
    (env : Env) (sock : ℕ) (line rest : Bytes) (r : Receiver) (f : Frame) (p : Pending)
    → f.status ≡ input_header
    → IsLine line
    → p.cap ≤ length p.bytes + length line
    → recv_round env sock (line ++ b'\n' ∷ rest) (record (reading r f) { prev = some p }) ≡ overflow
unfolding recv_round split_round handle_line merge
round-overflow env sock line rest r f p s h k =
    rw (is_input_body-header f s, ssplit-line line rest h) (ground arith)

length-line_append : (line rest : Bytes) → 0 < length (line ++ b'\n' ∷ rest)
length-line_append line rest = omega (arith, length-append line (b'\n' ∷ rest))

-- A header line that is finished while a piece of it is held back runs past the end of
-- `prev_data` as soon as the line with its NUL is longer than the allocation.
pub recv_data-overflow :
    (env : Env) (sock fuel : ℕ) (line rest : Bytes) (r : Receiver) (f : Frame) (p : Pending)
    → f.status ≡ input_header
    → IsLine line
    → p.cap ≤ length p.bytes + length line
    → recv_data env sock (suc fuel) (line ++ b'\n' ∷ rest) (record (reading r f) { prev = some p })
      ≡ corrupted
unfolding recv_data
recv_data-overflow env sock fuel line rest r f p s h k =
    recv_data-step env sock fuel (line ++ b'\n' ∷ rest) _ (length-line_append line rest)
    ∙ ap (resume (recv_data env sock fuel)) (round-overflow env sock line rest r f p s h k)

-- the connection that holds back the start of a line
abbrev pub holding : Receiver → Frame → Bytes → Receiver
holding r f piece = record r {
  frame = some f;
  prev = some (record { bytes = piece; cap = ld_max * 2 });
}

IsLine-NotNul : (line : Bytes) → IsLine line → All (λ c. c ≢ 0) line
IsLine-NotNul [] h = tt
IsLine-NotNul (c ∷ cs) h = (h.1.0.0, plain cs h.1.1)
  where
    plain : (cs : Bytes) → All IsPlain cs → All (λ c. c ≢ 0) cs
    plain [] h = tt
    plain (c ∷ cs) h = (h.0.0, plain cs h.1)

strncpy-line : (line rest : Bytes) → IsLine line → strncpy (line ++ rest) (length line) ≡ line
strncpy-line line rest h = strncpy-exact line rest (IsLine-NotNul line h)

round-cut :
    (env : Env) (sock : ℕ) (piece : Bytes) (r : Receiver) (f : Frame)
    → f.status ≡ input_header
    → IsLine piece
    → is_frame_name piece (length piece) ≡ false
    → recv_round env sock piece (reading r f) ≡ stopped (holding r f piece)
unfolding recv_round split_round stash
round-cut env sock piece r f s h n =
    rw (is_input_body-header f s, ssplit-cut piece h, n)
      (ground (
        arith,
        ap (λ b. strncpy b (length piece)) (sym (append-nil piece)) ∙ strncpy-line piece [] h,
      ))

-- the first packet
pub recv_data-cut :
    (env : Env) (sock fuel : ℕ) (piece : Bytes) (r : Receiver) (f : Frame)
    → f.status ≡ input_header
    → IsLine piece
    → is_frame_name piece (length piece) ≡ false
    → recv_data env sock (suc fuel) piece (reading r f) ≡ done (holding r f piece)
unfolding recv_data
recv_data-cut env sock fuel piece r f s h n =
    recv_data-step env sock fuel piece (reading r f) (length-line_pos piece h).0
    ∙ ap (resume (recv_data env sock fuel)) (round-cut env sock piece r f s h n)

round-rejoin :
    (env : Env) (sock : ℕ) (piece line rest : Bytes) (r : Receiver) (f : Frame)
    → f.status ≡ input_header
    → IsLine line
    → IsLine (piece ++ line)
    → recv_round env sock (line ++ b'\n' ∷ rest) (holding r f piece)
      ≡ next (reading r (with_header (piece ++ line) f)) rest
unfolding recv_round split_round handle_line merge take_line is_complete
round-rejoin env sock piece line rest r f s hl h =
    rw (is_input_body-header f s, ssplit-line line rest hl, strncpy-line line (b'\n' ∷ rest) hl)
      (ground (
        arith,
        is_input_body-header f s,
        length-append piece line,
        length-line_pos (piece ++ line) h,
        frame_update-header_alone (next_id env r) (piece ++ line) f s h,
        drop-line line b'\n' rest,
      ))

-- the second packet
pub recv_data-rejoin :
    (env : Env) (sock fuel : ℕ) (piece line rest : Bytes) (r : Receiver) (f : Frame)
    → f.status ≡ input_header
    → IsLine line
    → IsLine (piece ++ line)
    → recv_data env sock (suc fuel) (line ++ b'\n' ∷ rest) (holding r f piece)
      ≡ recv_data env sock fuel rest (reading r (with_header (piece ++ line) f))
unfolding recv_data
recv_data-rejoin env sock fuel piece line rest r f s hl h =
    recv_data-step env sock fuel (line ++ b'\n' ∷ rest) _ (length-line_append line rest)
    ∙ ap (resume (recv_data env sock fuel)) (round-rejoin env sock piece line rest r f s hl h)

-- the connection that holds back two pieces, in the block that `realloc` gave
abbrev pub holding_two : Receiver → Frame → Bytes → Bytes → Receiver
holding_two r f a b = record r {
  frame = some f;
  prev = some (record { bytes = a ++ b; cap = length a + ld_max });
}
