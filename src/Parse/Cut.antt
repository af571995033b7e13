-- ===== src/Parse/Cut.antt =====
-- `parse_frame` on a body that the end of its input cuts off.
use newtmq_server.Base.{
  ℕ, zero, suc, ◌+◌, ◌≤◌, ◌<◌, ◌≡◌, refl, ap, sym, ◌∙◌, subst, List, ◌∷◌, none, some, Bytes, length,
  arith, All, pos, negsuc, lt→ltb, length-append,
}
use newtmq_server.Frame.{
  Frame, input_header, input_body, ssplit, alloc_frame, ld_max, match_name, frame_names,
}
use newtmq_server.Frame.Split.{IsLine, NotNul}
use newtmq_server.Frame.Steps.{IsHeader, frame_update-name}
use newtmq_server.Receive.Lines.{ssplit-newline}
use newtmq_server.Receive.Bodies.{ssplit-body_cut}
use newtmq_server.Receive.Roundtrip.Wire.{begun, lines, lines_size, declared_by, length-lines}
use newtmq_server.Receive.Roundtrip.Frames.{with_headers_lem, named, blank_more}
use newtmq_server.Parse.{
  corrupted, parse_frame, parse_loop, parse_split, keep_rest, passed, is_body,
}
use newtmq_server.Parse.Copies.{frame_update-unbucketed, unbucketed}
use newtmq_server.Parse.Rounds.{Ends, Ends-more}
use newtmq_server.Parse.Wire.{Ends-line, Ends-lines, is_body-header}

module _ (id : Bytes) (n : ℕ) (c : ℕ) (cs : Bytes) (a : All NotNul (c ∷ cs))
    (k : length (c ∷ cs) ≤ ld_max) where
  -- The rest of the body is kept in a block that is smaller than what is cleared in it.
  Ends-cut :
      (at : ℕ) (f : Frame)
      → f.status ≡ input_body
      → length (c ∷ cs) < n
      → Ends id n at (c ∷ cs) f corrupted
  unfolding parse_loop parse_split keep_rest is_body
  Ends-cut at f s h offset zero l = absurd (omega arith)
  Ends-cut at f s h offset (suc fuel) l =
      rw (s, ssplit-body_cut c cs a k, lt→ltb (length (c ∷ cs)) n h) refl

  Ends-blank_cut :
      (at : ℕ) (f : Frame) (m : ℕ)
      → f.status ≡ input_header
      → f.contentlen ≡ pos (suc m)
      → length (c ∷ cs) < n
      → Ends id n at (b'\n' ∷ c ∷ cs) f corrupted
  unfolding passed is_body
  Ends-blank_cut at f m s e h =
      let g : Frame = record f { status = input_body; size = f.size + 1 } in
      Ends-more id n at b'\n' (c ∷ cs) f 0 1 (c ∷ cs) g corrupted
        (ap (λ x. ssplit x (b'\n' ∷ c ∷ cs)) (is_body-header f s) ∙ ssplit-newline (c ∷ cs))
        (ap (λ x. passed x (b'\n' ∷ c ∷ cs) 0) (is_body-header f s)) refl (omega arith)
        (frame_update-unbucketed id _ _ f ∙ ap unbucketed (blank_more id (c ∷ cs) f s m e))
        (Ends-cut (at + 1) g refl h)

-- A message whose body goes on behind the end of the input makes `parse_frame` write past the end of
-- the block in which it keeps the part that has come.
pub parse_frame-cut :
    (id : Bytes) (addr : ℕ) (name : Bytes) (hs : List Bytes) (c : ℕ) (cs : Bytes) (m : ℕ)
    → IsLine name
    → match_name name (length name) frame_names ≡ some name
    → All IsHeader hs
    → declared_by (negsuc 0) hs ≡ pos (suc m)
    → All NotNul (c ∷ cs)
    → length (c ∷ cs) ≤ ld_max
    → parse_frame id (alloc_frame addr) (begun name hs (c ∷ cs)) none ≡ corrupted
unfolding parse_frame alloc_frame is_body
parse_frame-cut id addr name hs c cs m line known headers declares a k =
    let f = named name (alloc_frame addr) in
    let input = begun name hs (c ∷ cs) in
    let at = 0 + (length name + 1) + lines_size hs in
    Ends-line id (length input) 0 name _ (alloc_frame addr) f _ line refl
      (frame_update-name id name _ (alloc_frame addr) refl known)
      (Ends-lines id (length input) (0 + (length name + 1)) hs (b'\n' ∷ c ∷ cs) f corrupted headers
        refl
        (subst (λ g. Ends id (length input) at (b'\n' ∷ c ∷ cs) g corrupted)
          (sym (with_headers_lem hs f))
          (Ends-blank_cut id (length input) c cs a k at _ m refl declares (
            omega (
              arith,
              length-append name (b'\n' ∷ lines hs (b'\n' ∷ c ∷ cs)),
              length-lines hs (b'\n' ∷ c ∷ cs),
            )))))
      none (suc (length input)) (omega arith)
