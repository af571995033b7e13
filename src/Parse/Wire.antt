-- ===== src/Parse/Wire.antt =====
-- `parse_frame` reads a message that stands whole in its input.
use newtmq_server.Base.{
  ℕ, suc, ◌+◌, ◌≤◌, ◌≡◌, refl, ap, sym, ◌∙◌, subst, true, false, List, [], ◌∷◌, ◌++◌, none, some,
  Bytes, length, arith, All, pos, negsuc, map,
}
use newtmq_server.Common.{success}
use newtmq_server.Frame.{
  Frame, Status, cleared, input_header, input_body, born, in_bucket, is_bl, Update, more, complete,
  ssplit, alloc_frame, ld_max, match_name, frame_names,
}
use newtmq_server.Frame as Stomp
use newtmq_server.Frame.Split.{IsLine, NotNul, ssplit-line, ssplit-body}
use newtmq_server.Frame.Steps.{
  IsHeader, line_data, with_header, frame_update-name, frame_update-header, frame_update-blank,
}
use newtmq_server.Receive.Lines.{drop-line, ssplit-newline}
use newtmq_server.Receive.Roundtrip.Wire.{
  Message, IsMessage, lines, lines_size, wire, counted_size, pieces, declared_by, length-wire,
  length-behind,
}
use newtmq_server.Receive.Roundtrip.Frames.{
  with_headers, with_headers_lem, completed, last_piece, behind_blank, named, blank_more,
  empty_frame, full_frame,
}
use newtmq_server.Parse.{Parsed, returned, parse_frame, passed, is_body}
use newtmq_server.Parse.Copies.{frame_update-unbucketed, unbucketed}
use newtmq_server.Parse.Rounds.{Ends, Ends-more, Ends-complete}

-- the frame that is read for a message
abbrev pub restored : ℕ → Bytes → Message → Frame
restored addr id m = record {
  addr = addr;
  name = m.name;
  id = id;
  sock = 0;
  status = cleared;
  contentlen = pos (length m.body);
  has_contentlen = length m.body;
  attrs = map line_data m.headers;
  body = pieces m.body;
  size = counted_size m;
  cinfo = none;
  transaction_callback = none;
  transaction_data = none;
}

abbrev done_with : Frame → Frame
done_with f = record f { status = cleared }

pub is_body-header : (f : Frame) → f.status ≡ input_header → is_body f.status ≡ false
unfolding is_body
is_body-header f s = ap is_body s

passed-body :
    (c : ℕ) (cs junk : Bytes)
    → All NotNul (c ∷ cs)
    → passed true ((c ∷ cs) ++ 0 ∷ junk) (length (c ∷ cs)) ≡ length (c ∷ cs)
unfolding passed is_bl
passed-body c cs junk a = ground arith

-- the frame behind the header lines of a message
abbrev headed : ℕ → Message → Frame
headed addr m = record (named m.name (alloc_frame addr)) {
  contentlen = declared_by (negsuc 0) m.headers;
  attrs = map line_data m.headers;
  size = 0 + (length m.name + 1) + lines_size m.headers;
}

message_end :
    (id : Bytes) (addr : ℕ) (m : Message)
    → returned success
        (some (0 + (length m.name + 1) + lines_size m.headers + length m.body + 2))
        (done_with (behind_blank id m.body (headed addr m)))
        none
      ≡ returned success (some (length (wire m []))) (restored addr id m) none
unfolding alloc_frame
message_end id addr m = ground (arith, length-wire m [])

module _ (id : Bytes) (n : ℕ) where
  pub Ends-line :
      (at : ℕ) (line rest : Bytes) (f f' : Frame) (res : Parsed)
      → IsLine line
      → is_body f.status ≡ false
      → Stomp.frame_update id (line ++ b'\n' ∷ rest) (length line) f ≡ (more, f')
      → Ends id n (at + (length line + 1)) rest f' res
      → Ends id n at (line ++ b'\n' ∷ rest) f res
  unfolding passed
  Ends-line at [] rest f f' res h b u e = absurd h
  Ends-line at (c ∷ cs) rest f f' res h b u e =
      Ends-more id n at c (cs ++ b'\n' ∷ rest) f (length (c ∷ cs)) (length (c ∷ cs) + 1) rest f' res
        (ap (λ x. ssplit x ((c ∷ cs) ++ b'\n' ∷ rest)) b ∙ ssplit-line (c ∷ cs) rest h)
        (ap (λ x. passed x ((c ∷ cs) ++ b'\n' ∷ rest) (length (c ∷ cs))) b)
        (drop-line (c ∷ cs) b'\n' rest) (length-behind (c ∷ cs) b'\n' rest)
        (frame_update-unbucketed id _ _ f ∙ ap unbucketed u) e

  pub Ends-lines :
      (at : ℕ) (hs : List Bytes) (rest : Bytes) (f : Frame) (res : Parsed)
      → All IsHeader hs
      → f.status ≡ input_header
      → Ends id n (at + lines_size hs) rest (with_headers hs f) res
      → Ends id n at (lines hs rest) f res
  Ends-lines at [] rest f res h s e =
      subst (λ k. Ends id n k rest f res) {x = at + 0} {y = at} (omega arith) e
  Ends-lines at (l ∷ hs) rest f res h s e =
      Ends-line at l (lines hs rest) f (with_header l f) res h.0.0 (is_body-header f s)
        (frame_update-header id l (lines hs rest) f s h.0)
        (Ends-lines (at + (length l + 1)) hs rest (with_header l f) res h.1 s
          (subst (λ k. Ends id n k rest (with_headers hs (with_header l f)) res) (omega arith) e))

  Ends-body :
      (at c : ℕ) (cs junk : Bytes) (f : Frame)
      → All NotNul (c ∷ cs)
      → length (c ∷ cs) ≤ ld_max
      → f.status ≡ input_body
      → f.contentlen ≡ pos (f.has_contentlen + length (c ∷ cs))
      → (to : ℕ) → at + length (c ∷ cs) + 1 ≡ to
      → Ends id n at
          ((c ∷ cs) ++ 0 ∷ junk)
          f
          (returned success (some to) (done_with (completed id (c ∷ cs) f)) none)
  unfolding passed is_body
  Ends-body at c cs junk f a k s e to t =
      subst
        (λ x.
          Ends id n at ((c ∷ cs) ++ 0 ∷ junk) f
            (returned success (some x) (done_with (completed id (c ∷ cs) f)) none))
        t
        (Ends-complete id n at c (cs ++ 0 ∷ junk) f (length (c ∷ cs)) (length (c ∷ cs)) _
          (ap (λ x. ssplit (is_body x) ((c ∷ cs) ++ 0 ∷ junk)) s ∙ ssplit-body c cs junk a k)
          (ap (λ x. passed (is_body x) ((c ∷ cs) ++ 0 ∷ junk) (length (c ∷ cs))) s
            ∙ passed-body c cs junk a)
          (frame_update-unbucketed id _ _ f ∙ ap unbucketed (last_piece id c cs junk f s e k)))

  -- from the blank line on
  Ends-blank :
      (at : ℕ) (body junk : Bytes) (f : Frame)
      → All NotNul body
      → length body ≤ ld_max
      → f.status ≡ input_header
      → f.contentlen ≡ pos (length body)
      → f.has_contentlen ≡ 0
      → f.body ≡ []
      → Ends id n at
          (b'\n' ∷ (body ++ 0 ∷ junk))
          f
          (returned success (some (at + length body + 2)) (done_with (behind_blank id body f)) none)
  unfolding passed is_body
  Ends-blank at [] junk f a k s e z o =
      subst
        (λ g.
          Ends id n at (b'\n' ∷ 0 ∷ junk) f
            (returned success (some (at + 0 + 2)) (done_with g) none))
        (sym (empty_frame id f e z o))
        (subst
          (λ k. Ends id n at (b'\n' ∷ 0 ∷ junk) f (
            returned success (some k)
              (done_with (record f { status = in_bucket; id = id; size = f.size + 1 })) none))
          {x = at + 1 + 1} {y = at + 0 + 2} (omega arith)
          (Ends-complete id n at b'\n' (0 ∷ junk) f 0 1 _
            (ap (λ x. ssplit x (b'\n' ∷ 0 ∷ junk)) (is_body-header f s) ∙ ssplit-newline (0 ∷ junk))
            (ap (λ x. passed x (b'\n' ∷ 0 ∷ junk) 0) (is_body-header f s))
            (frame_update-unbucketed id _ _ f
              ∙ ap unbucketed (frame_update-blank id (0 ∷ junk) f s 0 e))))
  Ends-blank at (c ∷ cs) junk f a k s e z o =
      let g : Frame = record f { status = input_body; size = f.size + 1 } in
      let res : Frame → Parsed =
        λ h. returned success (some (at + length (c ∷ cs) + 2)) (done_with h) none in
      subst (λ h. Ends id n at (b'\n' ∷ ((c ∷ cs) ++ 0 ∷ junk)) f (res h))
        (sym (full_frame id c cs f e z o))
        (Ends-more id n at b'\n' ((c ∷ cs) ++ 0 ∷ junk) f 0 1 ((c ∷ cs) ++ 0 ∷ junk) g _
          (ap (λ x. ssplit x (b'\n' ∷ ((c ∷ cs) ++ 0 ∷ junk))) (is_body-header f s)
            ∙ ssplit-newline _)
          (ap (λ x. passed x (b'\n' ∷ ((c ∷ cs) ++ 0 ∷ junk)) 0) (is_body-header f s)) refl
          (omega arith)
          (frame_update-unbucketed id _ _ f
            ∙ ap unbucketed (blank_more id ((c ∷ cs) ++ 0 ∷ junk) f s (length cs) e))
          (Ends-body (at + 1) c cs junk g a k refl (e ∙ ap pos (omega arith)) _ (omega arith)))

  Ends-message :
      (addr : ℕ) (m : Message) (junk : Bytes)
      → IsMessage m
      → length m.body ≤ ld_max
      → Ends id n 0
          (wire m junk)
          (alloc_frame addr)
          (returned success (some (length (wire m []))) (restored addr id m) none)
  unfolding alloc_frame is_body
  Ends-message addr m junk v k =
      let f = named m.name (alloc_frame addr) in
      let at = 0 + (length m.name + 1) + lines_size m.headers in
      let res = returned success (some (length (wire m []))) (restored addr id m) none in
      Ends-line 0 m.name _ (alloc_frame addr) f _ v.name_line refl
        (frame_update-name id m.name _ (alloc_frame addr) refl v.known)
        (Ends-lines (0 + (length m.name + 1)) m.headers (b'\n' ∷ (m.body ++ 0 ∷ junk)) f _
          v.header_lines refl
          (subst (λ g. Ends id n at (b'\n' ∷ (m.body ++ 0 ∷ junk)) g res)
            (sym (with_headers_lem m.headers f))
            (subst (λ r. Ends id n at (b'\n' ∷ (m.body ++ 0 ∷ junk)) (headed addr m) r)
              (message_end id addr m)
              (Ends-blank at m.body junk (headed addr m) v.no_nul k refl v.declares refl refl))))

-- A message of at most 1024 bytes of body that stands at the start of the input, whatever follows it,
-- is read whole by one call, which reports the position behind its NUL.
pub parse_frame-wire :
    (id : Bytes) (addr : ℕ) (m : Message) (junk : Bytes)
    → IsMessage m
    → length m.body ≤ ld_max
    → parse_frame id (alloc_frame addr) (wire m junk) none
      ≡ returned success (some (length (wire m []))) (restored addr id m) none
unfolding parse_frame
parse_frame-wire id addr m junk v k =
    Ends-message id (length (wire m junk)) addr m junk v k none (suc (length (wire m junk)))
      (omega arith)
