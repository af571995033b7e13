-- ===== src/Receive/Roundtrip/Frames.antt =====
-- The frames between the lines of a message.
use newtmq_server.Base.{
  ℕ, zero, suc, ◌+◌, ◌≤◌, ◌<◌, ◌≡◌, ap, ◌∙◌, sym, true, List, [], ◌∷◌, ◌++◌, Bytes, length, All,
  pos, map, arith, length-append, drop, take, take-append-drop, length-take, length-drop,
  append-nil, append_assoc,
}
use newtmq_server.Common.{success}
use newtmq_server.Frame.{
  Frame, in_bucket, input_header, input_body, more, complete, ssplit, frame_update, stomp_setdata,
  ld_max,
}
use newtmq_server.Frame.Split.{NotNul, ssplit-body_full}
use newtmq_server.Frame.Steps.{
  line_data, with_header, with_piece, frame_update-blank, frame_update-piece, setdata-whole,
}
use newtmq_server.Frame.Setdata.{stomp_setdata-long}
use newtmq_server.Receive.Roundtrip.Wire.{lines_size, body_size, declared_by, pieces}

abbrev pub with_headers : List Bytes → Frame → Frame
with_headers [] f = f
with_headers (h ∷ hs) f = with_headers hs (with_header h f)

pub with_headers_lem :
    (hs : List Bytes) (f : Frame)
    → with_headers hs f ≡ record f {
      contentlen = declared_by f.contentlen hs;
      attrs = f.attrs ++ map line_data hs;
      size = f.size + lines_size hs;
    }
with_headers_lem [] f = ground (arith, append-nil f.attrs)
with_headers_lem (h ∷ hs) f =
    with_headers_lem hs (with_header h f)
    ∙ ground (arith, append_assoc f.attrs (line_data h ∷ []) (map line_data hs))

-- the frame after the rest of its body
abbrev pub completed : Bytes → Bytes → Frame → Frame
completed id body f = record f {
  status = in_bucket;
  id = id;
  has_contentlen = f.has_contentlen + length body;
  body = f.body ++ stomp_setdata body (length body);
  size = f.size + length body + 1;
}

pub last_piece :
    (id : Bytes) (c : ℕ) (cs rest : Bytes) (f : Frame)
    → f.status ≡ input_body
    → f.contentlen ≡ pos (f.has_contentlen + length (c ∷ cs))
    → length (c ∷ cs) ≤ ld_max
    → frame_update id ((c ∷ cs) ++ 0 ∷ rest) (length (c ∷ cs)) f
      ≡ (complete, completed id (c ∷ cs) f)
last_piece id c cs rest f s e short =
    frame_update-piece id (c ∷ cs) (0 ∷ rest) f s (omega arith) short _ e
    ∙ ground (arith, setdata-whole (c ∷ cs) short)

All-drop : (n : ℕ) (xs : Bytes) → All NotNul xs → All NotNul (drop n xs)
All-drop zero xs h = h
All-drop (suc n) [] h = h
All-drop (suc n) (x ∷ xs) h = All-drop n xs h.1

-- `body` begins with a full piece
pub record Long (body piece later : Bytes) : Type 0 where
  pub parts : piece ++ later ≡ body
  pub full : length piece ≡ ld_max
  pub left : 0 < length later
  pub split : (rest : Bytes) → ssplit true (piece ++ (later ++ rest)) ≡ (success, length piece)
  pub stored :
      stomp_setdata body (length body) ≡ line_data piece ∷ stomp_setdata later (length later)
  pub clean : All NotNul later

pub Long-take :
    (c : ℕ) (cs : Bytes)
    → All NotNul (c ∷ cs)
    → ld_max < length (c ∷ cs)
    → Long (c ∷ cs) (take ld_max (c ∷ cs)) (drop ld_max (c ∷ cs))
Long-take c cs h k = record {
  parts = parted;
  full = sized;
  left = omega (arith, length-drop ld_max (c ∷ cs));
  split = λ rest.
      ap (ssplit true) (sym (append_assoc (take ld_max (c ∷ cs)) (drop ld_max (c ∷ cs)) rest))
      ∙ (ap (λ b. ssplit true (b ++ rest)) parted
          ∙ (ssplit-body_full c cs rest h k ∙ ap (λ n. (success, n)) (sym sized)));
  stored =
      stomp_setdata-long (c ∷ cs) (length (c ∷ cs)) k ∙ rw (sized, length-drop ld_max (c ∷ cs));
  clean = All-drop ld_max (c ∷ cs) h;
}
  where
    parted : take ld_max (c ∷ cs) ++ drop ld_max (c ∷ cs) ≡ c ∷ cs
    parted = take-append-drop ld_max (c ∷ cs)

    sized : length (take ld_max (c ∷ cs)) ≡ ld_max
    sized = omega (arith, length-take ld_max (c ∷ cs))

-- the frame after the blank line and the body
abbrev pub behind_blank : Bytes → Bytes → Frame → Frame
behind_blank id body f = record f {
  status = in_bucket;
  id = id;
  contentlen = pos (length body);
  has_contentlen = length body;
  body = pieces body;
  size = f.size + 1 + body_size body;
}

-- the frame after its command
abbrev pub named : Bytes → Frame → Frame
named name f = record f { name = name; status = input_header; size = f.size + (length name + 1) }

pub blank_more :
    (id rest : Bytes) (f : Frame)
    → f.status ≡ input_header
    → (n : ℕ) → f.contentlen ≡ pos (suc n)
    → frame_update id (b'\n' ∷ rest) 0 f
      ≡ (more, record f { status = input_body; size = f.size + 1 })
blank_more id rest f s n e = frame_update-blank id rest f s (suc n) e ∙ ground arith

pub empty_frame :
    (id : Bytes) (f : Frame)
    → f.contentlen ≡ pos 0
    → f.has_contentlen ≡ 0
    → f.body ≡ []
    → behind_blank id [] f ≡ record f { status = in_bucket; id = id; size = f.size + 1 }
empty_frame id f e z n = ground arith

pub full_frame :
    (id : Bytes) (c : ℕ) (cs : Bytes) (f : Frame)
    → f.contentlen ≡ pos (length (c ∷ cs))
    → f.has_contentlen ≡ 0
    → f.body ≡ []
    → behind_blank id (c ∷ cs) f
      ≡ completed id (c ∷ cs) (record f { status = input_body; size = f.size + 1 })
full_frame id c cs f e z n = ground arith

module _ {body piece later : Bytes} where
  pub behind_parts :
      Long body piece later → (rest : Bytes) → piece ++ (later ++ rest) ≡ body ++ rest
  behind_parts l rest = sym (append_assoc piece later rest) ∙ ap (λ b. b ++ rest) l.parts

  length-parts : Long body piece later → length body ≡ length piece + length later
  length-parts l = ap length (sym l.parts) ∙ length-append piece later

  pub more_piece :
      (id rest : Bytes)
      → Long body piece later
      → (f : Frame) → f.status ≡ input_body
      → f.contentlen ≡ pos (f.has_contentlen + length body)
      → frame_update id (piece ++ (later ++ rest)) (length piece) f ≡ (more, with_piece piece f)
  more_piece id rest l f s e =
      frame_update-piece id piece (later ++ rest) f s (omega (arith, l.full))
        (omega (arith, l.full)) _ e
      ∙ ground (arith, length-parts l, l.left)

  pub completed-parts :
      (id : Bytes)
      → Long body piece later
      → (f : Frame) → completed id body f ≡ completed id later (with_piece piece f)
  completed-parts id l f = ground (
    arith,
    length-parts l,
    l.stored,
    append_assoc f.body (line_data piece ∷ []) (stomp_setdata later (length later)),
  )
