-- ===== src/Frame/Steps.antt =====
-- `frame_update` on each kind of line, with whatever follows the line in the buffer.
use newtmq_server.Base.{
  ℕ, zero, suc, ◌+◌, ◌≤◌, ◌<◌, ◌≡◌, refl, ap, append-nil, ◌∙◌, sym, inl, inr, true, false, List, [],
  ◌∷◌, ◌++◌, some, Bytes, length, drop, arith, lt→ltb, leb, ◌==◌, Bool-cases, codes, ℤ, pos,
  if◌then◌else◌, take-length_append,
}
use newtmq_server.Base.Text.Laws.{strncmp_eq-append, StartsDigit, atoi-append}
use newtmq_server.Frame.{
  Frame, LineData, born, input_header, input_body, in_bucket, more, complete, match_name,
  frame_setname, frame_names, frame_update, update_in, add_header, add_body, is_contentlen,
  get_contentlen, is_nl, stomp_setdata, ld_max,
}
use newtmq_server.Frame.Split.{IsLine}
use newtmq_server.Frame.Setdata.{stomp_setdata-one}

-- What follows a line does not change which name it begins with.
pub match_name-append :
    (line rest : Bytes) (ns : List Bytes)
    → match_name (line ++ rest) (length line) ns ≡ match_name line (length line) ns
unfolding match_name
match_name-append line rest [] = refl
match_name-append line rest (n ∷ ns) =
    ground (arith, match_name-append line rest ns, strncmp_eq-append line rest n (length n))

-- the entry for one line
abbrev pub line_data : Bytes → LineData
line_data line = record { content = line; len = length line }

pub setdata-whole :
    (line : Bytes) → length line ≤ ld_max → stomp_setdata line (length line) ≡ line_data line ∷ []
setdata-whole line h =
    ap (λ b. stomp_setdata b (length line)) (sym (append-nil line)) ∙ stomp_setdata-one line [] h

-- A header line that sets the content length has a digit behind the colon.
abbrev pub IsHeader : Bytes → Type 0
IsHeader line = IsLine line × (is_contentlen line (length line) ≡ true → StartsDigit (drop 15 line))

drop-append : (n : ℕ) (xs ys : Bytes) → n ≤ length xs → drop n (xs ++ ys) ≡ drop n xs ++ ys
drop-append zero xs ys h = refl
drop-append (suc n) [] ys h = absurd (omega arith)
drop-append (suc n) (x ∷ xs) ys h = drop-append n xs ys (omega arith)

is_contentlen-append :
    (line rest : Bytes)
    → is_contentlen (line ++ rest) (length line) ≡ is_contentlen line (length line)
unfolding is_contentlen
is_contentlen-append line rest =
    ground (arith, strncmp_eq-append line rest (codes "content-length:") 15)

is_contentlen-long : (line : Bytes) → is_contentlen line (length line) ≡ true → 15 < length line
unfolding is_contentlen
is_contentlen-long line h = ground arith

get_contentlen-append :
    (line rest : Bytes)
    → 15 < length line
    → StartsDigit (drop 15 line)
    → get_contentlen (line ++ b'\n' ∷ rest) ≡ get_contentlen line
unfolding get_contentlen
get_contentlen-append line rest h d =
    rw (drop-append 15 line (b'\n' ∷ rest) (omega arith)) (atoi-append _ rest b'\n' d refl)

-- the content length after a header line
unfoldable pub declared : ℤ → Bytes → ℤ
declared k line = if is_contentlen line (length line) then get_contentlen line else k

declared-append :
    (k : ℤ) (line rest : Bytes)
    → IsHeader line
    → (if is_contentlen (line ++ b'\n' ∷ rest) (length line)
        then get_contentlen (line ++ b'\n' ∷ rest)
        else k)
      ≡ declared k line
unfolding declared
declared-append k line rest h = elim (Bool-cases (is_contentlen line (length line))) [
  | inl e ↦
      rw (is_contentlen-append line (b'\n' ∷ rest), e)
        (get_contentlen-append line rest (is_contentlen-long line e) (h.1 e))
  | inr e ↦ rw (is_contentlen-append line (b'\n' ∷ rest), e)
]

pub length-line_pos : (line : Bytes) → IsLine line → (0 < length line) × (length line ≤ ld_max)
length-line_pos [] h = absurd h
length-line_pos (c ∷ cs) h = (omega arith, h.2)

is_nl-line : (line rest : Bytes) → IsLine line → is_nl (line ++ rest) ≡ false
unfolding is_nl
is_nl-line [] rest h = absurd h
is_nl-line (c ∷ cs) rest h = ground arith

-- the frame after a header line
abbrev pub with_header : Bytes → Frame → Frame
with_header line f = record f {
  contentlen = declared f.contentlen line;
  attrs = f.attrs ++ line_data line ∷ [];
  size = f.size + (length line + 1);
}

add_header-line :
    (line rest : Bytes) (f : Frame)
    → IsHeader line
    → add_header (line ++ b'\n' ∷ rest) (length line) f ≡ with_header line f
unfolding add_header
add_header-line line rest f h = rw (
  declared-append f.contentlen line rest h,
  stomp_setdata-one line (b'\n' ∷ rest) (length-line_pos line h.0).1,
  lt→ltb 0 (length line) (length-line_pos line h.0).0,
)

update_in-header :
    (id line rest : Bytes) (f : Frame)
    → IsHeader line
    → update_in input_header id (line ++ b'\n' ∷ rest) (length line) f ≡ (more, with_header line f)
unfolding update_in
update_in-header id line rest f h =
    ground (arith, is_nl-line line (b'\n' ∷ rest) h.0, add_header-line line rest f h)

pub frame_update-header :
    (id line rest : Bytes) (f : Frame)
    → f.status ≡ input_header
    → IsHeader line
    → frame_update id (line ++ b'\n' ∷ rest) (length line) f ≡ (more, with_header line f)
unfolding frame_update
frame_update-header id line rest f s h =
    ap (λ st. update_in st id (line ++ b'\n' ∷ rest) (length line) f) s
    ∙ update_in-header id line rest f h

frame_setname-name :
    (line rest : Bytes) (f : Frame)
    → match_name line (length line) frame_names ≡ some line
    → frame_setname (line ++ b'\n' ∷ rest) (length line) f
      ≡ some (record f { name = line; status = input_header })
unfolding frame_setname
frame_setname-name line rest f h = ground (
  arith,
  match_name-append line (b'\n' ∷ rest) frame_names,
  take-length_append line (b'\n' ∷ rest),
)

-- A line that is a command names the frame.
pub frame_update-name :
    (id line rest : Bytes) (f : Frame)
    → f.status ≡ born
    → match_name line (length line) frame_names ≡ some line
    → frame_update id (line ++ b'\n' ∷ rest) (length line) f
      ≡ (more, record f { name = line; status = input_header; size = f.size + (length line + 1) })
unfolding frame_update
frame_update-name id line rest f s h =
    ap (λ st. update_in st id (line ++ b'\n' ∷ rest) (length line) f) s
    ∙ ground (arith, frame_setname-name line rest f h)

update_in-header_alone :
    (id line : Bytes) (f : Frame)
    → IsLine line
    → update_in input_header id line (length line) f ≡ (more, with_header line f)
unfolding update_in add_header declared
update_in-header_alone id line f h = ground (
  arith,
  ap is_nl (sym (append-nil line)) ∙ is_nl-line line [] h,
  setdata-whole line (length-line_pos line h).1,
  length-line_pos line h,
)

-- A header line that was put together from two packets has nothing behind it.
pub frame_update-header_alone :
    (id line : Bytes) (f : Frame)
    → f.status ≡ input_header
    → IsLine line
    → frame_update id line (length line) f ≡ (more, with_header line f)
unfolding frame_update
frame_update-header_alone id line f s h =
    ap (λ st. update_in st id line (length line) f) s ∙ update_in-header_alone id line f h

-- the blank line behind the headers: the body begins, or the frame is complete
pub frame_update-blank :
    (id rest : Bytes) (f : Frame)
    → f.status ≡ input_header
    → (n : ℕ) → f.contentlen ≡ pos n
    → frame_update id (b'\n' ∷ rest) 0 f ≡ (
        if n == 0
        then (complete, record f { status = in_bucket; id = id; size = f.size + 1 })
        else (more, record f { status = input_body; size = f.size + 1 }))
unfolding frame_update
frame_update-blank id rest f s n k = ground arith

-- the frame after a piece of a body
abbrev pub with_piece : Bytes → Frame → Frame
with_piece piece f = record f {
  has_contentlen = f.has_contentlen + length piece;
  body = f.body ++ line_data piece ∷ [];
  size = f.size + length piece;
}

add_body-piece :
    (piece rest : Bytes) (f : Frame)
    → 0 < length piece
    → length piece ≤ ld_max
    → add_body (piece ++ rest) (length piece) f ≡ with_piece piece f
unfolding add_body
add_body-piece piece rest f h k = rw (stomp_setdata-one piece rest k, lt→ltb 0 (length piece) h)

-- A piece of a body is stored, and the frame is complete if that was enough.
pub frame_update-piece :
    (id piece rest : Bytes) (f : Frame)
    → f.status ≡ input_body
    → 0 < length piece
    → length piece ≤ ld_max
    → (n : ℕ) → f.contentlen ≡ pos n
    → frame_update id (piece ++ rest) (length piece) f ≡ (
        if leb n (f.has_contentlen + length piece)
        then (
          complete,
          record (with_piece piece f) {
            status = in_bucket;
            id = id;
            size = f.size + length piece + 1;
          },
        )
        else (more, with_piece piece f))
unfolding frame_update
frame_update-piece id piece rest f s h k n e =
    ap (λ st. update_in st id (piece ++ rest) (length piece) f) s
    ∙ ground (arith, add_body-piece piece rest f h k)
