-- ===== src/Parse.antt =====
-- lib/frame.c: `parse_frame`, which reads the frames of a data file back, and what it calls. The file
-- has its own copies of `ssplit`, `frame_setname`, `get_contentlen`, `is_contentlen` and of
-- `frame_update`, whose text is that of lib/stomp.c; only `frame_finish` differs.
mod Tests
pub mod Copies
pub mod Rounds
pub mod Termination
pub mod Wire
pub mod Cut
use newtmq_server.Base.{
  ℕ, zero, suc, ◌+◌, ltb, if◌then◌else◌, Bool, true, false, ◌&&◌, ℤ, pos, ltb_ℤ, leb_ℤ, List, [],
  ◌∷◌, ◌++◌, Option, none, some, Bytes, length, drop, strncpy,
}
use newtmq_server.Common.{Ret, success, error}
use newtmq_server.Frame.{
  Frame, Status, cleared, born, input_header, input_body, Update, failed, more, complete, ssplit,
  is_nl, is_bl, frame_setname, add_header, add_body,
}

-- `frame_finish` of lib/frame.c, which puts the frame in no bucket
unfoldable pub frame_finish : Bytes → Frame → Frame
frame_finish id frame = record frame { status = cleared; id = id }

named_frame : ℕ → Frame → Option Frame → Update × Frame
named_frame len frame none = (failed, frame)
named_frame len frame (some named) = (more, record named { size = named.size + (len + 1) })

update_header : Bytes → Bytes → ℕ → Frame → Update × Frame
update_header id line len frame =
    if is_nl line && ltb_ℤ (pos 0) frame.contentlen
    then (more, record frame { status = input_body; size = frame.size + 1 })
    else if is_nl line && (leb_ℤ (pos 0) frame.contentlen && leb_ℤ frame.contentlen (pos 0))
    then (complete, frame_finish id (record frame { size = frame.size + 1 }))
    else (more, add_header line len frame)

finish_body : Bytes → Frame → Update × Frame
finish_body id frame =
    if leb_ℤ frame.contentlen (pos frame.has_contentlen)
    then (complete, frame_finish id (record frame { size = frame.size + 1 }))
    else (more, frame)

update_in : Status → Bytes → Bytes → ℕ → Frame → Update × Frame
unfolding named_frame update_header finish_body frame_finish is_nl
update_in born id line len frame = named_frame len frame (frame_setname line len frame)
update_in input_header id line len frame = update_header id line len frame
update_in input_body id line len frame = finish_body id (add_body line len frame)
update_in _ id line len frame = (more, frame)

-- `frame_update` of lib/frame.c
unfoldable pub frame_update : Bytes → Bytes → ℕ → Frame → Update × Frame
unfolding update_in
frame_update id line len frame = update_in frame.status id line len frame

-- How a call of `parse_frame` ends: with its return code, `*offset` (`none` is -1), the frame, and
-- `prev_buffer`; or memory is overwritten or read after it was freed; or the fuel ran out.
pub data Parsed : Type 0 where
  returned : Ret → Option ℕ → Frame → Option Bytes → Parsed
  corrupted running : Parsed

unfoldable pub is_body : Status → Bool
is_body input_body = true
is_body _ = false

abbrev pub held : Option Bytes → Bytes
held none = []
held (some p) = p

-- The rest of a body is kept in a block of exactly its size; `memset` writes `input_len` bytes there,
-- which are too many unless the rest is the whole input.
unfoldable pub keep_rest : ℕ → Option ℕ → Bytes → ℕ → Frame → Option Bytes → Parsed
keep_rest input_len offset curr line_len frame prev =
    if ltb line_len input_len
    then corrupted
    else returned error offset frame (some (held prev ++ strncpy curr line_len))

-- how far the next position is
unfoldable pub passed : Bool → Bytes → ℕ → ℕ
passed true line line_len = if is_bl line then line_len + 1 else line_len
passed false line line_len = line_len + 1

-- `loop` is the rest of the loop, on the position, `*offset`, the bytes and the frame.
unfoldable pub after_update :
    (ℕ → Option ℕ → Bytes → Frame → Parsed) → ℕ → Bytes → Update × Frame → Parsed
after_update loop at rest (complete, f) = returned success (some (at + 1)) f none
after_update loop at rest (_, f) = loop at (some (at + 1)) rest f

-- A line behind a kept rest: `strncpy` goes past the end of the kept block, and the block is freed
-- before the line in it is used.
unfoldable pub parse_line :
    (ℕ → Option ℕ → Bytes → Frame → Parsed) → Bytes → ℕ → Bytes → ℕ → Frame → Option Bytes → Parsed
unfolding after_update
parse_line loop id at curr line_len frame (some p) = corrupted
parse_line loop id at curr line_len frame none =
    let n = passed (is_body frame.status) curr line_len in
    after_update loop (at + n) (drop n curr) (frame_update id curr line_len frame)

unfoldable pub parse_split :
    (ℕ → Option ℕ → Bytes → Frame → Parsed)
    → Bytes
    → ℕ
    → ℕ
    → Option ℕ
    → Bytes
    → Frame
    → Option Bytes
    → Ret × ℕ
    → Parsed
unfolding parse_line
parse_split loop id input_len at offset curr frame prev (success, line_len) =
    parse_line loop id at curr line_len frame prev
parse_split loop id input_len at offset curr frame prev (error, line_len) =
    if is_body frame.status
    then keep_rest input_len offset curr line_len frame prev
    else parse_line loop id at curr line_len frame prev

-- The loop, with fuel, at the position `at` of the input; `curr` is the bytes from there up to
-- `end`. Only the first round can find a kept rest.
unfoldable pub parse_loop : ℕ → Bytes → ℕ → ℕ → Option ℕ → Bytes → Frame → Option Bytes → Parsed
unfolding parse_split
parse_loop zero id input_len at offset curr frame prev = running
parse_loop (suc fuel) id input_len at offset [] frame prev = returned error offset frame prev
parse_loop (suc fuel) id input_len at offset (c ∷ cs) frame prev =
    parse_split (λ at' offset' rest f. parse_loop fuel id input_len at' offset' rest f none) id
      input_len at offset (c ∷ cs) frame prev (ssplit (is_body frame.status) (c ∷ cs))

-- `parse_frame(frame, input, input_len, &offset)`; `id` is what `gen_random` gives if the frame ends.
unfoldable pub parse_frame : Bytes → Frame → Bytes → Option Bytes → Parsed
parse_frame id frame input prev =
    parse_loop (suc (length input)) id (length input) 0 none input frame prev
