-- ===== src/Receive.antt =====
-- `recv_data` of lib/stomp.c: the loop that cuts the bytes of one `recv` into lines, keeps an
-- unfinished line for the next call, and moves finished frames to the bucket.
-- The connection is owned by one thread; only the bucket is shared, and `frame_finish` appends to
-- it under its lock.
pub mod Tests
pub mod Totality
pub mod Buffering
pub mod Bodies
pub mod Worker
pub mod Lines
pub mod Roundtrip
use newtmq_server.Base.{
  ℕ, zero, suc, ◌+◌, ◌-◌, ◌*◌, ◌==◌, ltb, leb, if◌then◌else◌, Bool, true, false, ◌&&◌, ◌||◌, not,
  List, [], ◌∷◌, ◌++◌, Option, none, some, Bytes, codes, length, take, drop, strncpy,
}
use newtmq_server.Common.{Ret, success, error, Env, gen_random}
use newtmq_server.Connection.{Wire, stomp_send_error}
use newtmq_server.Frame.{
  Frame, Status, input_body, Update, failed, more, complete, alloc_frame, ssplit, is_frame_name,
  frame_update, ld_max, frame_id_len,
}

-- `prev_data`: its first `prev_len` bytes, and the size of the allocation.
pub record Pending : Type 0 where
  pub bytes : Bytes
  pub cap : ℕ

-- `stomp_conninfo_t` at address `conn` with the bucket, the log of what was sent, and how many
-- values of `rand` and addresses of `malloc` are used up.
pub record Receiver : Type 0 where
  pub conn : ℕ
  pub frame : Option Frame
  pub prev : Option Pending
  pub bucket : List Frame
  pub sent : Wire
  pub draws : ℕ
  pub allocated : ℕ

unfoldable pub is_input_body : Option Frame → Bool
is_input_body none = false
is_input_body (some f) = elim f.status [ input_body ↦ true | _ ↦ false ]

-- `realloc(prev_data, prev_len + LD_MAX)` or `malloc(LD_MAX * 2)`, then `strncpy`.
unfoldable pub stash : Option Pending → Bytes → ℕ → Pending
stash none curr line_len = record { bytes = strncpy curr line_len; cap = ld_max * 2 }
stash (some p) curr line_len = record {
  bytes = p.bytes ++ strncpy curr line_len;
  cap = length p.bytes + ld_max;
}

-- The pointer `line` and `line_len`, or `none` where the copy behind `prev_data`, with its NUL,
-- goes past the end of the allocation.
unfoldable pub merge : Option Pending → Bytes → ℕ → Option (Bytes × ℕ)
merge none curr line_len = some (curr, line_len)
merge (some p) curr line_len =
    if ltb (length p.bytes + line_len) p.cap
    then some (p.bytes ++ strncpy curr line_len, length p.bytes + line_len)
    else none

unfoldable pub prepare_frame : Option Frame → ℕ → ℕ → ℕ → Frame
prepare_frame (some f) conn sock addr = f
prepare_frame none conn sock addr = record (alloc_frame addr) { sock = sock; cinfo = some conn }

-- how many addresses are used after `prepare_frame`
unfoldable pub allocated_after : Option Frame → ℕ → ℕ
allocated_after none n = n + 1
allocated_after (some f) n = n

-- After `frame_update`: a complete frame is in the bucket, a refused one is answered and kept.
unfoldable pub updated : Env → ℕ → Receiver → Update × Frame → Receiver
updated env sock r (complete, f) = record r {
  frame = none;
  bucket = r.bucket ++ f ∷ [];
  draws = r.draws + (frame_id_len - 1);
}
updated env sock r (more, f) = record r { frame = some f }
updated env sock r (failed, f) = record r {
  frame = some f;
  sent = stomp_send_error env sock (codes "failed to parse frame") r.sent;
}

unfoldable pub is_complete : Update → Bool
is_complete complete = true
is_complete _ = false

-- The body of the loop: `break`, the next position, or a write past the end of `prev_data`.
pub data Round : Type 0 where
  stopped : Receiver → Round
  next : Receiver → Bytes → Round
  overflow : Round

-- neither `cinfo->frame != NULL` nor `line_len > 0`
unfoldable pub is_skipped : Option Frame → ℕ → Bool
is_skipped none n = n == 0
is_skipped (some f) n = false

-- the part of the round that handles a line
unfoldable pub take_line : Env → ℕ → Bytes → ℕ → Receiver → Update × Receiver
unfolding prepare_frame allocated_after updated is_skipped
take_line env sock line line_len r = elim (is_skipped r.frame line_len) [
  | true ↦ (more, r)
  | false ↦
      let u =
        frame_update (gen_random env r.draws frame_id_len) line line_len
          (prepare_frame r.frame r.conn sock r.allocated) in
      let r' = record r { allocated = allocated_after r.frame r.allocated } in
      (u.0, updated env sock r' u)
]

-- the round, once `ssplit` has found a line
unfoldable pub handle_line : Env → ℕ → Bytes → ℕ → Receiver → Option (Bytes × ℕ) → Round
handle_line env sock curr line_len r none = overflow
handle_line env sock curr line_len r (some (line, len)) =
    let in_body = is_input_body r.frame in
    let after = if in_body then line_len else line_len + 1 in
    let (result, r') = take_line env sock line len r in
    let behind = if is_complete result && in_body then after + 1 else after in
    next (record r' { prev = none }) (drop behind curr)

unfoldable pub split_round : Env → ℕ → Bytes → Receiver → Ret × ℕ → Round
split_round env sock curr r (success, line_len) =
    handle_line env sock curr line_len r (merge r.prev curr line_len)
split_round env sock curr r (error, line_len) =
    if is_frame_name curr line_len
    then handle_line env sock curr line_len r (merge r.prev curr line_len)
    else stopped (record r { prev = some (stash r.prev curr line_len) })

unfoldable pub recv_round : Env → ℕ → Bytes → Receiver → Round
unfolding handle_line split_round
recv_round env sock curr r = split_round env sock curr r (ssplit (is_input_body r.frame) curr)

-- `get_frame_from_bucket`: the oldest frame, or NULL
unfoldable pub take_frame : List Frame → Option Frame × List Frame
take_frame [] = (none, [])
take_frame (f ∷ fs) = (some f, fs)

unfoldable pub get_frame_from_bucket : Receiver → Option Frame × Receiver
unfolding take_frame
get_frame_from_bucket r =
    let (frame, frames) = take_frame r.bucket in (frame, record r { bucket = frames })

-- How a call of `recv_data` ends; `running` means that the fuel ran out.
pub data Outcome : Type 0 where
  done : Receiver → Outcome
  corrupted : Outcome
  running : Outcome

-- the loop after a round
unfoldable pub resume : (Bytes → Receiver → Outcome) → Round → Outcome
resume loop (stopped r) = done r
resume loop (next r rest) = loop rest r
resume loop overflow = corrupted

-- `while(curr < end)`, with fuel for its rounds.
unfoldable pub recv_data : Env → ℕ → ℕ → Bytes → Receiver → Outcome
unfolding resume
recv_data env sock zero curr r = running
recv_data env sock (suc fuel) [] r = done r
recv_data env sock (suc fuel) (c ∷ cs) r =
    resume (recv_data env sock fuel) (recv_round env sock (c ∷ cs) r)
