-- ===== src/Frame.antt =====
-- include/newt/frame.h, `alloc_frame` of lib/frame.c, and the functions of lib/stomp.c that turn one
-- line of input into a change of a frame. lib/frame.c holds copies of `ssplit`, `frame_setname`,
-- `get_contentlen` and `is_contentlen`.
-- A frame is a value with the address that `malloc` gave it; `linedata_t.data` is the bytes that
-- were copied in, and all behind them up to LD_MAX is zero.
pub mod Split
pub mod Setdata
pub mod Steps
use newtmq_server.Base.{
  ℕ, zero, suc, ◌+◌, ◌-◌, ◌==◌, ltb, leb, if◌then◌else◌, Bool, true, false, ◌&&◌, ◌||◌, not, List,
  [], ◌∷◌, ◌++◌, Option, none, some, Bytes, codes, length, take, drop, min, strncmp_eq, atoi, ℤ,
  pos, negsuc, ltb_ℤ, leb_ℤ,
}
use newtmq_server.Common.{Ret, success, error}

-- Each write of `frame->status` is `CLR` with at most one `SET`, so one flag at most is set.
pub data Status : Type 0 where
  cleared born input_name input_header input_body in_bucket in_queue : Status

pub record LineData : Type 0 where
  pub content : Bytes
  pub len : ℕ

pub record Frame : Type 0 where
  pub addr : ℕ
  pub name : Bytes
  pub id : Bytes
  pub sock : ℕ
  pub status : Status
  pub contentlen : ℤ
  pub has_contentlen : ℕ
  pub attrs : List LineData
  pub body : List LineData
  pub size : ℕ
  pub cinfo : Option ℕ
  pub transaction_callback : Option ℕ
  pub transaction_data : Option Bytes

abbrev pub ld_max : ℕ
ld_max = 1024

abbrev pub frame_id_len : ℕ
frame_id_len = 32

-- `malloc` gives the address and does not fail.
unfoldable pub alloc_frame : ℕ → Frame
alloc_frame addr = record {
  addr = addr;
  name = [];
  id = [];
  sock = 0;
  status = born;
  contentlen = negsuc 0;
  has_contentlen = 0;
  attrs = [];
  body = [];
  size = 0;
  cinfo = none;
  transaction_callback = none;
  transaction_data = none;
}

-- IS_BL and IS_NL of include/newt/stomp.h
unfoldable pub is_bl : Bytes → Bool
is_bl [] = true
is_bl (c ∷ cs) = c == 0

unfoldable pub is_nl : Bytes → Bool
is_nl [] = false
is_nl (c ∷ cs) = c == b'\n' || c == b'\r'

-- The do-while loop of `ssplit`: `count` bytes are passed, and the list begins at `start + count
-- + 1`, which is `end` if it is empty. The byte that is read at `end` does not change the result.
unfoldable pub scan : Bool → ℕ → Bytes → Ret × ℕ
scan is_body count [] = (error, suc count)
scan is_body count (c ∷ cs) =
    if c == 0 || (c == b'\n' && not is_body) || leb ld_max (suc count)
    then (success, suc count)
    else scan is_body (suc count) cs

-- `ssplit(start, end, &len, is_body)` on the bytes from `start` up to `end`, which are at least
-- one in every call: the return code and `*len`.
unfoldable pub ssplit : Bool → Bytes → Ret × ℕ
ssplit is_body [] = (error, 0)
ssplit is_body (c ∷ cs) =
    if is_bl (c ∷ cs) || (not is_body && is_nl (c ∷ cs)) then (success, 0) else scan is_body 0 cs

-- `finfo_arr`; the lengths beside the names are those of the names.
abbrev pub frame_names : List Bytes
frame_names =
    codes "SEND"
    ∷ codes "SUBSCRIBE"
    ∷ codes "CONNECT"
    ∷ codes "STOMP"
    ∷ codes "ACK"
    ∷ codes "BEGIN"
    ∷ codes "COMMIT"
    ∷ codes "ABORT"
    ∷ codes "NACK"
    ∷ codes "UNSUBSCRIBE"
    ∷ codes "DISCONNECT"
    ∷ []

-- The search that `frame_setname` and `is_frame_name` make: the first name that `data` begins with.
unfoldable pub match_name : Bytes → ℕ → List Bytes → Option Bytes
match_name line len [] = none
match_name line len (n ∷ ns) =
    let rest = match_name line len ns in
    if ltb len (length n) then rest else if strncmp_eq line n (length n) then some n else rest

unfoldable pub is_frame_name : Bytes → ℕ → Bool
unfolding match_name
is_frame_name line len = elim (match_name line len frame_names) [ none ↦ false | some n ↦ true ]

-- `none` is RET_ERROR. `memcpy` takes the name from the line.
unfoldable pub frame_setname : Bytes → ℕ → Frame → Option Frame
frame_setname line len frame = elim (match_name line len frame_names) [
  | none ↦ none
  | some n ↦ some (record frame { name = take (length n) line; status = input_header })
]

-- The rounds of `stomp_setdata`: `len` bytes are left, from the front of `line` on. Each round
-- but the last copies LD_MAX bytes, so `len` rounds are enough.
unfoldable pub setdata_loop : ℕ → Bytes → ℕ → List LineData
setdata_loop zero line len = []
setdata_loop (suc fuel) line len =
    let attrlen = min len ld_max in
    let rest = setdata_loop fuel (drop attrlen line) (len - attrlen) in
    record { content = take attrlen line; len = attrlen } ∷ (if ltb attrlen len then rest else [])

-- `stomp_setdata(data, len, head, lock)`, as the entries that it adds at the tail of `head`.
unfoldable pub stomp_setdata : Bytes → ℕ → List LineData
stomp_setdata line len = setdata_loop (suc len) line len

-- "content-length:" is 15 bytes long.
unfoldable pub is_contentlen : Bytes → ℕ → Bool
is_contentlen input len = ltb 15 len && strncmp_eq input (codes "content-length:") 15

-- for a number that an `int` can hold
unfoldable pub get_contentlen : Bytes → ℤ
get_contentlen input = atoi (drop 15 input)

-- `frame_finish` of lib/stomp.c up to its use of the bucket, into which `updated` and `put_in_bucket` of
-- Receive put the frame; `id` is what `gen_random` gave.
unfoldable pub frame_finish : Bytes → Frame → Frame
frame_finish id frame = record frame { status = in_bucket; id = id }

-- What `frame_update` returns: -1, 0 and 1.
pub data Update : Type 0 where
  failed more complete : Update

-- a header line of `frame_update`
unfoldable pub add_header : Bytes → ℕ → Frame → Frame
unfolding is_contentlen get_contentlen
add_header line len frame =
    let contentlen = if is_contentlen line len then get_contentlen line else frame.contentlen in
    if ltb 0 len
    then record frame {
      contentlen = contentlen;
      attrs = frame.attrs ++ stomp_setdata line len;
      size = frame.size + (len + 1);
    }
    else frame

unfoldable pub add_body : Bytes → ℕ → Frame → Frame
add_body line len frame =
    if ltb 0 len
    then record frame {
      has_contentlen = frame.has_contentlen + len;
      body = frame.body ++ stomp_setdata line len;
      size = frame.size + len;
    }
    else frame

unfoldable pub named_frame : ℕ → Frame → Option Frame → Update × Frame
named_frame len frame none = (failed, frame)
named_frame len frame (some named) = (more, record named { size = named.size + (len + 1) })

unfoldable pub update_header : Bytes → Bytes → ℕ → Frame → Update × Frame
update_header id line len frame =
    if is_nl line && ltb_ℤ (pos 0) frame.contentlen
    then (more, record frame { status = input_body; size = frame.size + 1 })
    else if is_nl line && (leb_ℤ (pos 0) frame.contentlen && leb_ℤ frame.contentlen (pos 0))
    then (complete, frame_finish id (record frame { size = frame.size + 1 }))
    else (more, add_header line len frame)

unfoldable pub finish_body : Bytes → Frame → Update × Frame
finish_body id frame =
    if leb_ℤ frame.contentlen (pos frame.has_contentlen)
    then (complete, frame_finish id (record frame { size = frame.size + 1 }))
    else (more, frame)

unfoldable pub update_in : Status → Bytes → Bytes → ℕ → Frame → Update × Frame
unfolding named_frame update_header finish_body frame_finish is_nl
update_in born id line len frame = named_frame len frame (frame_setname line len frame)
update_in input_header id line len frame = update_header id line len frame
update_in input_body id line len frame = finish_body id (add_body line len frame)
update_in _ id line len frame = (more, frame)

-- `frame_update` of lib/stomp.c on the frame of the connection; `line` is the bytes from the
-- pointer `line` on. After `complete` the frame stands in the bucket.
unfoldable pub frame_update : Bytes → Bytes → ℕ → Frame → Update × Frame
unfolding update_in
frame_update id line len frame = update_in frame.status id line len frame
