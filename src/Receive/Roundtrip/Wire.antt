-- ===== src/Receive/Roundtrip/Wire.antt =====
-- What a client sends for a message, the frame that `recv_data` makes of it, and rounds of the loop.
use newtmq_server.Base.{
  length-append, ℕ, zero, suc, ◌+◌, ◌<◌, ◌≡◌, ap, List, [], ◌∷◌, ◌++◌, none, some, Bytes, length,
  All, ℤ, pos, negsuc, map, arith, if◌then◌else◌, ltb,
}
use newtmq_server.Common.{Env}
use newtmq_server.Frame.{Frame, LineData, in_bucket, match_name, frame_names, stomp_setdata}
use newtmq_server.Frame.Split.{IsLine, NotNul}
use newtmq_server.Frame.Steps.{IsHeader, declared, line_data}
use newtmq_server.Receive.{Receiver, next, done, recv_round, recv_data}
use newtmq_server.Receive.Lines.{idle, finished, next_id}

-- Rounds of the loop, each of which leaves fewer bytes, that end with `last` unread in state `q`.
pub data Reaches (env : Env) (sock : ℕ) (last : Bytes) (q : Receiver)
    : Bytes → Receiver → Type 0 where
  stop : {curr : Bytes} {r : Receiver} → curr ≡ last → r ≡ q → Reaches env sock last q curr r
  step :
      {curr rest : Bytes} {r r' : Receiver}
      → recv_round env sock curr r ≡ next r' rest
      → length rest < length curr
      → Reaches env sock last q rest r'
      → Reaches env sock last q curr r

pub record Message : Type 0 where
  pub name : Bytes
  pub headers : List Bytes
  pub body : Bytes

-- header lines in front of `rest`
abbrev pub lines : List Bytes → Bytes → Bytes
lines [] rest = rest
lines (h ∷ hs) rest = h ++ b'\n' ∷ lines hs rest

-- what a client sends for a message, in front of `rest`
abbrev pub wire : Message → Bytes → Bytes
wire m rest = m.name ++ b'\n' ∷ lines m.headers (b'\n' ∷ (m.body ++ 0 ∷ rest))

-- the start of a message: the command, the header lines, and what came of the body
abbrev pub begun : Bytes → List Bytes → Bytes → Bytes
begun name hs part = name ++ b'\n' ∷ lines hs (b'\n' ∷ part)

abbrev pub lines_size : List Bytes → ℕ
lines_size [] = 0
lines_size (h ∷ hs) = length h + 1 + lines_size hs

-- What `size` counts for the body and the NUL byte behind it: nothing, if there is no body.
abbrev pub body_size : Bytes → ℕ
body_size [] = 0
body_size (c ∷ cs) = length (c ∷ cs) + 1

abbrev pub counted_size : Message → ℕ
counted_size m = length m.name + 1 + lines_size m.headers + 1 + body_size m.body

abbrev pub declared_by : ℤ → List Bytes → ℤ
declared_by k [] = k
declared_by k (h ∷ hs) = declared_by (declared k h) hs

-- A known command, header lines, and a body without NUL whose length the headers declare.
pub record IsMessage (m : Message) : Type 0 where
  pub name_line : IsLine m.name
  pub known : match_name m.name (length m.name) frame_names ≡ some m.name
  pub header_lines : All IsHeader m.headers
  pub no_nul : All NotNul m.body
  pub declares : declared_by (negsuc 0) m.headers ≡ pos (length m.body)

abbrev pub pieces : Bytes → List LineData
pieces body = if ltb 0 (length body) then stomp_setdata body (length body) else []

-- the frame that stands in the bucket for a message
abbrev pub delivered : Env → ℕ → Receiver → Message → Frame
delivered env sock r m = record {
  addr = r.allocated;
  name = m.name;
  id = next_id env r;
  sock = sock;
  status = in_bucket;
  contentlen = pos (length m.body);
  has_contentlen = length m.body;
  attrs = map line_data m.headers;
  body = pieces m.body;
  size = counted_size m;
  cinfo = some r.conn;
  transaction_callback = none;
  transaction_data = none;
}

abbrev pub after_message : Env → ℕ → Receiver → Message → Receiver
after_message env sock r m = record (finished r (delivered env sock r m)) {
  allocated = r.allocated + 1;
}

-- With more fuel than bytes the loop gets from the start of the rounds to their end.
pub Reaches-done :
    {env : Env} {sock : ℕ} {q r : Receiver} {curr : Bytes} (fuel : ℕ)
    → length curr < fuel
    → Reaches env sock [] q curr r
    → recv_data env sock fuel curr r ≡ done q
unfolding recv_data
Reaches-done zero h s = absurd (omega arith)
Reaches-done {curr = []} (suc fuel) h (stop e e') = ap done e'
Reaches-done {curr = c ∷ cs} (suc fuel) h (stop e e') = cc
Reaches-done {curr = []} (suc fuel) h (step e l s) = absurd (omega arith)
Reaches-done {env} {sock} {curr = c ∷ cs} (suc fuel) h (step {rest} {r' = r'} e l s) =
    ground (arith, Reaches-done fuel (omega arith) s)

-- several messages, one behind the other
abbrev pub wires : List Message → Bytes
wires [] = []
wires (m ∷ ms) = wire m (wires ms)

abbrev pub after_messages : Env → ℕ → Receiver → List Message → Receiver
after_messages env sock r [] = idle r
after_messages env sock r (m ∷ ms) = after_messages env sock (after_message env sock r m) ms

pub length-behind : (line : Bytes) (c : ℕ) (rest : Bytes) → length rest < length (line ++ c ∷ rest)
length-behind [] c rest = omega arith
length-behind (x ∷ line) c rest = omega (arith, length-behind line c rest)

pub length-lines :
    (hs : List Bytes) (rest : Bytes) → length (lines hs rest) ≡ lines_size hs + length rest
length-lines [] rest = omega arith
length-lines (h ∷ hs) rest =
    omega (arith, length-append h (b'\n' ∷ lines hs rest), length-lines hs rest)

pub length-wire :
    (m : Message) (rest : Bytes)
    → length (wire m rest)
      ≡ length m.name + 1 + lines_size m.headers + 1 + length m.body + 1 + length rest
length-wire m rest = omega (
  arith,
  length-append m.name (b'\n' ∷ lines m.headers (b'\n' ∷ (m.body ++ 0 ∷ rest))),
  length-lines m.headers (b'\n' ∷ (m.body ++ 0 ∷ rest)),
  length-append m.body (0 ∷ rest),
)
