-- ===== src/Receive/Worker/Closing.antt =====
-- A connection that closes inside a body.
use newtmq_server.Base.{ℕ, ◌+◌, List, Bytes, length, negsuc, map}
use newtmq_server.Common.{Env}
use newtmq_server.Frame.{Frame, input_body}
use newtmq_server.Frame.Steps.{line_data}
use newtmq_server.Receive.{Receiver}
use newtmq_server.Receive.Lines.{fresh}
use newtmq_server.Receive.Roundtrip.Wire.{lines_size, declared_by}

-- the frame that waits for its body
abbrev pub expecting : Env → ℕ → Receiver → Bytes → List Bytes → Frame
expecting env sock r name hs = record (fresh env sock r) {
  name = name;
  status = input_body;
  contentlen = declared_by (negsuc 0) hs;
  attrs = map line_data hs;
  size = length name + 1 + lines_size hs + 1;
}
