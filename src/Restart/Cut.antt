-- ===== src/Restart/Cut.antt =====
-- A data file in which a body crosses the end of a buffer.
use newtmq_server.Base.{ℕ, ◌+◌, length}
use newtmq_server.Receive.Roundtrip.Wire.{Message, lines_size}

abbrev pub head_size : Message → ℕ
head_size m = length m.name + 1 + lines_size m.headers + 1
