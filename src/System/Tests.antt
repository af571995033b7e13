-- ===== src/System/Tests.antt =====
-- The server with one connection.
use newtmq_server.Base.{[], ◌∷◌}
use newtmq_server.Common.{success}
use newtmq_server.Receive.{Receiver}
use newtmq_server.Receive.Worker.{conn_init}
use newtmq_server.Receive.Tests.{quiet}
use newtmq_server.Persistence.Tests.{empty_disk}
use newtmq_server.Protocol.{Context}
use newtmq_server.System.{System, link_of, receiver_of, received, new_link, initial, at_start}

abbrev pub calm : Context
calm = record {
  env = quiet;
  disk = empty_disk;
  conn_id = λ n. [];
  junk = [];
  callback = λ p s. (success, s);
}

abbrev pub opened : Receiver
opened = (conn_init quiet (receiver_of (initial at_start) new_link)).1

-- a connection is there
abbrev pub with_client : System
with_client = received (initial at_start) opened (link_of 4 opened ∷ [])
