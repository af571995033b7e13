-- ===== src/System/Committing/Tests.antt =====
-- A client opens a transaction, sends a frame in it, and commits it.
use newtmq_server.Base.{
  suc, inl, [], ◌∷◌, List, Bytes, codes, none, some, ◌≡◌, refl, ap, arith, length,
}
use newtmq_server.Base.Text.{strncmp_eq, strlen, atoi, c_string}
use newtmq_server.Base.Last.{any, find_last, update_last}
use newtmq_server.Frame.{Frame, LineData, match_name, is_contentlen, get_contentlen}
use newtmq_server.Frame.Steps.{declared, line_data}
use newtmq_server.Receive.{Receiver, take_frame}
use newtmq_server.Receive.Roundtrip.{recv_data-wires}
use newtmq_server.Receive.Roundtrip.Wire.{
  Message, IsMessage, wires, after_message, after_messages, delivered,
}
use newtmq_server.Receive.Worker.{conn_init}
use newtmq_server.Receive.Tests.{quiet}
use newtmq_server.Restart.{unpersist}
use newtmq_server.Transaction.{get_transaction, transaction_add, add_to}
use newtmq_server.Transaction.Lifecycle.{opened}
use newtmq_server.Protocol.{Server, Result}
use newtmq_server.Protocol.Dispatch.{handle_frame}
use newtmq_server.Protocol.Publishing.{destination_line}
use newtmq_server.Protocol.Transactional.{
  IsBoundary, IsTransactional, transaction_line, with_queue, with_transactions, begun,
  handle_frame-begin, handle_frame-transaction,
}
use newtmq_server.System.{
  System, link_of, received, accepted, took, managed, Reachable, started, step, initial, at_start,
  management_turn, manage, managed_by,
}
use newtmq_server.System.Tests.{calm, opened as with_connection, with_client}
use newtmq_server.System.Committing.{Reachable-commit_running}

abbrev in_transaction : Bytes → Message
in_transaction name = record {
  name = name;
  headers = codes "transaction:t1" ∷ codes "content-length:0" ∷ [];
  body = [];
}

abbrev publication : Message
publication = record {
  name = codes "SEND";
  headers = codes "destination:/q" ∷ codes "transaction:t1" ∷ codes "content-length:2" ∷ [];
  body = codes "hi";
}

beginning-IsMessage : IsMessage (in_transaction (codes "BEGIN"))
unfolding match_name strncmp_eq is_contentlen declared get_contentlen atoi
beginning-IsMessage = record {
  name_line = ground arith;
  known = refl;
  header_lines = ground arith;
  no_nul = ground arith;
  declares = refl;
}

committing-IsMessage : IsMessage (in_transaction (codes "COMMIT"))
unfolding match_name strncmp_eq is_contentlen declared get_contentlen atoi
committing-IsMessage = record {
  name_line = ground arith;
  known = refl;
  header_lines = ground arith;
  no_nul = ground arith;
  declares = refl;
}

publication-IsMessage : IsMessage publication
unfolding match_name strncmp_eq is_contentlen declared get_contentlen atoi
publication-IsMessage = record {
  name_line = ground arith;
  known = refl;
  header_lines = ground arith;
  no_nul = ground arith;
  declares = refl;
}

abbrev messages : List Message
messages = in_transaction (codes "BEGIN") ∷ publication ∷ in_transaction (codes "COMMIT") ∷ []

abbrev sent : Receiver
sent = after_messages quiet 4 with_connection messages

abbrev with_messages : System
with_messages = received with_client sent (link_of 4 sent ∷ [])

abbrev beginning : Frame
beginning = delivered quiet 4 with_connection (in_transaction (codes "BEGIN"))

abbrev after_first : Receiver
after_first = after_message quiet 4 with_connection (in_transaction (codes "BEGIN"))

abbrev publishing : Frame
publishing = delivered quiet 4 after_first publication

abbrev committing : Frame
committing =
    delivered quiet 4 (after_message quiet 4 after_first publication)
      (in_transaction (codes "COMMIT"))

abbrev no_body : LineData
no_body = line_data (codes "content-length:0")

beginning-IsBoundary : IsBoundary (codes "BEGIN") beginning (codes "t1")
unfolding strncmp_eq strlen conn_init
beginning-IsBoundary = record {
  before = [];
  after = no_body ∷ [];
  named = refl;
  lines = refl;
  plain_before = tt;
  plain_after = ((refl, tt), tt);
}

committing-IsBoundary : IsBoundary (codes "COMMIT") committing (codes "t1")
unfolding strncmp_eq strlen conn_init
committing-IsBoundary = record {
  before = [];
  after = no_body ∷ [];
  named = refl;
  lines = refl;
  plain_before = tt;
  plain_after = ((refl, tt), tt);
}

publishing-IsTransactional : IsTransactional publishing (codes "/q") (codes "t1") 0
unfolding strncmp_eq strlen conn_init
publishing-IsTransactional = record {
  before = [];
  between = [];
  after = line_data (codes "content-length:2") ∷ [];
  first = destination_line (codes "/q");
  second = transaction_line (codes "t1");
  named = refl;
  connected = refl;
  lines = refl;
  order = inl (refl, refl);
  plain_before = tt;
  plain_between = tt;
  plain_after = ((refl, (refl, (refl, (refl, tt)))), tt);
}

abbrev open_server : Server
open_server = begun calm beginning (codes "t1") with_messages.server

abbrev with_transaction : System
with_transaction = record with_messages {
  server = open_server;
  bucket = publishing ∷ committing ∷ [];
}

abbrev filled_server : Server
filled_server =
    with_transactions
      (transaction_add (codes "t1") (with_queue (codes "/q") publishing) open_server.transactions).1
      open_server

abbrev filled : System
filled = record with_transaction { server = filled_server; bucket = committing ∷ [] }

management_turn-begin : management_turn 1 calm with_messages ≡ some with_transaction
unfolding management_turn manage managed_by take_frame conn_init strlen get_transaction find_last
    any
management_turn-begin = ap (managed_by with_messages (publishing ∷ committing ∷ [])) (
    handle_frame-begin 1 calm beginning with_messages.server (codes "t1") beginning-IsBoundary
      (omega arith) refl (omega arith))

management_turn-send : management_turn 1 calm with_transaction ≡ some filled
unfolding management_turn manage managed_by take_frame conn_init
management_turn-send = ap (managed_by with_transaction (committing ∷ [])) (
    handle_frame-transaction 1 calm publishing open_server (codes "/q") (codes "t1") 0
      publishing-IsTransactional)

filled-Reachable : Reachable calm filled
unfolding unpersist conn_init
filled-Reachable =
    step
      (step
        (step
          (step (started [] [] at_start refl) (accepted (initial at_start) 4 with_connection refl))
          (took with_client [] [] (link_of 4 with_connection) _ _ _ refl (
            recv_data-wires quiet 4 (suc (length (wires messages))) messages with_connection
              (beginning-IsMessage, (publication-IsMessage, (committing-IsMessage, tt)))
              (omega arith))))
        (managed with_messages with_transaction 1 management_turn-begin))
      (managed with_transaction filled 1 management_turn-send)

Reachable-commit_running_example :
    (handle_frame 9 calm committing filled_server ≡ Result.running)
    × (management_turn 9 calm filled ≡ none)
unfolding get_transaction find_last any strncmp_eq strlen transaction_add add_to update_last
    conn_init c_string
Reachable-commit_running_example =
    Reachable-commit_running 9 committing (with_queue (codes "/q") publishing) [] [] (codes "t1")
      (opened [] (codes "t1") (with_queue (codes "/q") publishing ∷ [])) filled-Reachable refl
      committing-IsBoundary (omega arith) refl refl
