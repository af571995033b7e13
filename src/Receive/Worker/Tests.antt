-- ===== src/Receive/Worker/Tests.antt =====
-- Runs of the thread of a connection.
use newtmq_server.Base.{◌≡◌, [], ◌∷◌, ◌++◌, some, none, codes, refl, arith, List, Option, pos}
use newtmq_server.Base.Text.{strncmp_eq}
use newtmq_server.Frame.{alloc_frame, input_body, match_name, is_frame_name}
use newtmq_server.Receive.{recv_data, done}
use newtmq_server.Receive.Lines.{reading}
use newtmq_server.Receive.Buffering.{holding}
use newtmq_server.Receive.Bodies.{recv_data-two_packets_body}
use newtmq_server.Receive.Roundtrip.Wire.{Message, after_messages}
use newtmq_server.Receive.Tests.{quiet, connected, greeting, greeting-IsMessage}
use newtmq_server.Receive.Worker.{conn_init}
use newtmq_server.Receive.Worker.Delivery.{arrivals, sent_messages}
use newtmq_server.Receive.Worker.Serving.{
  connection_co_worker, stomp_handler, connection_co_worker-batches,
}

-- two messages in one packet, an error of `recv`, and one more message
abbrev batches : List (Option (List Message))
batches = some (greeting ∷ greeting ∷ []) ∷ none ∷ some (greeting ∷ []) ∷ []

connection_co_worker-batches_example :
    connection_co_worker (some (stomp_handler quiet (arrivals batches []))) 4 [] connected
    ≡ some (4 ∷ [], after_messages quiet 4 (conn_init quiet connected).1 (sent_messages batches))
connection_co_worker-batches_example =
    connection_co_worker-batches quiet 4 batches [] [] connected (
      ((greeting-IsMessage, (greeting-IsMessage, tt)), omega arith),
      (tt, (((greeting-IsMessage, tt), omega arith), tt)),
    )

recv_data-two_packets_body_example :
    (recv_data quiet 4 1
        (codes "ab")
        (reading connected (record (alloc_frame 1) { status = input_body; contentlen = pos 4 }))
      ≡ done (
          holding connected
            (record (alloc_frame 1) { status = input_body; contentlen = pos 4 })
            (codes "ab")))
    × (recv_data quiet 4 9 (codes "cd" ++ 0 ∷ []) (
          holding connected
            (record (alloc_frame 1) { status = input_body; contentlen = pos 4 })
            (codes "ab"))
        ≡ recv_data quiet 4 9 ((codes "ab" ++ codes "cd") ++ 0 ∷ []) (
            reading connected (record (alloc_frame 1) { status = input_body; contentlen = pos 4 })))
unfolding alloc_frame is_frame_name match_name strncmp_eq
recv_data-two_packets_body_example =
    recv_data-two_packets_body quiet 4 0 8 connected
      (record (alloc_frame 1) { status = input_body; contentlen = pos 4 }) b'a' (codes "b") b'c'
      (codes "d") [] refl (ground arith) (ground arith) refl (omega arith) refl
