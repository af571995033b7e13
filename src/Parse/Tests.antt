-- ===== src/Parse/Tests.antt =====
-- Runs of `parse_frame` on small inputs.
use newtmq_server.Base.{[], ◌∷◌, codes, some, none, ◌≡◌, ◌≢◌, arith, length}
use newtmq_server.Common.{success}
use newtmq_server.Frame.{alloc_frame, input_body}
use newtmq_server.Receive.Roundtrip.Wire.{wire}
use newtmq_server.Receive.Tests.{greeting, greeting-IsMessage}
use newtmq_server.Parse.{parse_frame, returned, running}
use newtmq_server.Parse.Wire.{restored, parse_frame-wire}
use newtmq_server.Parse.Termination.{parse_frame-ends}

parse_frame-wire_example :
    parse_frame (codes "0123") (alloc_frame 7) (wire greeting (codes "junk")) none
    ≡ returned success (some (length (wire greeting []))) (restored 7 (codes "0123") greeting) none
parse_frame-wire_example =
    parse_frame-wire (codes "0123") 7 greeting (codes "junk") greeting-IsMessage (omega arith)

parse_frame-ends_example :
    parse_frame
      (codes "0123")
      (record (alloc_frame 7) { status = input_body })
      (0 ∷ codes "ab")
      (some (codes "x"))
    ≢ running
parse_frame-ends_example =
    parse_frame-ends (codes "0123") (record (alloc_frame 7) { status = input_body })
      (0 ∷ codes "ab") (some (codes "x"))
