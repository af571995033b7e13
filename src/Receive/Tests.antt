-- ===== src/Receive/Tests.antt =====
-- Runs of `recv_data` on small inputs.
use newtmq_server.Base.{true, [], ◌∷◌, none, Bytes, codes, pos, ◌≡◌, refl, arith, replicate, All}
use newtmq_server.Base.Text.{strncmp_eq, atoi}
use newtmq_server.Common.{Env}
use newtmq_server.Frame.{
  Frame, alloc_frame, match_name, is_contentlen, input_header, input_body, stomp_setdata,
  get_contentlen,
}
use newtmq_server.Frame.Steps.{declared}
use newtmq_server.Frame.Setdata.{contents, Fits, stomp_setdata-contents}
use newtmq_server.Receive.{Receiver, recv_data, done, running}
use newtmq_server.Receive.Lines.{reading}
use newtmq_server.Receive.Roundtrip.Wire.{Message, IsMessage, wires, after_messages}
use newtmq_server.Receive.Roundtrip.{recv_data-wires}
use newtmq_server.Receive.Totality.{Stuck, recv_data-Stuck, recv_data-nul_in_body}

abbrev pub quiet : Env
quiet = record { rand = λ n. n; socket_ok = λ s. true }

abbrev pub connected : Receiver
connected = record {
  conn = 7;
  frame = none;
  prev = none;
  bucket = [];
  sent = [];
  draws = 0;
  allocated = 100;
}

abbrev pub greeting : Message
greeting = record {
  name = codes "SEND";
  headers = codes "destination:/q" ∷ codes "content-length:2" ∷ [];
  body = codes "hi";
}

pub greeting-IsMessage : IsMessage greeting
unfolding match_name strncmp_eq is_contentlen declared get_contentlen atoi
greeting-IsMessage = record {
  name_line = ground arith;
  known = refl;
  header_lines = ground arith;
  no_nul = ground arith;
  declares = refl;
}

-- the frame of a message that is read up to its headers, and up to its body
abbrev in_header : Frame
in_header = record (alloc_frame 1) { name = codes "SEND"; status = input_header }

abbrev in_body : Frame
in_body = record (alloc_frame 1) { name = codes "SEND"; status = input_body; contentlen = pos 9 }

long_line : Bytes
long_line = replicate 600 b'x'

-- Two messages in one buffer are both in the bucket.

recv_data-wires_example :
    recv_data quiet 4 200 (wires (greeting ∷ greeting ∷ [])) connected
    ≡ done (after_messages quiet 4 connected (greeting ∷ greeting ∷ []))
recv_data-wires_example =
    recv_data-wires quiet 4 200 (greeting ∷ greeting ∷ []) connected
      (greeting-IsMessage, (greeting-IsMessage, tt)) (omega arith)

recv_data-nul_in_body_example :
    recv_data quiet 4 100 (0 ∷ codes "def") (reading connected in_body) ≡ running
unfolding alloc_frame
recv_data-nul_in_body_example =
    recv_data-nul_in_body quiet 4 100 (codes "def") connected in_body refl refl

recv_data-Stuck_example : Stuck quiet 4 (0 ∷ []) (reading connected in_body)
unfolding alloc_frame
recv_data-Stuck_example =
    recv_data-Stuck quiet 4 5 (0 ∷ []) (reading connected in_body) (omega arith)
      (recv_data-nul_in_body quiet 4 5 [] connected in_body refl refl)

stomp_setdata-contents_example :
    (contents (stomp_setdata (codes "abc") 2) ≡ codes "ab")
    × All Fits (stomp_setdata (codes "abc") 2)
stomp_setdata-contents_example = stomp_setdata-contents (codes "abc") 2 (omega arith)
