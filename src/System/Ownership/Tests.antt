-- ===== src/System/Ownership/Tests.antt =====
-- A client connects and sends CONNECT, whose frame is handled and freed.
use newtmq_server.Base.{◌≤◌, ◌+◌, ◌-◌, suc, [], ◌∷◌, codes, some, ◌≡◌, refl, ap, arith, length}
use newtmq_server.Base.Text.{strncmp_eq, atoi}
use newtmq_server.Frame.{match_name, is_contentlen, get_contentlen}
use newtmq_server.Frame.Steps.{declared}
use newtmq_server.Receive.{Receiver, take_frame}
use newtmq_server.Receive.Roundtrip.{recv_data-wires}
use newtmq_server.Receive.Roundtrip.Wire.{Message, IsMessage, wires, after_messages, delivered}
use newtmq_server.Receive.Tests.{quiet}
use newtmq_server.Receive.Worker.{conn_init}
use newtmq_server.Restart.{unpersist}
use newtmq_server.Protocol.Replies.{handle_frame-connect}
use newtmq_server.Protocol.Session.{send_connected_msg}
use newtmq_server.System.{
  System, link_of, received, accepted, took, managed, Reachable, started, step, initial, at_start,
  management_turn, manage, managed_by,
}
use newtmq_server.System.Tests.{calm, opened, with_client}
use newtmq_server.System.Ownership.{Reachable-freed}
use newtmq_server.System.Ownership.Counts.{count_frames, count_server}

abbrev login : Message
login = record { name = codes "CONNECT"; headers = codes "content-length:0" ∷ []; body = [] }

login-IsMessage : IsMessage login
unfolding match_name strncmp_eq is_contentlen declared get_contentlen atoi
login-IsMessage = record {
  name_line = ground arith;
  known = refl;
  header_lines = ground arith;
  no_nul = ground arith;
  declares = refl;
}

abbrev logged_in : Receiver
logged_in = after_messages quiet 4 opened (login ∷ [])

abbrev with_login : System
with_login = received with_client logged_in (link_of 4 logged_in ∷ [])

abbrev after_login : System
after_login = record with_login {
  server = record with_login.server {
    connected = 0 ∷ [];
    sent = send_connected_msg 4 [];
    freed = 1 ∷ [];
  };
  bucket = [];
}

management_turn-login : management_turn 1 calm with_login ≡ some after_login
unfolding management_turn manage managed_by take_frame conn_init
management_turn-login =
    ap (managed_by with_login [])
      (handle_frame-connect 1 calm (delivered quiet 4 opened login) with_login.server 0 refl refl)

after_login-Reachable : Reachable calm after_login
unfolding unpersist conn_init
after_login-Reachable =
    step
      (step (step (started [] [] at_start refl) (accepted (initial at_start) 4 opened refl)) (
        took with_client [] [] (link_of 4 opened) _ _ _ refl (
          recv_data-wires quiet 4 (suc (length (wires (login ∷ [])))) (login ∷ []) opened
            (login-IsMessage, tt) (omega arith))))
      (managed with_login after_login 1 management_turn-login)

Reachable-freed_example :
    (count_frames 1 after_login.bucket + count_server 1 after_login.server ≤ 1)
    × (count_frames 1 after_login.bucket + count_server 1 after_login.server
        ≤ after_login.allocated - 1)
Reachable-freed_example = Reachable-freed 1 after_login-Reachable
