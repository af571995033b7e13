-- ===== src/System/Reuse/Tests.antt =====
-- A client subscribes to "/q", publishes to it, and goes before the frame is sent.
use newtmq_server.Base.{
  ==_refl, suc, [], ◌∷◌, ◌++◌, List, codes, none, some, ◌≡◌, refl, ap, ◌∙◌, arith, length,
}
use newtmq_server.Base.Text.{strncmp_eq, strlen, atoi, c_string}
use newtmq_server.Base.Last.{any, find_last, update_last}
use newtmq_server.Common.{success, get_hash, hash_loop}
use newtmq_server.Connection.{is_socket_valid, stomp_send_message}
use newtmq_server.Frame.{Frame, match_name, is_contentlen, get_contentlen}
use newtmq_server.Frame.Steps.{declared}
use newtmq_server.Management.{iterate_header, run_handlers}
use newtmq_server.Persistence.{
  Persistent, persist_frame, create_qinfo, create_unless, append_qinfo, alloc_qinfo, persist_in,
  get_qinfo, add_frame, new_qinfo, reinstate, persist_queue_info,
}
use newtmq_server.Queue.{qb_size}
use newtmq_server.Queue.Laws.{contents, contents-put_entry, contents-initialize_queuebox}
use newtmq_server.Receive.{Receiver, take_frame}
use newtmq_server.Receive.Roundtrip.{recv_data-wires}
use newtmq_server.Receive.Roundtrip.Wire.{
  Message, IsMessage, wires, after_message, after_messages, delivered,
}
use newtmq_server.Receive.Worker.{conn_init}
use newtmq_server.Receive.Tests.{quiet, greeting, greeting-IsMessage}
use newtmq_server.Restart.{unpersist}
use newtmq_server.Sending.{alloc_client_info, register_unicast_worker, subscription_headers}
use newtmq_server.Protocol.{Server, with_attrs, asserting}
use newtmq_server.Protocol.Dispatch.{
  handle_frame, handle_found, find_handler, call_handler, released,
}
use newtmq_server.Protocol.Session.{handler_stomp_subscribe, subscribe_to, is_topic}
use newtmq_server.Protocol.Publishing.{IsPublication, published, handler_stomp_send-published}
use newtmq_server.System.{
  System, link_of, received, Step, accepted, took, managed, Reachable, started, step, initial,
  at_start, management_turn, manage, managed_by,
}
use newtmq_server.System.Tests.{calm, opened, with_client}
use newtmq_server.System.Soundness.{Reachable-IsSound}
use newtmq_server.System.Reuse.{after_closing, after_accepting, newcomer, sent_one-newcomer}

abbrev subscription : Message
subscription = record {
  name = codes "SUBSCRIBE";
  headers = codes "destination:/q" ∷ codes "content-length:0" ∷ [];
  body = [];
}

subscription-IsMessage : IsMessage subscription
unfolding match_name strncmp_eq is_contentlen declared get_contentlen atoi
subscription-IsMessage = record {
  name_line = ground arith;
  known = refl;
  header_lines = ground arith;
  no_nul = ground arith;
  declares = refl;
}

abbrev messages : List Message
messages = subscription ∷ greeting ∷ []

abbrev sent : Receiver
sent = after_messages quiet 4 opened messages

-- both frames are in the bucket
abbrev with_messages : System
with_messages = received with_client sent (link_of 4 sent ∷ [])

abbrev subscribing : Frame
subscribing = delivered quiet 4 opened subscription

abbrev publishing : Frame
publishing = delivered quiet 4 (after_message quiet 4 opened subscription) greeting

abbrev subscribed : System
subscribed = record with_messages {
  server = record with_messages.server {
    workers = register_unicast_worker 4 (codes "/q") none with_messages.server.workers;
    freed = subscribing.addr ∷ [];
  };
  bucket = publishing ∷ [];
}

management_turn-subscribed : management_turn 1 calm with_messages ≡ some subscribed
unfolding management_turn manage managed_by take_frame conn_init handle_frame handle_found
    find_handler call_handler released handler_stomp_subscribe subscribe_to is_topic asserting
    with_attrs iterate_header run_handlers strncmp_eq strlen
management_turn-subscribed = refl

abbrev booked : Persistent
booked =
    record {
      qid = get_hash (codes "/q");
      unpersistent = publishing ∷ [];
      index_head = publishing.size;
      index_sent = 0;
      index_persistent = 0;
      written = [];
      sent_file = 0;
    }
    ∷ []

persist_frame-booked : persist_frame calm.disk publishing (codes "/q") [] ≡ some (success, booked)
unfolding persist_frame create_qinfo create_unless append_qinfo alloc_qinfo persist_in get_qinfo
    add_frame new_qinfo reinstate persist_queue_info any find_last update_last get_hash hash_loop
persist_frame-booked = refl

publishing-IsPublication : IsPublication publishing (codes "/q")
unfolding strncmp_eq strlen conn_init
publishing-IsPublication = record {
  conn = 0;
  before = [];
  after = _;
  named = refl;
  connected = refl;
  lines = refl;
  plain_before = tt;
  plain_after = ((refl, (refl, (refl, (refl, tt)))), tt);
}

subscribed-Reachable : Reachable calm subscribed
unfolding unpersist conn_init
subscribed-Reachable =
    step
      (step (step (started [] [] at_start refl) (accepted (initial at_start) 4 opened refl)) (
        took with_client [] [] (link_of 4 opened) _ _ _ refl (
          recv_data-wires quiet 4 (suc (length (wires messages))) messages opened
            (subscription-IsMessage, (greeting-IsMessage, tt)) (omega arith))))
      (managed with_messages subscribed 1 management_turn-subscribed)

slots : length subscribed.server.queues ≡ qb_size
slots = (Reachable-IsSound subscribed-Reachable).orderly.0

-- the frame is in the queue
abbrev published_server : Server
published_server = published publishing (codes "/q") booked subscribed.server

abbrev waiting : System
waiting = record subscribed { server = published_server; bucket = [] }

management_turn-waiting : management_turn 1 calm subscribed ≡ some waiting
unfolding management_turn manage managed_by take_frame conn_init handle_frame handle_found
    find_handler call_handler released strncmp_eq strlen
management_turn-waiting =
    ap (λ r. managed_by subscribed [] (released publishing r))
      (handler_stomp_send-published calm publishing subscribed.server (codes "/q") success booked
        publishing-IsPublication persist_frame-booked)

waiting-Reachable : Reachable calm waiting
waiting-Reachable = step subscribed-Reachable (managed subscribed waiting 1 management_turn-waiting)

waiting-contents : contents waiting.server.queues (get_hash (codes "/q")) ≡ publishing ∷ []
waiting-contents =
    let h = get_hash (codes "/q") in
    contents-put_entry publishing h h (codes "/q") subscribed.server.queues slots
    ∙ rw (==_refl h) (ap (λ es. es ++ publishing ∷ []) (contents-initialize_queuebox h))

abbrev gone : System
gone = after_closing calm waiting (link_of 4 sent) []

sent_one-newcomer_example :
    (t : System) × Step calm waiting gone
    × Step calm gone (after_accepting calm gone 4)
    × Step calm (after_accepting calm gone 4) t
    × (t.links ≡ link_of 4 (newcomer calm gone) ∷ [])
    × ((newcomer calm gone).conn ≡ waiting.allocated)
    × (t.server.sent ≡ stomp_send_message 4 publishing (subscription_headers none) [])
unfolding conn_init register_unicast_worker alloc_client_info is_socket_valid c_string
sent_one-newcomer_example =
    sent_one-newcomer [] [] (link_of 4 sent) [] [] (alloc_client_info 4) (codes "/q") publishing []
      waiting-Reachable refl refl refl refl waiting-contents
