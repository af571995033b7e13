-- ===== src/System/Workers/Tests.antt =====
-- The only subscriber of a topic has gone, and another client subscribes.
use newtmq_server.Base.{
  ==_refl, suc, false, ◌≤◌, [], ◌∷◌, ◌++◌, List, codes, none, some, ◌≡◌, refl, ap, ◌∙◌, arith,
  length,
}
use newtmq_server.Base.Text.{strncmp_eq, strlen, atoi, c_string}
use newtmq_server.Base.Last.{any, find_last, update_last}
use newtmq_server.Common.{Env, success, get_hash, hash_loop}
use newtmq_server.Connection.{is_socket_valid}
use newtmq_server.Frame.{Frame, match_name, is_contentlen, get_contentlen}
use newtmq_server.Frame.Steps.{declared}
use newtmq_server.Management.{iterate_header, run_handlers}
use newtmq_server.Persistence.{
  Persistent, persist_frame, create_qinfo, create_unless, append_qinfo, alloc_qinfo, persist_in,
  get_qinfo, add_frame, new_qinfo, reinstate, persist_queue_info,
}
use newtmq_server.Queue.{qb_size}
use newtmq_server.Queue.Laws.{contents, contents-put_entry, contents-initialize_queuebox}
use newtmq_server.Receive.{Receiver, take_frame}
use newtmq_server.Receive.Roundtrip.{recv_data-wires}
use newtmq_server.Receive.Roundtrip.Wire.{
  Message, IsMessage, wires, after_message, after_messages, delivered,
}
use newtmq_server.Receive.Worker.{conn_init}
use newtmq_server.Receive.Tests.{quiet}
use newtmq_server.Restart.{unpersist}
use newtmq_server.Sending.{
  alloc_client_info, register_multicast_worker, DestGroup, search_dest_group, group_for, add_client,
  initialize_dest_group, multicast_thread, multicast_turn, Delivery,
}
use newtmq_server.Sending.Counts.{count_groups, count_threads}
use newtmq_server.Sending.Turns.{multicast_turn-first}
use newtmq_server.Protocol.{Server, with_attrs, asserting}
use newtmq_server.Protocol.Dispatch.{
  handle_frame, handle_found, find_handler, call_handler, released,
}
use newtmq_server.Protocol.Session.{handler_stomp_subscribe, subscribe_to, is_topic}
use newtmq_server.Protocol.Publishing.{IsPublication, published, handler_stomp_send-published}
use newtmq_server.System.{
  System, link_of, received, Step, accepted, took, managed, sent_all, without, Reachable, started,
  step, initial, at_start, management_turn, manage, managed_by, delivery_of,
  delivered as delivered_to,
}
use newtmq_server.System.Tests.{calm, opened, with_client}
use newtmq_server.System.Soundness.{Reachable-IsSound}
use newtmq_server.System.Workers.{here, onward, Reachable-threads, left_all-stranded}

abbrev subscription : Message
subscription = record {
  name = codes "SUBSCRIBE";
  headers = codes "destination:/topic/a" ∷ codes "content-length:0" ∷ [];
  body = [];
}

abbrev news : Message
news = record {
  name = codes "SEND";
  headers = codes "destination:/topic/a" ∷ codes "content-length:2" ∷ [];
  body = codes "hi";
}

subscription-IsMessage : IsMessage subscription
unfolding match_name strncmp_eq is_contentlen declared get_contentlen atoi
subscription-IsMessage = record {
  name_line = ground arith;
  known = refl;
  header_lines = ground arith;
  no_nul = ground arith;
  declares = refl;
}

news-IsMessage : IsMessage news
unfolding match_name strncmp_eq is_contentlen declared get_contentlen atoi
news-IsMessage = record {
  name_line = ground arith;
  known = refl;
  header_lines = ground arith;
  no_nul = ground arith;
  declares = refl;
}

abbrev messages : List Message
messages = subscription ∷ news ∷ subscription ∷ []

abbrev sent : Receiver
sent = after_messages quiet 4 opened messages

-- three frames are in the bucket
abbrev with_messages : System
with_messages = received with_client sent (link_of 4 sent ∷ [])

abbrev subscribing : Frame
subscribing = delivered quiet 4 opened subscription

abbrev after_first : Receiver
after_first = after_message quiet 4 opened subscription

abbrev publishing : Frame
publishing = delivered quiet 4 after_first news

abbrev joining : Frame
joining = delivered quiet 4 (after_message quiet 4 after_first news) subscription

abbrev subscribed : System
subscribed = record with_messages {
  server = record with_messages.server {
    workers = register_multicast_worker 4 (codes "/topic/a") none with_messages.server.workers;
    freed = subscribing.addr ∷ [];
  };
  bucket = publishing ∷ joining ∷ [];
}

management_turn-subscribed : management_turn 1 calm with_messages ≡ some subscribed
unfolding management_turn manage managed_by take_frame conn_init handle_frame handle_found
    find_handler call_handler released handler_stomp_subscribe subscribe_to is_topic asserting
    with_attrs iterate_header run_handlers strncmp_eq strlen
management_turn-subscribed = refl

abbrev booked : Persistent
booked =
    record {
      qid = get_hash (codes "/topic/a");
      unpersistent = publishing ∷ [];
      index_head = publishing.size;
      index_sent = 0;
      index_persistent = 0;
      written = [];
      sent_file = 0;
    }
    ∷ []

persist_frame-booked :
    persist_frame calm.disk publishing (codes "/topic/a") [] ≡ some (success, booked)
unfolding persist_frame create_qinfo create_unless append_qinfo alloc_qinfo persist_in get_qinfo
    add_frame new_qinfo reinstate persist_queue_info any find_last update_last get_hash hash_loop
persist_frame-booked = refl

publishing-IsPublication : IsPublication publishing (codes "/topic/a")
unfolding strncmp_eq strlen conn_init
publishing-IsPublication = record {
  conn = 0;
  before = [];
  after = _;
  named = refl;
  connected = refl;
  lines = refl;
  plain_before = tt;
  plain_after = ((refl, (refl, (refl, (refl, tt)))), tt);
}

subscribed-Reachable : Reachable calm subscribed
unfolding unpersist conn_init
subscribed-Reachable =
    step
      (step (step (started [] [] at_start refl) (accepted (initial at_start) 4 opened refl)) (
        took with_client [] [] (link_of 4 opened) _ _ _ refl (
          recv_data-wires quiet 4 (suc (length (wires messages))) messages opened
            (subscription-IsMessage, (news-IsMessage, (subscription-IsMessage, tt)))
            (omega arith))))
      (managed with_messages subscribed 1 management_turn-subscribed)

slots : length subscribed.server.queues ≡ qb_size
slots = (Reachable-IsSound subscribed-Reachable).orderly.0

Reachable-threads_example :
    (count_threads (codes "/topic/a") subscribed.server.workers.threads
      ≤ count_groups (codes "/topic/a") subscribed.server.workers.groups)
    × (count_groups (codes "/topic/a") subscribed.server.workers.groups ≤ 1)
Reachable-threads_example = Reachable-threads (codes "/topic/a") subscribed-Reachable

-- the frame is in the queue
abbrev published_server : Server
published_server = published publishing (codes "/topic/a") booked subscribed.server

abbrev waiting : System
waiting = record subscribed { server = published_server; bucket = joining ∷ [] }

management_turn-waiting : management_turn 1 calm subscribed ≡ some waiting
unfolding management_turn manage managed_by take_frame conn_init handle_frame handle_found
    find_handler call_handler released strncmp_eq strlen
management_turn-waiting =
    ap (λ r. managed_by subscribed (joining ∷ []) (released publishing r))
      (handler_stomp_send-published calm publishing subscribed.server (codes "/topic/a") success
        booked publishing-IsPublication persist_frame-booked)

waiting-Reachable : Reachable calm waiting
waiting-Reachable = step subscribed-Reachable (managed subscribed waiting 1 management_turn-waiting)

waiting-contents : contents waiting.server.queues (get_hash (codes "/topic/a")) ≡ publishing ∷ []
waiting-contents =
    let h = get_hash (codes "/topic/a") in
    contents-put_entry publishing h h (codes "/topic/a") subscribed.server.queues slots
    ∙ rw (==_refl h) (ap (λ es. es ++ publishing ∷ []) (contents-initialize_queuebox h))

-- Every socket has an error.
abbrev broken : Env
broken = record { rand = λ n. 0; socket_ok = λ n. false }

abbrev group : DestGroup
group = record { destination = codes "/topic/a"; len = 8; clients = alloc_client_info 4 ∷ [] }

group-lone : waiting.server.workers.groups ≡ group ∷ []
unfolding register_multicast_worker search_dest_group group_for add_client initialize_dest_group
    strncmp_eq strlen c_string
group-lone = refl

turn :
    (d : Delivery) × (multicast_turn broken
        (codes "/topic/a")
        (alloc_client_info 4 ∷ [])
        (delivery_of waiting.server)
      ≡ some ([], d))
unfolding is_socket_valid
turn =
    let (d, e, w) =
      multicast_turn-first broken (codes "/topic/a") (alloc_client_info 4) []
        (delivery_of waiting.server) publishing [] waiting-contents in
    (d, e)

abbrev empty_group : DestGroup
empty_group = record group { clients = [] }

-- The client was found to have gone.
abbrev deserted : Delivery → System
deserted d = record waiting {
  server = record (delivered_to waiting.server d) {
    workers = record waiting.server.workers { groups = empty_group ∷ [] };
  };
}

deserted-Reachable : Reachable calm (deserted turn.0)
unfolding register_multicast_worker search_dest_group multicast_thread c_string
deserted-Reachable =
    step waiting-Reachable
      (sent_all waiting broken [] [] [] [] group [] turn.0 refl group-lone turn.1)

-- The thread has ended, and the other frame is handled.
abbrev rejoined : Delivery → System
rejoined d = record (without (deserted d) []) {
  server = record (without (deserted d) []).server {
    workers =
        register_multicast_worker 4 (codes "/topic/a") none
          (without (deserted d) []).server.workers;
    freed = joining.addr ∷ d.freed;
  };
  bucket = [];
}

management_turn-rejoined :
    (d : Delivery) → management_turn 1 calm (without (deserted d) []) ≡ some (rejoined d)
unfolding management_turn manage managed_by take_frame conn_init handle_frame handle_found
    find_handler call_handler released handler_stomp_subscribe subscribe_to is_topic asserting
    with_attrs iterate_header run_handlers strncmp_eq strlen
management_turn-rejoined d = refl

left_all-stranded_example :
    Step calm (deserted turn.0) (without (deserted turn.0) [])
    × (count_threads (codes "/topic/a") (rejoined turn.0).server.workers.threads ≡ 0)
    × (count_groups (codes "/topic/a") (rejoined turn.0).server.workers.groups ≡ 1)
unfolding register_multicast_worker search_dest_group multicast_thread c_string
left_all-stranded_example =
    left_all-stranded [] [] [] [] empty_group deserted-Reachable refl refl refl (
      onward here (
        managed (without (deserted turn.0) []) (rejoined turn.0) 1
          (management_turn-rejoined turn.0)))
