-- ===== src/Protocol/Subscribing/Tests.antt =====
-- Two clients of a topic, one of which has gone, and what becomes of the frame that they get.
use newtmq_server.Base.{ℕ, [], ◌∷◌, List, codes, some, ◌≡◌, ◌≤◌, refl, map, arith}
use newtmq_server.Base.Text.{strncmp_eq, strlen}
use newtmq_server.Base.Last.{any, find_last, update_last}
use newtmq_server.Common.{success, get_hash, hash_loop}
use newtmq_server.Frame.{Frame, alloc_frame}
use newtmq_server.Persistence.{
  Persistent, persist_frame, create_qinfo, create_unless, append_qinfo, alloc_qinfo, persist_in,
  get_qinfo, add_frame, new_qinfo, reinstate, persist_queue_info,
}
use newtmq_server.Persistence.Waiting.{all_waiting}
use newtmq_server.Queue.Laws.{contents-initialize_queuebox}
use newtmq_server.Sending.{Client, Delivery, multicast_turn, search_dest_group}
use newtmq_server.Sending.Turns.{healthy, send_each}
use newtmq_server.Protocol.{Server, handled}
use newtmq_server.Protocol.Session.{is_topic}
use newtmq_server.Protocol.Dispatch.{handle_frame}
use newtmq_server.Protocol.Publishing.{IsPublication, destination_line, delivery}
use newtmq_server.Protocol.Subscribing.{
  IsSubscription, handle_frames, with_subscribers, client_of, multicast_turn-publication,
}
use newtmq_server.Protocol.Dangling.{after_writing, multicast_turn-dangling}
use newtmq_server.Protocol.Tests.{context, idle_server, empty_queues-length}

abbrev subscription : ℕ → Frame
subscription sock = record (alloc_frame sock) {
  name = codes "SUBSCRIBE";
  sock = sock;
  cinfo = some sock;
  attrs = destination_line (codes "/topic/a") ∷ [];
}

subscription-IsSubscription : (sock : ℕ) → IsSubscription (codes "/topic/a") (subscription sock)
unfolding alloc_frame
subscription-IsSubscription sock = record {
  conn = sock;
  before = [];
  after = [];
  named = refl;
  connected = refl;
  lines = refl;
  plain_before = tt;
  plain_after = tt;
}

abbrev news : Frame
news = record (alloc_frame 1) {
  name = codes "SEND";
  sock = 6;
  cinfo = some 6;
  size = 30;
  attrs = destination_line (codes "/topic/a") ∷ [];
}

news-IsPublication : IsPublication news (codes "/topic/a")
unfolding alloc_frame
news-IsPublication = record {
  conn = 6;
  before = [];
  after = [];
  named = refl;
  connected = refl;
  lines = refl;
  plain_before = tt;
  plain_after = tt;
}

abbrev news_booked : Persistent
news_booked =
    record {
      qid = get_hash (codes "/topic/a");
      unpersistent = news ∷ [];
      index_head = 30;
      index_sent = 0;
      index_persistent = 0;
      written = [];
      sent_file = 0;
    }
    ∷ []

persist_frame-news :
    persist_frame context.disk news (codes "/topic/a") [] ≡ some (success, news_booked)
unfolding persist_frame create_qinfo create_unless append_qinfo alloc_qinfo persist_in get_qinfo
    add_frame new_qinfo reinstate persist_queue_info any find_last update_last get_hash hash_loop
persist_frame-news = refl

abbrev subscriptions : List Frame
subscriptions = subscription 4 ∷ subscription 5 ∷ []

abbrev clients : List Client
clients = map client_of subscriptions

multicast_turn-publication_example :
    (s' : Server) × (d : Delivery) × (handle_frames 9 context subscriptions idle_server
      ≡ some (with_subscribers (codes "/topic/a") clients subscriptions idle_server))
    × (handle_frame 9 context news
          (with_subscribers (codes "/topic/a") clients subscriptions idle_server)
        ≡ handled (some news) s')
    × (multicast_turn context.env (codes "/topic/a") clients (delivery s')
        ≡ some (healthy context.env clients, d))
    × (d.sent ≡ send_each news (healthy context.env clients) [])
unfolding is_topic strncmp_eq strlen search_dest_group
multicast_turn-publication_example =
    multicast_turn-publication 9 context (codes "/topic/a") (subscription 4) (subscription 5 ∷ [])
      news idle_server success news_booked
      (subscription-IsSubscription 4, (subscription-IsSubscription 5, tt)) refl refl
      news-IsPublication persist_frame-news empty_queues-length
      (contents-initialize_queuebox (get_hash (codes "/topic/a")))

multicast_turn-dangling_example :
    (s' : Server) × (soon : List Client × Delivery) × (later : List Client × Delivery)
    × (handle_frame 9 context news idle_server ≡ handled (some news) s')
    × (multicast_turn context.env (codes "/topic/a") clients (delivery s') ≡ some soon)
    × (soon.1.freed ≡ 1 ∷ [])
    × (1 ≤ all_waiting 1 soon.1.persistent)
    × (multicast_turn context.env (codes "/topic/a") clients (delivery (after_writing s'))
        ≡ some later)
    × (later.1.freed ≡ 1 ∷ [])
    × (all_waiting 1 later.1.persistent ≡ 0)
unfolding alloc_frame
multicast_turn-dangling_example =
    multicast_turn-dangling 9 context news idle_server (codes "/topic/a") success news_booked
      (client_of (subscription 4)) (client_of (subscription 5) ∷ []) news-IsPublication
      (omega arith) tt persist_frame-news empty_queues-length
      (contents-initialize_queuebox (get_hash (codes "/topic/a")))
