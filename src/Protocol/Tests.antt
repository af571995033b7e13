-- ===== src/Protocol/Tests.antt =====
-- Runs of the handlers and of the workers.
use newtmq_server.Base.{
  ℕ, inr, ◌==◌, if◌then◌else◌, true, [], ◌∷◌, ◌++◌, Bytes, codes, Option, some, none, ◌≡◌, refl,
  arith, length, length-replicate,
}
use newtmq_server.Base.Text.{strncmp_eq, strlen}
use newtmq_server.Base.Last.{any, find_last, update_last}
use newtmq_server.Common.{Env, success, get_hash, hash_loop}
use newtmq_server.Connection.{is_socket_valid, stomp_send_message}
use newtmq_server.Frame.{Frame, LineData, alloc_frame}
use newtmq_server.Frame.Steps.{line_data}
use newtmq_server.Persistence.{
  Persistent, persist_frame, create_qinfo, create_unless, append_qinfo, alloc_qinfo, persist_in,
  get_qinfo, add_frame, new_qinfo, reinstate, persist_queue_info,
}
use newtmq_server.Queue.{Chain, initialize_queuebox, qb_size}
use newtmq_server.Queue.Laws.{contents, contents-initialize_queuebox}
use newtmq_server.Sending.{Client, Delivery, unicast_turn, subscription_headers}
use newtmq_server.Transaction.{get_transaction}
use newtmq_server.Protocol.{Server, Context, handled, running}
use newtmq_server.Protocol.Dispatch.{handle_frame}
use newtmq_server.Protocol.Publishing.{
  IsPublication, SameElsewhere, destination_line, delivery, handle_frame-publication,
  unicast_turn-publication,
}
use newtmq_server.Protocol.Transactional.{
  IsTransactional, IsBoundary, transaction_line, with_queue, begun, handle_frame-commit_running,
}

abbrev pub half_open : Env
half_open = record { rand = λ n. n; socket_ok = λ s. s == 4 }

abbrev pub context : Context
context = record {
  env = half_open;
  disk = record { usable = λ q. true; index_file = λ q. none };
  conn_id = λ c. codes "012345678";
  junk = [];
  callback = λ p s. (success, s);
}

abbrev pub idle_server : Server
idle_server = record {
  queues = initialize_queuebox;
  persistent = [];
  transactions = [];
  workers = record { groups = []; threads = [] };
  subscribers = [];
  sent = [];
  connected = [];
  cancelled = [];
  freed = [];
}

pub empty_queues-length : length idle_server.queues ≡ qb_size
unfolding initialize_queuebox
empty_queues-length = length-replicate {A = Option (Chain Frame)} qb_size none

-- SEND to the queue "/q"
abbrev publication : Frame
publication = record (alloc_frame 1) {
  name = codes "SEND";
  sock = 4;
  cinfo = some 7;
  size = 30;
  attrs = line_data (codes "content-length:0") ∷ destination_line (codes "/q") ∷ [];
}

publication-IsPublication : IsPublication publication (codes "/q")
unfolding strncmp_eq strlen alloc_frame
publication-IsPublication = record {
  conn = 7;
  before = line_data (codes "content-length:0") ∷ [];
  after = [];
  named = refl;
  connected = refl;
  lines = refl;
  plain_before = ((refl, (refl, (refl, (refl, tt)))), tt);
  plain_after = tt;
}

abbrev booked : Persistent
booked =
    record {
      qid = get_hash (codes "/q");
      unpersistent = publication ∷ [];
      index_head = 30;
      index_sent = 0;
      index_persistent = 0;
      written = [];
      sent_file = 0;
    }
    ∷ []

persist_frame-booked :
    persist_frame context.disk publication (codes "/q") [] ≡ some (success, booked)
unfolding persist_frame create_qinfo create_unless append_qinfo alloc_qinfo persist_in get_qinfo
    add_frame new_qinfo reinstate persist_queue_info any find_last update_last get_hash hash_loop
persist_frame-booked = refl

handle_frame-publication_example :
    (s' : Server) × (handle_frame 9 context publication idle_server ≡ handled (some publication) s')
    × ((k : ℕ)
        → contents s'.queues k ≡ (
            if k == get_hash (codes "/q")
            then contents idle_server.queues (get_hash (codes "/q")) ++ publication ∷ []
            else contents idle_server.queues k))
    × (length s'.queues ≡ qb_size)
    × (s'.persistent ≡ booked)
    × (s'.sent ≡ [])
    × (s'.freed ≡ [])
    × SameElsewhere idle_server s'
handle_frame-publication_example =
    handle_frame-publication 9 context publication idle_server (codes "/q") success booked
      publication-IsPublication persist_frame-booked empty_queues-length

abbrev reader : Client
reader = record { sock = 4; id = none }

reader-valid : is_socket_valid half_open 4 ≡ true
unfolding is_socket_valid
reader-valid = refl

unicast_turn-publication_example :
    (s' : Server) × (d : Delivery) × (handle_frame 9 context publication idle_server
      ≡ handled (some publication) s')
    × (unicast_turn half_open reader (codes "/q") (delivery s') ≡ some d)
    × (d.sent ≡ stomp_send_message 4 publication (subscription_headers none) [])
    × (contents d.queues (get_hash (codes "/q")) ≡ [])
unicast_turn-publication_example =
    unicast_turn-publication 9 context publication idle_server (codes "/q") success booked reader
      publication-IsPublication persist_frame-booked empty_queues-length
      (contents-initialize_queuebox (get_hash (codes "/q"))) reader-valid

-- SEND to "/q" in the transaction "t1", and the frames around it
abbrev no_body : LineData
no_body = line_data (codes "content-length:0")

abbrev transactional : Frame
transactional = record (alloc_frame 2) {
  name = codes "SEND";
  sock = 4;
  cinfo = some 7;
  attrs = transaction_line (codes "t1") ∷ destination_line (codes "/q") ∷ no_body ∷ [];
}

transactional-IsTransactional : IsTransactional transactional (codes "/q") (codes "t1") 7
unfolding strncmp_eq strlen alloc_frame
transactional-IsTransactional = record {
  before = [];
  between = [];
  after = no_body ∷ [];
  first = transaction_line (codes "t1");
  second = destination_line (codes "/q");
  named = refl;
  connected = refl;
  lines = refl;
  order = inr (refl, refl);
  plain_before = tt;
  plain_between = tt;
  plain_after = ((refl, (refl, (refl, (refl, tt)))), tt);
}

abbrev boundary : ℕ → Bytes → Frame
boundary addr name = record (alloc_frame addr) {
  name = name;
  sock = 4;
  attrs = no_body ∷ transaction_line (codes "t1") ∷ [];
}

boundary-IsBoundary : (addr : ℕ) (name : Bytes) → IsBoundary name (boundary addr name) (codes "t1")
unfolding strncmp_eq strlen alloc_frame
boundary-IsBoundary addr name = record {
  before = no_body ∷ [];
  after = [];
  named = refl;
  lines = refl;
  plain_before = ((refl, tt), tt);
  plain_after = tt;
}

handle_frame-commit_running_example :
    (s' : Server) × (handle_frame 9 context transactional
        (begun context (boundary 1 (codes "BEGIN")) (codes "t1") idle_server)
      ≡ handled (some (with_queue (codes "/q") transactional)) s')
    × (handle_frame 9 context (boundary 1 (codes "BEGIN")) idle_server
        ≡ handled none (begun context (boundary 1 (codes "BEGIN")) (codes "t1") idle_server))
    × (handle_frame 9 context (boundary 3 (codes "COMMIT")) s' ≡ running)
unfolding get_transaction find_last strlen alloc_frame
handle_frame-commit_running_example =
    handle_frame-commit_running 9 context (boundary 1 (codes "BEGIN")) transactional
      (boundary 3 (codes "COMMIT")) idle_server (codes "/q") (codes "t1") 7
      (boundary-IsBoundary 1 (codes "BEGIN")) transactional-IsTransactional refl
      (boundary-IsBoundary 3 (codes "COMMIT")) (omega arith) refl (omega arith)
