-- ===== src/Sending.antt =====
-- lib/stomp_sending_worker.c: the clients of each destination, and one turn of the loop of each
-- kind of worker. The threads take turns; a worker is a value that says which thread was created.
pub mod Turns
pub mod Registration
pub mod Counts
pub mod Freeing
use newtmq_server.Base.{
  ℕ, ◌+◌, ◌==◌, if◌then◌else◌, Bool, true, false, ◌&&◌, List, [], ◌∷◌, ◌++◌, Option, none, some,
  Bytes, codes, length, strlen, c_string, strncmp_eq,
}
use newtmq_server.Common.{Ret, success, error, Env}
use newtmq_server.Connection.{Wire, is_socket_valid, stomp_send_message}
use newtmq_server.Frame.{Frame, LineData, stomp_setdata}
use newtmq_server.Persistence.{Persistent, update_index_sent}
use newtmq_server.Queue.{Box, dequeue}

-- `client_info_t`; no code sets `id`.
pub record Client : Type 0 where
  pub sock : ℕ
  pub id : Option Bytes

-- `dest_group_t`
pub record DestGroup : Type 0 where
  pub destination : Bytes
  pub len : ℕ
  pub clients : List Client

-- a thread that `pthread_create` started, with the socket of its client or its destination
pub data Worker : Type 0 where
  reply_worker unicast_worker : Client → Bytes → Worker
  multicast_worker : Bytes → Worker

-- `worker_manager.head` and the threads
pub record WorkerManager : Type 0 where
  pub groups : List DestGroup
  pub threads : List Worker

-- The list is empty afterwards; it starts no thread.
abbrev pub initialize_sending_worker : WorkerManager → Ret × WorkerManager
initialize_sending_worker w = (success, record w { groups = [] })

abbrev pub is_group : Bytes → ℕ → DestGroup → Bool
is_group dest len g = len == g.len && strncmp_eq g.destination dest len

unfoldable pub search_dest_group : Bytes → ℕ → List DestGroup → Option DestGroup
search_dest_group dest len [] = none
search_dest_group dest len (g ∷ gs) =
    if is_group dest len g then some g else search_dest_group dest len gs

-- `list_add_tail(&cinfo->list, &dgroup->h_client)` on the group that the search finds
unfoldable pub add_client : Bytes → ℕ → Client → List DestGroup → List DestGroup
add_client dest len c [] = []
add_client dest len c (g ∷ gs) =
    if is_group dest len g
    then record g { clients = g.clients ++ c ∷ [] } ∷ gs
    else g ∷ add_client dest len c gs

-- `alloc_dest_group` and `initialize_dest_group`
unfoldable pub initialize_dest_group : Bytes → ℕ → List DestGroup → List DestGroup
initialize_dest_group dest len gs =
    gs ++ record { destination = c_string dest; len = len; clients = [] } ∷ []

-- `alloc_client_info`, and the assignment of the socket
unfoldable pub alloc_client_info : ℕ → Client
alloc_client_info sock = record { sock = sock; id = none }

reply_unless : ℕ → Bytes → WorkerManager → Option DestGroup → WorkerManager
unfolding alloc_client_info initialize_dest_group
reply_unless sock dest w (some g) = w
reply_unless sock dest w none =
    let c = alloc_client_info sock in
    let gs = initialize_dest_group dest (strlen dest) w.groups in
    record {
      groups = add_client dest (strlen dest) c gs;
      threads = w.threads ++ reply_worker c (c_string dest) ∷ [];
    }

unfoldable pub register_reply_worker : ℕ → Bytes → WorkerManager → WorkerManager
unfolding reply_unless
register_reply_worker sock dest w =
    reply_unless sock dest w (search_dest_group dest (strlen dest) w.groups)

-- the groups, once there is one for the destination
unfoldable pub group_for : Bytes → List DestGroup → Option DestGroup → List DestGroup
unfolding initialize_dest_group
group_for dest gs (some g) = gs
group_for dest gs none = initialize_dest_group dest (strlen dest) gs

-- `id` is not used.
unfoldable pub register_unicast_worker : ℕ → Bytes → Option Bytes → WorkerManager → WorkerManager
unfolding group_for alloc_client_info
register_unicast_worker sock dest id w =
    let c = alloc_client_info sock in
    let gs = group_for dest w.groups (search_dest_group dest (strlen dest) w.groups) in
    record {
      groups = add_client dest (strlen dest) c gs;
      threads = w.threads ++ unicast_worker c (c_string dest) ∷ [];
    }

-- The thread is created with the group.
unfoldable pub multicast_thread : Bytes → Option DestGroup → List Worker
multicast_thread dest (some g) = []
multicast_thread dest none = multicast_worker (c_string dest) ∷ []

-- `id` is not used.
unfoldable pub register_multicast_worker : ℕ → Bytes → Option Bytes → WorkerManager → WorkerManager
unfolding group_for multicast_thread alloc_client_info
register_multicast_worker sock dest id w =
    let found = search_dest_group dest (strlen dest) w.groups in
    record {
      groups =
          add_client dest (strlen dest) (alloc_client_info sock) (group_for dest w.groups found);
      threads = w.threads ++ multicast_thread dest found;
    }

-- What a worker changes: the queues, the records of what was sent, and the sockets.
pub record Delivery : Type 0 where
  pub queues : Box Frame
  pub persistent : Persistent
  pub sent : Wire
  pub freed : List ℕ

-- `headers` of `unicast_worker` and of a client of `multicast_worker`
unfoldable pub subscription_headers : Option Bytes → List LineData
subscription_headers none = []
subscription_headers (some id) =
    let line = codes "subscription: " ++ c_string id in stomp_setdata line (length line)

-- a frame is sent to the client and recorded as sent
unfoldable pub deliver_to : Client → List LineData → Bytes → Option Frame → Delivery → Delivery
deliver_to c headers dest none d = d
deliver_to c headers dest (some frame) d = record d {
  persistent = (update_index_sent dest frame d.persistent).1;
  sent = stomp_send_message c.sock frame headers d.sent;
}

-- What a turn of the loop of a worker does; `none` is the end of the loop.
unfoldable pub unicast_valid : Client → List LineData → Bytes → Bool → Delivery → Option Delivery
unfolding deliver_to
unicast_valid c headers dest false d = none
unicast_valid c headers dest true d =
    let (frame, queues) = dequeue dest d.queues in
    some (deliver_to c headers dest frame (record d { queues = queues }))

unfoldable pub unicast_turn : Env → Client → Bytes → Delivery → Option Delivery
unfolding unicast_valid
unicast_turn env c dest d =
    unicast_valid c (subscription_headers c.id) dest (is_socket_valid env c.sock) d

unfoldable pub reply_turn : Env → Client → Bytes → Delivery → Option Delivery
unfolding unicast_valid
reply_turn env c dest d = unicast_valid c [] dest (is_socket_valid env c.sock) d

-- The clients that stay, and what is sent to them, in their order.
unfoldable pub send_to_clients : Env → Frame → List Client → Wire → List Client × Wire
send_to_clients env frame [] w = ([], w)
send_to_clients env frame (c ∷ cs) w = elim (is_socket_valid env c.sock) [
  | true ↦
      let (cs', w') =
        send_to_clients env frame cs
          (stomp_send_message c.sock frame (subscription_headers c.id) w) in
      (c ∷ cs', w')
  | false ↦ send_to_clients env frame cs w
]

unfoldable pub multicast_frame :
    Env → Bytes → Option Frame → List Client → Delivery → List Client × Delivery
multicast_frame env dest none cs d = (cs, d)
multicast_frame env dest (some frame) cs d =
    let (cs', w) = send_to_clients env frame cs d.sent in
    (
      cs',
      record d {
        persistent = (update_index_sent dest frame d.persistent).1;
        sent = w;
        freed = frame.addr ∷ d.freed;
      },
    )

unfoldable pub multicast_turn :
    Env → Bytes → List Client → Delivery → Option (List Client × Delivery)
unfolding multicast_frame
multicast_turn env dest [] d = none
multicast_turn env dest (c ∷ cs) d =
    let (frame, queues) = dequeue dest d.queues in
    some (multicast_frame env dest frame (c ∷ cs) (record d { queues = queues }))
