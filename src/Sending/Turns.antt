-- ===== src/Sending/Turns.antt =====
-- What one turn of a worker takes from its queue and sends.
use newtmq_server.Base.{
  ℕ, ◌==◌, if◌then◌else◌, true, List, [], ◌∷◌, Bytes, Option, some, ◌≡◌, refl, ap, ◌∙◌, length,
  Bool-cases, inl, inr,
}
use newtmq_server.Common.{Env, get_hash}
use newtmq_server.Connection.{Wire, is_socket_valid, stomp_send_message}
use newtmq_server.Frame.{Frame}
use newtmq_server.Queue.{dequeue, qb_size}
use newtmq_server.Queue.Laws.{contents, first, rest, take_entry-first, contents-take_entry}
use newtmq_server.Persistence.{update_index_sent}
use newtmq_server.Sending.{
  multicast_turn, multicast_frame, Client, Delivery, unicast_turn, unicast_valid, deliver_to,
  subscription_headers, send_to_clients,
}

-- A worker with a healthy socket sends the oldest frame of the queue of its destination, with the
-- line for its subscription, and records it as sent; the frame leaves the queue, and no other
-- queue changes.
pub unicast_turn-first :
    (env : Env) (c : Client) (dest : Bytes) (d : Delivery) (f : Frame) (fs : List Frame)
    → is_socket_valid env c.sock ≡ true
    → contents d.queues (get_hash dest) ≡ f ∷ fs
    → length d.queues ≡ qb_size
    → (d' : Delivery) × (unicast_turn env c dest d ≡ some d')
      × ((k : ℕ) → contents d'.queues k ≡ (if k == get_hash dest then fs else contents d.queues k))
      × (d'.sent ≡ stomp_send_message c.sock f (subscription_headers c.id) d.sent)
      × (d'.persistent ≡ (update_index_sent dest f d.persistent).1)
unfolding unicast_turn unicast_valid deliver_to dequeue
unicast_turn-first env c dest d f fs v e l =
    let q = (dequeue dest d.queues).1 in
    let headers = subscription_headers c.id in
    (
      deliver_to c headers dest (some f) (record d { queues = q }),
      ap (λ b. unicast_valid c headers dest b d) v
          ∙ ap (λ o. some (deliver_to c headers dest o (record d { queues = q })))
              (take_entry-first (get_hash dest) dest d.queues ∙ ap first e),
      λ k.
          contents-take_entry (get_hash dest) k dest d.queues l
          ∙ ap (λ es. if k == get_hash dest then rest es else contents d.queues k) e,
      refl,
      refl,
    )

-- the clients whose sockets are healthy
abbrev pub healthy : Env → List Client → List Client
healthy env [] = []
healthy env (c ∷ cs) = if is_socket_valid env c.sock then c ∷ healthy env cs else healthy env cs

-- the message to each client in turn
abbrev pub send_each : Frame → List Client → Wire → Wire
send_each f [] w = w
send_each f (c ∷ cs) w = send_each f cs (stomp_send_message c.sock f (subscription_headers c.id) w)

-- A frame of a topic goes to every client with a healthy socket, in the order in which they
-- subscribed, and exactly these clients stay in the group.
pub send_to_clients-healthy :
    (env : Env) (f : Frame) (cs : List Client) (w : Wire)
    → send_to_clients env f cs w ≡ (healthy env cs, send_each f (healthy env cs) w)
unfolding send_to_clients
send_to_clients-healthy env f [] w = refl
send_to_clients-healthy env f (c ∷ cs) w = elim (Bool-cases (is_socket_valid env c.sock)) [
  | inl v ↦
      rw (v, send_to_clients)
        (ap (λ r. (c ∷ r.0, r.1))
          (send_to_clients-healthy env f cs
            (stomp_send_message c.sock f (subscription_headers c.id) w)))
  | inr v ↦ rw (v, send_to_clients) (send_to_clients-healthy env f cs w)
]

-- A turn of the thread of a topic takes the oldest frame and sends it to the clients of the group.
pub multicast_turn-first :
    (env : Env) (dest : Bytes) (c : Client) (cs : List Client) (d : Delivery) (f : Frame)
    (fs : List Frame)
    → contents d.queues (get_hash dest) ≡ f ∷ fs
    → (d' : Delivery) × (multicast_turn env dest (c ∷ cs) d ≡ some (healthy env (c ∷ cs), d'))
      × (d'.sent ≡ send_each f (healthy env (c ∷ cs)) d.sent)
unfolding multicast_turn multicast_frame dequeue
multicast_turn-first env dest c cs d f fs e =
    let q = (dequeue dest d.queues).1 in
    let turn : Option Frame → Option (List Client × Delivery) =
      λ o. some (multicast_frame env dest o (c ∷ cs) (record d { queues = q })) in
    let clients = healthy env (c ∷ cs) in
    (
      record d {
        queues = q;
        persistent = (update_index_sent dest f d.persistent).1;
        sent = send_each f clients d.sent;
        freed = f.addr ∷ d.freed;
      },
      ap turn (take_entry-first (get_hash dest) dest d.queues ∙ ap first e)
          ∙ ap
              (λ r. some (
                r.0,
                record d {
                  queues = q;
                  persistent = (update_index_sent dest f d.persistent).1;
                  sent = r.1;
                  freed = f.addr ∷ d.freed;
                },
              ))
              (send_to_clients-healthy env f (c ∷ cs) d.sent),
      refl,
    )
