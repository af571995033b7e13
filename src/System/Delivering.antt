-- ===== src/System/Delivering.antt =====
-- The sending workers keep the table of queues and the books in order.
use newtmq_server.Base.{
  ℕ, ◌≡◌, ◌∙◌, subst, Bool, true, false, List, [], ◌∷◌, Option, none, some, Bytes, All, length,
}
use newtmq_server.Base.Last.{All-update_last}
use newtmq_server.Common.{Env, get_hash}
use newtmq_server.Connection.{is_socket_valid}
use newtmq_server.Frame.{Frame, LineData}
use newtmq_server.Persistence.{
  QueueInfo, Persistent, has_qid, get_qinfo, update_index_sent, sent_in,
}
use newtmq_server.Persistence.Accounting.{IsAccounted}
use newtmq_server.Queue.{Box, qb_size, dequeue}
use newtmq_server.Queue.Laws.{length-take_entry}
use newtmq_server.Sending.{
  Client, Delivery, subscription_headers, deliver_to, unicast_valid, unicast_turn, reply_turn,
  multicast_frame, multicast_turn,
}

abbrev pub InOrder : Delivery → Type 0
InOrder d = (length d.queues ≡ qb_size) × All IsAccounted d.persistent

-- of what a turn leaves, if it is not the last
abbrev Turned : Option Delivery → Type 0
Turned none = Unit
Turned (some d) = InOrder d

abbrev TurnedAll : Option (List Client × Delivery) → Type 0
TurnedAll none = Unit
TurnedAll (some x) = InOrder x.1

sent_in-IsAccounted :
    (f : Frame) (id : ℕ) (pm : Persistent) (o : Option QueueInfo)
    → All IsAccounted pm
    → All IsAccounted (sent_in f id pm o).1
unfolding sent_in
sent_in-IsAccounted f id pm none h = h
sent_in-IsAccounted f id pm (some q) h =
    All-update_last IsAccounted (has_qid id) _ pm (λ p a. record { head = a.head; sized = a.sized })
      h

update_index_sent-IsAccounted :
    (qname : Bytes) (f : Frame) (pm : Persistent)
    → All IsAccounted pm
    → All IsAccounted (update_index_sent qname f pm).1
unfolding update_index_sent
update_index_sent-IsAccounted qname f pm h =
    sent_in-IsAccounted f (get_hash qname) pm (get_qinfo (get_hash qname) pm) h

dequeue-length : (dest : Bytes) (box : Box Frame) → length (dequeue dest box).1 ≡ length box
unfolding dequeue
dequeue-length dest box = length-take_entry (get_hash dest) dest box

deliver_to-InOrder :
    (c : Client) (headers : List LineData) (dest : Bytes) (o : Option Frame) (d : Delivery)
    → InOrder d
    → InOrder (deliver_to c headers dest o d)
unfolding deliver_to
deliver_to-InOrder c headers dest none d h = h
deliver_to-InOrder c headers dest (some f) d h =
    (h.0, update_index_sent-IsAccounted dest f d.persistent h.1)

unicast_valid-Turned :
    (c : Client) (headers : List LineData) (dest : Bytes) (b : Bool) (d : Delivery)
    → InOrder d
    → Turned (unicast_valid c headers dest b d)
unfolding unicast_valid
unicast_valid-Turned c headers dest false d h = tt
unicast_valid-Turned c headers dest true d h =
    deliver_to-InOrder c headers dest (dequeue dest d.queues).0 _
      (dequeue-length dest d.queues ∙ h.0, h.1)

pub unicast_turn-InOrder :
    (env : Env) (c : Client) (dest : Bytes) (d d' : Delivery)
    → unicast_turn env c dest d ≡ some d'
    → InOrder d
    → InOrder d'
unfolding unicast_turn
unicast_turn-InOrder env c dest d d' e h =
    subst Turned e
      (unicast_valid-Turned c (subscription_headers c.id) dest (is_socket_valid env c.sock) d h)

pub reply_turn-InOrder :
    (env : Env) (c : Client) (dest : Bytes) (d d' : Delivery)
    → reply_turn env c dest d ≡ some d'
    → InOrder d
    → InOrder d'
unfolding reply_turn
reply_turn-InOrder env c dest d d' e h =
    subst Turned e (unicast_valid-Turned c [] dest (is_socket_valid env c.sock) d h)

multicast_frame-InOrder :
    (env : Env) (dest : Bytes) (o : Option Frame) (cs : List Client) (d : Delivery)
    → InOrder d
    → InOrder (multicast_frame env dest o cs d).1
unfolding multicast_frame
multicast_frame-InOrder env dest none cs d h = h
multicast_frame-InOrder env dest (some f) cs d h =
    (h.0, update_index_sent-IsAccounted dest f d.persistent h.1)

multicast_turn-TurnedAll :
    (env : Env) (dest : Bytes) (cs : List Client) (d : Delivery)
    → InOrder d
    → TurnedAll (multicast_turn env dest cs d)
unfolding multicast_turn
multicast_turn-TurnedAll env dest [] d h = tt
multicast_turn-TurnedAll env dest (c ∷ cs) d h =
    multicast_frame-InOrder env dest (dequeue dest d.queues).0 (c ∷ cs) _
      (dequeue-length dest d.queues ∙ h.0, h.1)

pub multicast_turn-InOrder :
    (env : Env) (dest : Bytes) (cs cs' : List Client) (d d' : Delivery)
    → multicast_turn env dest cs d ≡ some (cs', d')
    → InOrder d
    → InOrder d'
multicast_turn-InOrder env dest cs cs' d d' e h =
    subst TurnedAll e (multicast_turn-TurnedAll env dest cs d h)
