-- ===== src/Protocol/Publishing.antt =====
-- What a SEND frame without a transaction does to the server, and the message that the next turn of
-- a worker sends for it.
use newtmq_server.Base.{
  ℕ, ◌==◌, if◌then◌else◌, List, [], ◌∷◌, ◌++◌, Bytes, codes, All, none, some, ◌≡◌, refl, ap, sym,
  ◌∙◌, length, true, arith,
}
use newtmq_server.Base.Text.{strncmp_eq, strlen}
use newtmq_server.Common.{Ret, get_hash}
use newtmq_server.Frame.{Frame, LineData}
use newtmq_server.Frame.Steps.{line_data}
use newtmq_server.Management.{kept, iterated, iterate_header, run_handlers}
use newtmq_server.Management.Headers.{Ignored, iterate_header-one}
use newtmq_server.Persistence.{Persistent, persist_frame}
use newtmq_server.Queue.{enqueue, qb_size, put_entry}
use newtmq_server.Queue.Laws.{contents, contents-put_entry, length-put_entry}
use newtmq_server.Connection.{is_socket_valid, stomp_send_message}
use newtmq_server.Sending.{Client, Delivery, unicast_turn, subscription_headers}
use newtmq_server.Sending.Turns.{unicast_turn-first}
use newtmq_server.Protocol.{Server, Context, handled, with_attrs, receipt}
use newtmq_server.Protocol.Send.{
  SendAttrs, send_handlers, no_send_attrs, handler_stomp_send, send_from, send_valid,
  send_destination, publish, publish_persisted, receipted, reply_registered,
}
use newtmq_server.Protocol.Dispatch.{
  stomp_handlers, find_handler, call_handler, handle_frame, handle_found, released,
}

abbrev pub destination_line : Bytes → LineData
destination_line q = line_data (codes "destination:" ++ q)

pub run_handlers-destination :
    (d : SendAttrs) (q : Bytes)
    → run_handlers send_handlers d (destination_line q)
      ≡ kept (record d { qname = some q }) (destination_line q)
unfolding run_handlers strncmp_eq strlen
run_handlers-destination d q = refl

-- A frame with one header line that SEND reads, its destination, on a connection that is known.
pub record IsPublication (frame : Frame) (q : Bytes) : Type 0 where
  pub conn : ℕ
  pub before : List LineData
  pub after : List LineData
  pub named : frame.name ≡ codes "SEND"
  pub connected : frame.cinfo ≡ some conn
  pub lines : frame.attrs ≡ before ++ destination_line q ∷ after
  pub plain_before : All (Ignored send_handlers) before
  pub plain_after : All (Ignored send_handlers) after

-- the server once the frame is in the books of the persistent worker and in its queue
abbrev pub published : Frame → Bytes → Persistent → Server → Server
published frame q pm s = record s {
  persistent = pm;
  queues = put_entry frame (get_hash q) q s.queues;
}

iterate_header-publication :
    (frame : Frame) (q : Bytes) (d : SendAttrs)
    → (p : IsPublication frame q)
    → iterate_header frame.attrs send_handlers d
      ≡ iterated (record d { qname = some q }) frame.attrs
iterate_header-publication frame q d p =
    ap (λ ls. iterate_header ls send_handlers d) p.lines
    ∙ (iterate_header-one send_handlers d _ p.before p.after _ _ p.plain_before p.plain_after
          (run_handlers-destination d q)
        ∙ ap (iterated (record d { qname = some q })) (sym p.lines))

pub handler_stomp_send-published :
    (ctx : Context) (frame : Frame) (s : Server) (q : Bytes) (r : Ret) (pm : Persistent)
    → IsPublication frame q
    → persist_frame ctx.disk frame q s.persistent ≡ some (r, pm)
    → handler_stomp_send ctx frame s ≡ handled (some frame) (published frame q pm s)
unfolding handler_stomp_send send_from with_attrs send_valid send_destination publish
    publish_persisted receipted receipt reply_registered enqueue
handler_stomp_send-published ctx frame s q r pm p e =
    let d = no_send_attrs (ctx.conn_id p.conn) in
    ap (send_from ctx frame s) p.connected
    ∙ ap (λ i. with_attrs ctx frame s i (send_valid ctx s)) (iterate_header-publication frame q d p)
    ∙ ap (λ o. receipted frame none (publish_persisted frame q s o)) e

-- what no frame that is only published changes
abbrev pub SameElsewhere : Server → Server → Type 0
SameElsewhere s s' =
    (s'.transactions ≡ s.transactions)
    × (s'.workers ≡ s.workers)
    × (s'.subscribers ≡ s.subscribers)
    × (s'.connected ≡ s.connected)
    × (s'.cancelled ≡ s.cancelled)

-- `handle_frame` on a SEND frame from a known connection, of whose header lines SEND reads the
-- destination and no other, where the books of the persistent worker can be opened: the frame goes behind
-- all others of its queue and into the books, the table keeps its size, and the frame is kept. Every other
-- queue, what was sent and freed, the transactions, the workers, the subscribers and the sessions stay
-- as they are.
pub handle_frame-publication :
    (fuel : ℕ) (ctx : Context) (frame : Frame) (s : Server) (q : Bytes) (r : Ret) (pm : Persistent)
    → IsPublication frame q
    → persist_frame ctx.disk frame q s.persistent ≡ some (r, pm)
    → length s.queues ≡ qb_size
    → (s' : Server) × (handle_frame fuel ctx frame s ≡ handled (some frame) s')
      × ((k : ℕ)
          → contents s'.queues k ≡ (
              if k == get_hash q
              then contents s.queues (get_hash q) ++ frame ∷ []
              else contents s.queues k))
      × (length s'.queues ≡ qb_size)
      × (s'.persistent ≡ pm)
      × (s'.sent ≡ s.sent)
      × (s'.freed ≡ s.freed)
      × SameElsewhere s s'
unfolding handle_frame find_handler strncmp_eq strlen call_handler
handle_frame-publication fuel ctx frame s q r pm p e l = (
  published frame q pm s,
  ap (λ n. handle_found fuel ctx frame s (find_handler n stomp_handlers)) p.named
      ∙ ap (released frame) (handler_stomp_send-published ctx frame s q r pm p e),
  λ k. contents-put_entry frame (get_hash q) k q s.queues l,
  length-put_entry frame (get_hash q) q s.queues ∙ l,
  refl,
  refl,
  refl,
  (refl, refl, refl, refl, refl),
)

-- what a worker of the server sees and changes
abbrev pub delivery : Server → Delivery
delivery s = record { queues = s.queues; persistent = s.persistent; sent = s.sent; freed = s.freed }

-- From the frame of a publisher to the socket of a subscriber: where the queue is empty, the next
-- turn of a worker for this destination, with a healthy socket, sends exactly the MESSAGE made of
-- the published frame, and the queue is empty again.
pub unicast_turn-publication :
    (fuel : ℕ) (ctx : Context) (frame : Frame) (s : Server) (q : Bytes) (r : Ret) (pm : Persistent)
    (c : Client)
    → IsPublication frame q
    → persist_frame ctx.disk frame q s.persistent ≡ some (r, pm)
    → length s.queues ≡ qb_size
    → contents s.queues (get_hash q) ≡ []
    → is_socket_valid ctx.env c.sock ≡ true
    → (s' : Server) × (d : Delivery) × (handle_frame fuel ctx frame s ≡ handled (some frame) s')
      × (unicast_turn ctx.env c q (delivery s') ≡ some d)
      × (d.sent ≡ stomp_send_message c.sock frame (subscription_headers c.id) s.sent)
      × (contents d.queues (get_hash q) ≡ [])
unicast_turn-publication fuel ctx frame s q r pm c p e l empty v =
    let (s', ran, at, sized, books, sent, freed, same) =
      handle_frame-publication fuel ctx frame s q r pm p e l in
    let here : contents s'.queues (get_hash q) ≡ frame ∷ [] =
      at (get_hash q) ∙ ground (arith, empty) in
    let (d, turn, after, wired, recorded) =
      unicast_turn-first ctx.env c q (delivery s') frame [] v here sized in
    (
      s',
      d,
      ran,
      turn,
      wired ∙ ap (stomp_send_message c.sock frame (subscription_headers c.id)) sent,
      after (get_hash q) ∙ ground arith,
    )
