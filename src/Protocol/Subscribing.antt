-- ===== src/Protocol/Subscribing.antt =====
-- SUBSCRIBE frames for a topic, and what the subscribers get.
mod Tests
use newtmq_server.Base.{
  ℕ, ◌+◌, ◌==◌, ◌≡◌, refl, ap, ◌∙◌, sym, subst, true, List, [], ◌∷◌, ◌++◌, Option, none, some,
  Bytes, All, map, codes, length, append_assoc, append-nil, arith, if◌then◌else◌,
}
use newtmq_server.Base.Text.{strncmp_eq, strlen, c_string}
use newtmq_server.Common.{Ret, get_hash}
use newtmq_server.Frame.{Frame, LineData}
use newtmq_server.Management.{kept, iterated, iterate_header, run_handlers}
use newtmq_server.Management.Headers.{Ignored, iterate_header-one}
use newtmq_server.Persistence.{Persistent, persist_frame}
use newtmq_server.Queue.{qb_size}
use newtmq_server.Queue.Laws.{contents}
use newtmq_server.Sending.{
  Client, Delivery, WorkerManager, multicast_worker, multicast_turn, search_dest_group,
  alloc_client_info, register_multicast_worker,
}
use newtmq_server.Sending.Registration.{
  group_of, with_group, register_multicast_worker-first, register_multicast_worker-again,
}
use newtmq_server.Sending.Turns.{healthy, send_each, multicast_turn-first}
use newtmq_server.Protocol.{
  Server, Context, Result, handled, aborted, corrupted, running, with_attrs, asserting,
}
use newtmq_server.Protocol.Session.{
  SubscribeAttrs, subscribe_handlers, subscribe_to, is_topic, handler_stomp_subscribe,
}
use newtmq_server.Protocol.Dispatch.{
  stomp_handlers, find_handler, call_handler, handle_frame, handle_found, released,
}
use newtmq_server.Protocol.Publishing.{
  destination_line, IsPublication, delivery, handle_frame-publication,
}

-- A SUBSCRIBE frame with one header line that is read, its destination, on a known connection.
pub record IsSubscription (dest : Bytes) (frame : Frame) : Type 0 where
  pub conn : ℕ
  pub before : List LineData
  pub after : List LineData
  pub named : frame.name ≡ codes "SUBSCRIBE"
  pub connected : frame.cinfo ≡ some conn
  pub lines : frame.attrs ≡ before ++ destination_line dest ∷ after
  pub plain_before : All (Ignored subscribe_handlers) before
  pub plain_after : All (Ignored subscribe_handlers) after

abbrev no_attrs : SubscribeAttrs
no_attrs = record { destination = none; id = none }

run_handlers-destination :
    (dest : Bytes)
    → run_handlers subscribe_handlers no_attrs (destination_line dest)
      ≡ kept (record { destination = some dest; id = none }) (destination_line dest)
unfolding run_handlers strncmp_eq strlen
run_handlers-destination dest = refl

iterate_header-subscription :
    (dest : Bytes) (f : Frame)
    → (p : IsSubscription dest f)
    → iterate_header f.attrs subscribe_handlers no_attrs
      ≡ iterated (record { destination = some dest; id = none }) f.attrs
iterate_header-subscription dest f p =
    ap (λ ls. iterate_header ls subscribe_handlers no_attrs) p.lines
    ∙ (iterate_header-one subscribe_handlers no_attrs _ p.before p.after _ _ p.plain_before
          p.plain_after (run_handlers-destination dest)
        ∙ ap (iterated (record { destination = some dest; id = none })) (sym p.lines))

-- the server after a subscription
abbrev pub subscribed : Bytes → Frame → Server → Server
subscribed dest f s = record s {
  workers = register_multicast_worker f.sock dest none s.workers;
  freed = f.addr ∷ s.freed;
}

subscribe_to-topic :
    (ctx : Context) (dest : Bytes) (f : Frame) (s : Server)
    → is_topic dest ≡ true
    → subscribe_to ctx f s (some dest) none
      ≡ handled none (record s { workers = register_multicast_worker f.sock dest none s.workers })
unfolding subscribe_to
subscribe_to-topic ctx dest f s t = rw t refl

handler_stomp_subscribe-topic :
    (ctx : Context) (dest : Bytes) (f : Frame) (s : Server)
    → IsSubscription dest f
    → is_topic dest ≡ true
    → handler_stomp_subscribe ctx f s
      ≡ handled none (record s { workers = register_multicast_worker f.sock dest none s.workers })
unfolding handler_stomp_subscribe with_attrs asserting
handler_stomp_subscribe-topic ctx dest f s p t =
    let act : SubscribeAttrs → Frame → Result = λ d g. subscribe_to ctx g s d.destination d.id in
    ap
      (λ c.
        asserting c (with_attrs ctx f s (iterate_header f.attrs subscribe_handlers no_attrs) act))
      p.connected
    ∙ ap (λ i. with_attrs ctx f s i act) (iterate_header-subscription dest f p)
    ∙ subscribe_to-topic ctx dest f s t

handle_frame-subscription :
    (fuel : ℕ) (ctx : Context) (dest : Bytes) (f : Frame) (s : Server)
    → IsSubscription dest f
    → is_topic dest ≡ true
    → handle_frame fuel ctx f s ≡ handled none (subscribed dest f s)
unfolding handle_frame find_handler strncmp_eq strlen call_handler released
handle_frame-subscription fuel ctx dest f s p t =
    ap (λ n. handle_found fuel ctx f s (find_handler n stomp_handlers)) p.named
    ∙ ap (released f) (handler_stomp_subscribe-topic ctx dest f s p t)

handled_then : (Server → Option Server) → Result → Option Server
handled_then next (handled o s) = next s
handled_then next aborted = none
handled_then next corrupted = none
handled_then next running = none

-- The management worker handles the frames, one behind the other.
unfoldable pub handle_frames : ℕ → Context → List Frame → Server → Option Server
unfolding handled_then
handle_frames fuel ctx [] s = some s
handle_frames fuel ctx (f ∷ fs) s =
    handled_then (handle_frames fuel ctx fs) (handle_frame fuel ctx f s)

-- the addresses of frames that were freed one behind the other
abbrev freed_with : List Frame → List ℕ → List ℕ
freed_with [] ns = ns
freed_with (f ∷ fs) ns = freed_with fs (f.addr ∷ ns)

abbrev pub client_of : Frame → Client
client_of f = alloc_client_info f.sock

-- the server with the group and the thread of a topic
abbrev pub with_subscribers : Bytes → List Client → List Frame → Server → Server
with_subscribers dest cs fs s = record s {
  workers = record {
    groups = s.workers.groups ++ group_of dest cs ∷ [];
    threads = s.workers.threads ++ multicast_worker (c_string dest) ∷ [];
  };
  freed = freed_with fs s.freed;
}

abbrev set_groups : Server → List ℕ → WorkerManager → Server
set_groups s freed w = record s { workers = w; freed = freed }

handle_frames-joined :
    (fuel : ℕ) (ctx : Context) (dest : Bytes) (fs : List Frame) (cs : List Client) (s : Server)
    (freed : List ℕ)
    → All (IsSubscription dest) fs
    → is_topic dest ≡ true
    → search_dest_group dest (strlen dest) s.workers.groups ≡ none
    → handle_frames fuel ctx fs (record (with_subscribers dest cs [] s) { freed = freed })
      ≡ some (record (with_subscribers dest (cs ++ map client_of fs) [] s) {
        freed = freed_with fs freed;
      })
unfolding handle_frames
handle_frames-joined fuel ctx dest [] cs s freed h t n =
    ap (λ ds. some (record (with_subscribers dest ds [] s) { freed = freed })) (sym (append-nil cs))
handle_frames-joined fuel ctx dest (f ∷ fs) cs s freed h t n =
    let w : WorkerManager = record s.workers {
      threads = s.workers.threads ++ multicast_worker (c_string dest) ∷ [];
    } in
    ap (handled_then (handle_frames fuel ctx fs)) (
      handle_frame-subscription fuel ctx dest f
        (record (with_subscribers dest cs [] s) { freed = freed }) h.0 t)
    ∙ ap (λ v. handle_frames fuel ctx fs (set_groups s (f.addr ∷ freed) v))
        (register_multicast_worker-again dest f.sock none s.workers.groups cs w n)
    ∙ handle_frames-joined fuel ctx dest fs (cs ++ client_of f ∷ []) s (f.addr ∷ freed) h.1 t n
    ∙ ap
        (λ ds.
          some (record (with_subscribers dest ds [] s) { freed = freed_with fs (f.addr ∷ freed) }))
        (append_assoc cs (client_of f ∷ []) (map client_of fs))

handle_frames-subscriptions :
    (fuel : ℕ) (ctx : Context) (dest : Bytes) (f : Frame) (fs : List Frame) (s : Server)
    → All (IsSubscription dest) (f ∷ fs)
    → is_topic dest ≡ true
    → search_dest_group dest (strlen dest) s.workers.groups ≡ none
    → handle_frames fuel ctx (f ∷ fs) s
      ≡ some (with_subscribers dest (map client_of (f ∷ fs)) (f ∷ fs) s)
unfolding handle_frames
handle_frames-subscriptions fuel ctx dest f fs s h t n =
    ap (handled_then (handle_frames fuel ctx fs))
      (handle_frame-subscription fuel ctx dest f s h.0 t)
    ∙ ap (λ v. handle_frames fuel ctx fs (set_groups s (f.addr ∷ s.freed) v))
        (register_multicast_worker-first dest f.sock none s.workers n)
    ∙ handle_frames-joined fuel ctx dest fs (client_of f ∷ []) s (f.addr ∷ s.freed) h.1 t n

-- Several clients subscribe to a topic that had no subscriber: one thread is started and one group
-- made, with every client in the order of the subscriptions. A frame that is then published to the
-- topic, in whose queue nothing waits, is sent by the next turn of this thread to every client with
-- a healthy socket, and exactly these stay in the group.
pub multicast_turn-publication :
    (fuel : ℕ) (ctx : Context) (dest : Bytes) (f : Frame) (fs : List Frame) (frame : Frame)
    (s : Server) (r : Ret) (pm : Persistent)
    → All (IsSubscription dest) (f ∷ fs)
    → is_topic dest ≡ true
    → search_dest_group dest (strlen dest) s.workers.groups ≡ none
    → IsPublication frame dest
    → persist_frame ctx.disk frame dest s.persistent ≡ some (r, pm)
    → length s.queues ≡ qb_size
    → contents s.queues (get_hash dest) ≡ []
    → (s' : Server) × (d : Delivery) × (handle_frames fuel ctx (f ∷ fs) s
        ≡ some (with_subscribers dest (map client_of (f ∷ fs)) (f ∷ fs) s))
      × (handle_frame fuel ctx frame (with_subscribers dest (map client_of (f ∷ fs)) (f ∷ fs) s)
          ≡ handled (some frame) s')
      × (multicast_turn ctx.env dest (map client_of (f ∷ fs)) (delivery s')
          ≡ some (healthy ctx.env (map client_of (f ∷ fs)), d))
      × (d.sent ≡ send_each frame (healthy ctx.env (map client_of (f ∷ fs))) s.sent)
multicast_turn-publication fuel ctx dest f fs frame s r pm h t n p e l empty =
    let s1 = with_subscribers dest (map client_of (f ∷ fs)) (f ∷ fs) s in
    let (s', ran, at, sized, books, sent, freed, _) =
      handle_frame-publication fuel ctx frame s1 dest r pm p e l in
    let here : contents s'.queues (get_hash dest) ≡ frame ∷ [] =
      at (get_hash dest) ∙ ground (arith, empty) in
    let (d, turn, wired) =
      multicast_turn-first ctx.env dest (client_of f) (map client_of fs) (delivery s') frame []
        here in
    (
      s',
      d,
      handle_frames-subscriptions fuel ctx dest f fs s h t n,
      ran,
      turn,
      wired ∙ ap (send_each frame (healthy ctx.env (map client_of (f ∷ fs)))) sent,
    )
