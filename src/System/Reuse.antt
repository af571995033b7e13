-- ===== src/System/Reuse.antt =====
-- A socket that is closed while a worker still sends to it, and its number given to a new client.
mod Tests
use newtmq_server.Base.{
  ℕ, suc, ◌+◌, ◌≡◌, refl, ap, ◌∙◌, List, [], ◌∷◌, ◌++◌, append_assoc, some, none, Bytes, true,
  length,
}
use newtmq_server.Common.{get_hash}
use newtmq_server.Connection.{is_socket_valid, stomp_send_message}
use newtmq_server.Frame.{Frame}
use newtmq_server.Queue.{qb_size}
use newtmq_server.Queue.Laws.{contents}
use newtmq_server.Receive.{Receiver}
use newtmq_server.Receive.Worker.{conn_init, conn_finish}
use newtmq_server.Receive.Worker.Ending.{conn_finish-Keeps}
use newtmq_server.Sending.{Client, Worker, unicast_worker, unicast_turn, subscription_headers}
use newtmq_server.Sending.Turns.{unicast_turn-first}
use newtmq_server.Protocol.{Context}
use newtmq_server.System.{
  System, Link, link_of, receiver_of, received, delivery_of, delivered, new_link, Step, accepted,
  closed, sent_one, Reachable,
}
use newtmq_server.System.Soundness.{Reachable-IsSound}

-- the state after the connection `l` has ended
abbrev pub after_closing : Context → System → Link → List Link → System
after_closing ctx s l rest = received s (conn_finish ctx.env (receiver_of s l)).1 rest

-- a new connection on a socket
abbrev pub newcomer : Context → System → Receiver
newcomer ctx s = (conn_init ctx.env (receiver_of s new_link)).1

abbrev pub after_accepting : Context → System → ℕ → System
after_accepting ctx s sock =
    received s (newcomer ctx s) (s.links ++ link_of sock (newcomer ctx s) ∷ [])

-- In every state that the threads can reach: a worker sends to the socket of a connection, and a frame is
-- in its queue. The connection ends, a new client gets the number of the socket, and the worker takes
-- its turn: the MESSAGE for the client that has gone is sent to the new client, which is another
-- connection and has not subscribed to anything.
pub sent_one-newcomer :
    {ctx : Context} {s : System} (before after : List Link) (l : Link) (ahead behind : List Worker)
    (c : Client) (dest : Bytes) (f : Frame) (fs : List Frame)
    → Reachable ctx s
    → s.links ≡ before ++ l ∷ after
    → s.server.workers.threads ≡ ahead ++ unicast_worker c dest ∷ behind
    → c.sock ≡ l.sock
    → is_socket_valid ctx.env c.sock ≡ true
    → contents s.server.queues (get_hash dest) ≡ f ∷ fs
    → let u = after_closing ctx s l (before ++ after) in
      let v = after_accepting ctx u l.sock in
      (t : System) × Step ctx s u
      × Step ctx u v
      × Step ctx v t
      × (t.links ≡ (before ++ after) ++ link_of l.sock (newcomer ctx u) ∷ [])
      × ((newcomer ctx u).conn ≡ s.allocated)
      × (t.server.sent ≡ stomp_send_message l.sock f (subscription_headers c.id) s.server.sent)
unfolding conn_init
sent_one-newcomer {ctx} {s} before after l ahead behind c dest f fs r i w same valid e =
    let u = after_closing ctx s l (before ++ after) in
    let v = after_accepting ctx u l.sock in
    let kept = conn_finish-Keeps ctx.env (receiver_of s l) in
    let (d, turn, rest, sent, books) =
      unicast_turn-first ctx.env c dest (delivery_of v.server) f fs valid e
        (Reachable-IsSound r).orderly.0 in
    (
      record v { server = delivered v.server d },
      closed s before after l i,
      accepted u l.sock (newcomer ctx u) refl,
      sent_one v ctx.env ahead behind c dest d w turn,
      refl,
      kept.0,
      sent
          ∙ ap (λ n. stomp_send_message n f (subscription_headers c.id) v.server.sent) same
          ∙ ap (stomp_send_message l.sock f (subscription_headers c.id)) kept.1,
    )
