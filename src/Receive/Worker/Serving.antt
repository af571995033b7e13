-- ===== src/Receive/Worker/Serving.antt =====
-- `connection_co_worker` of lib/connection.c: the thread of an accepted connection, with the worker of the
-- STOMP port as its handler.
use newtmq_server.Base.{ℕ, List, ◌∷◌, Option, none, some, All, ◌≡◌, ap}
use newtmq_server.Common.{Env}
use newtmq_server.Receive.{Receiver}
use newtmq_server.Receive.Roundtrip.Wire.{Message, after_messages}
use newtmq_server.Receive.Worker.{
  Received, Session, ended, waiting, corrupted, stuck, conn_init, stomp_conn_worker,
}
use newtmq_server.Receive.Worker.Delivery.{
  IsBatch, arrivals, sent_messages, stomp_conn_worker-batches,
}

module _ {ℓ} {W : Type ℓ} where
  -- what is left when the handler has returned, with the sockets that were closed
  abbrev close_after : ℕ → List ℕ → Option W → Option (List ℕ × W)
  close_after sock closed none = none
  close_after sock closed (some w) = some (sock ∷ closed, w)

  -- `none` is a handler that does not return; the socket then stays open.
  unfoldable pub connection_co_worker :
      Option (ℕ → W → Option W) → ℕ → List ℕ → W → Option (List ℕ × W)
  connection_co_worker none sock closed w = some (sock ∷ closed, w)
  connection_co_worker (some handler) sock closed w = close_after sock closed (handler sock w)

-- the state in which a handler returns
abbrev pub returned : Session → Option Receiver
returned (ended r) = some r
returned (waiting r) = none
returned corrupted = none
returned stuck = none

-- `handler` of a connection on the STOMP port, on what `recv` gives
unfoldable pub stomp_handler : Env → List Received → ℕ → Receiver → Option Receiver
stomp_handler env received sock r = returned (stomp_conn_worker env sock received r)

-- A connection that sends whole messages and closes has its socket closed, once, when every message
-- is in the bucket.
pub connection_co_worker-batches :
    (env : Env) (sock : ℕ) (bs : List (Option (List Message))) (later : List Received)
    (closed : List ℕ) (r : Receiver)
    → All IsBatch bs
    → connection_co_worker (some (stomp_handler env (arrivals bs later))) sock closed r
      ≡ some (sock ∷ closed, after_messages env sock (conn_init env r).1 (sent_messages bs))
unfolding connection_co_worker stomp_handler
connection_co_worker-batches env sock bs later closed r h =
    ap (λ s. close_after sock closed (returned s)) (stomp_conn_worker-batches env sock bs later r h)
