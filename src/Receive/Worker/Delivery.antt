-- ===== src/Receive/Worker/Delivery.antt =====
-- A connection that sends whole messages and closes.
use newtmq_server.Base.{
  ℕ, suc, ◌<◌, ◌≡◌, refl, ap, ◌∙◌, sym, List, [], ◌∷◌, ◌++◌, Option, none, some, Bytes, length,
  arith, All,
}
use newtmq_server.Common.{Env}
use newtmq_server.Receive.{Receiver, recv_data}
use newtmq_server.Receive.Lines.{idle}
use newtmq_server.Receive.Roundtrip.Wire.{
  Message, IsMessage, length-wire, wires, after_message, after_messages,
}
use newtmq_server.Receive.Roundtrip.{recv_data-wires}
use newtmq_server.Receive.Worker.{
  Received, ended, conn_init, finish_frame, next_recv, conn_loop, stomp_conn_worker,
}

-- A call of `recv` that fails, or that gives whole messages.
abbrev pub IsBatch : Option (List Message) → Type 0
IsBatch none = Unit
IsBatch (some ms) = All IsMessage ms × (0 < length ms)

abbrev pub received_as : Option (List Message) → Received
received_as none = none
received_as (some ms) = some (wires ms)

-- what the calls of `recv` return, until the client closes
abbrev pub arrivals : List (Option (List Message)) → List Received → List Received
arrivals [] later = some [] ∷ later
arrivals (b ∷ bs) later = received_as b ∷ arrivals bs later

-- all messages, in their order
abbrev pub sent_messages : List (Option (List Message)) → List Message
sent_messages [] = []
sent_messages (none ∷ bs) = sent_messages bs
sent_messages (some ms ∷ bs) = ms ++ sent_messages bs

after_messages-append :
    (env : Env) (sock : ℕ) (ms ns : List Message) (r : Receiver)
    → after_messages env sock (after_messages env sock r ms) ns
      ≡ after_messages env sock (idle r) (ms ++ ns)
after_messages-append env sock [] ns r = refl
after_messages-append env sock (m ∷ ms) ns r =
    after_messages-append env sock ms ns (after_message env sock r m)

after_messages-idle :
    (env : Env) (sock : ℕ) (ms : List Message) (r : Receiver)
    → idle (after_messages env sock r ms) ≡ after_messages env sock r ms
after_messages-idle env sock [] r = refl
after_messages-idle env sock (m ∷ ms) r =
    after_messages-idle env sock ms (after_message env sock r m)

pub conn_loop-bytes :
    (env : Env) (sock : ℕ) (bytes : Bytes) (later : List Received) (r : Receiver)
    → 0 < length bytes
    → conn_loop env sock (some bytes ∷ later) r
      ≡ next_recv (conn_loop env sock later) (recv_data env sock (suc (length bytes)) bytes r)
unfolding conn_loop
conn_loop-bytes env sock [] later r h = absurd (omega arith)
conn_loop-bytes env sock (c ∷ cs) later r h = refl

after_messages-from_idle :
    (env : Env) (sock : ℕ) (ms : List Message) (r : Receiver)
    → after_messages env sock (idle r) ms ≡ after_messages env sock r ms
after_messages-from_idle env sock [] r = refl
after_messages-from_idle env sock (m ∷ ms) r = refl

wires-nonempty : (ms : List Message) → 0 < length ms → 0 < length (wires ms)
wires-nonempty [] h = absurd (omega arith)
wires-nonempty (m ∷ ms) h = omega (arith, length-wire m (wires ms))

conn_loop-wires :
    (env : Env) (sock : ℕ) (ms : List Message) (later : List Received) (r : Receiver)
    → IsBatch (some ms)
    → conn_loop env sock (some (wires ms) ∷ later) (idle r)
      ≡ conn_loop env sock later (idle (after_messages env sock r ms))
unfolding next_recv
conn_loop-wires env sock ms later r b =
    conn_loop-bytes env sock (wires ms) later (idle r) (wires-nonempty ms b.1)
    ∙ ap (next_recv (conn_loop env sock later))
        (recv_data-wires env sock (suc (length (wires ms))) ms r b.0 (omega arith))
    ∙ ap (conn_loop env sock later) (sym (after_messages-idle env sock ms r))

conn_loop-batches :
    (env : Env) (sock : ℕ) (bs : List (Option (List Message))) (later : List Received)
    (r : Receiver)
    → All IsBatch bs
    → conn_loop env sock (arrivals bs later) (idle r)
      ≡ ended (after_messages env sock r (sent_messages bs))
unfolding conn_loop finish_frame
conn_loop-batches env sock [] later r h = refl
conn_loop-batches env sock (none ∷ bs) later r h = conn_loop-batches env sock bs later r h.1
conn_loop-batches env sock (some ms ∷ bs) later r h =
    conn_loop-wires env sock ms (arrivals bs later) r h.0
    ∙ conn_loop-batches env sock bs later (after_messages env sock r ms) h.1
    ∙ ap ended (
        after_messages-append env sock ms (sent_messages bs) r
        ∙ after_messages-from_idle env sock (ms ++ sent_messages bs) r)

-- A new connection sends well-formed messages, whole ones with each `recv`, some calls of which may
-- fail, and closes: the thread returns, with every message in the bucket, in the order in which they
-- were sent, nothing held back and no error sent, whatever comes behind.
pub stomp_conn_worker-batches :
    (env : Env) (sock : ℕ) (bs : List (Option (List Message))) (later : List Received)
    (r : Receiver)
    → All IsBatch bs
    → stomp_conn_worker env sock (arrivals bs later) r
      ≡ ended (after_messages env sock (conn_init env r).1 (sent_messages bs))
unfolding stomp_conn_worker conn_init
stomp_conn_worker-batches env sock bs later r h =
    conn_loop-batches env sock bs later (conn_init env r).1 h
