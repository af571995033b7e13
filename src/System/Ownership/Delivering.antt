-- ===== src/System/Ownership/Delivering.antt =====
-- A sending worker takes a frame from a queue and frees it once at most.
use newtmq_server.Base.{
  ℕ, ◌+◌, ◌≤◌, ◌≡◌, subst, Bool, true, false, List, [], ◌∷◌, Option, none, some, Bytes, arith,
}
use newtmq_server.Common.{Env}
use newtmq_server.Connection.{is_socket_valid}
use newtmq_server.Frame.{Frame, LineData}
use newtmq_server.Queue.{dequeue}
use newtmq_server.Sending.{
  Client, Delivery, subscription_headers, deliver_to, unicast_valid, unicast_turn, reply_turn,
  multicast_frame, multicast_turn,
}
use newtmq_server.System.Ownership.Counts.{count_frame, count_box, count_freed}
use newtmq_server.System.Ownership.Queues.{dequeue-count}

abbrev pub count_delivery : ℕ → Delivery → ℕ
count_delivery a d = count_box a d.queues + count_freed a d.freed

-- of what a turn leaves, if it is not the last
abbrev Turned : ℕ → ℕ → Option Delivery → Type 0
Turned a k none = Unit
Turned a k (some d) = count_delivery a d ≤ k

abbrev TurnedAll : ℕ → ℕ → Option (List Client × Delivery) → Type 0
TurnedAll a k none = Unit
TurnedAll a k (some x) = count_delivery a x.1 ≤ k

deliver_to-count :
    (a : ℕ) (c : Client) (headers : List LineData) (dest : Bytes) (o : Option Frame) (d : Delivery)
    → count_delivery a (deliver_to c headers dest o d) ≤ count_delivery a d
unfolding deliver_to
deliver_to-count a c headers dest none d = omega arith
deliver_to-count a c headers dest (some f) d = omega arith

unicast_valid-Turned :
    (a : ℕ) (c : Client) (headers : List LineData) (dest : Bytes) (b : Bool) (d : Delivery)
    → Turned a (count_delivery a d) (unicast_valid c headers dest b d)
unfolding unicast_valid
unicast_valid-Turned a c headers dest false d = tt
unicast_valid-Turned a c headers dest true d =
    let taken = dequeue dest d.queues in
    omega (
      arith,
      deliver_to-count a c headers dest taken.0 (record d { queues = taken.1 }),
      dequeue-count a dest d.queues,
    )

pub unicast_turn-count :
    (a : ℕ) (env : Env) (c : Client) (dest : Bytes) (d d' : Delivery)
    → unicast_turn env c dest d ≡ some d'
    → count_delivery a d' ≤ count_delivery a d
unfolding unicast_turn
unicast_turn-count a env c dest d d' e =
    subst (Turned a (count_delivery a d)) e
      (unicast_valid-Turned a c (subscription_headers c.id) dest (is_socket_valid env c.sock) d)

pub reply_turn-count :
    (a : ℕ) (env : Env) (c : Client) (dest : Bytes) (d d' : Delivery)
    → reply_turn env c dest d ≡ some d'
    → count_delivery a d' ≤ count_delivery a d
unfolding reply_turn
reply_turn-count a env c dest d d' e =
    subst (Turned a (count_delivery a d)) e
      (unicast_valid-Turned a c [] dest (is_socket_valid env c.sock) d)

multicast_frame-count :
    (a : ℕ) (env : Env) (dest : Bytes) (o : Option Frame) (cs : List Client) (d : Delivery)
    → count_delivery a (multicast_frame env dest o cs d).1 ≤ count_delivery a d + count_frame a o
unfolding multicast_frame
multicast_frame-count a env dest none cs d = omega arith
multicast_frame-count a env dest (some f) cs d = omega arith

multicast_turn-TurnedAll :
    (a : ℕ) (env : Env) (dest : Bytes) (cs : List Client) (d : Delivery)
    → TurnedAll a (count_delivery a d) (multicast_turn env dest cs d)
unfolding multicast_turn
multicast_turn-TurnedAll a env dest [] d = tt
multicast_turn-TurnedAll a env dest (c ∷ cs) d =
    let taken = dequeue dest d.queues in
    omega (
      arith,
      multicast_frame-count a env dest taken.0 (c ∷ cs) (record d { queues = taken.1 }),
      dequeue-count a dest d.queues,
    )

pub multicast_turn-count :
    (a : ℕ) (env : Env) (dest : Bytes) (cs cs' : List Client) (d d' : Delivery)
    → multicast_turn env dest cs d ≡ some (cs', d')
    → count_delivery a d' ≤ count_delivery a d
multicast_turn-count a env dest cs cs' d d' e =
    subst (TurnedAll a (count_delivery a d)) e (multicast_turn-TurnedAll a env dest cs d)
