-- ===== src/Protocol/Session.antt =====
-- lib/stomp_proto_{connect,subscribe,unsubscribe,disconnect,ack,nack}.c
use newtmq_server.Base.{
  ℕ, if◌then◌else◌, Bool, ◌&&◌, leb, List, [], ◌∷◌, Option, none, some, Bytes, codes, strlen,
  strncmp_eq,
}
use newtmq_server.Connection.{Wire, send_all, send_msg, nul}
use newtmq_server.Frame.{Frame}
use newtmq_server.Management.{
  get_subscriber, unregister_subscriber, Subscriber, HeaderHandler, iterate_header,
}
use newtmq_server.Sending.{register_unicast_worker, register_multicast_worker}
use newtmq_server.Protocol.{
  Server, Context, Result, handled, aborted, send_error, with_attrs, asserting, storing,
  storing_nonempty, receipt,
}

-- `authinfo_t`
pub record AuthInfo : Type 0 where
  pub userid : Option Bytes
  pub passwd : Option Bytes

abbrev pub connect_handlers : List (HeaderHandler AuthInfo)
connect_handlers =
    record { name = codes "login:"; handler = storing (λ c d. record d { userid = some c }) }
    ∷ record { name = codes "passcode:"; handler = storing (λ c d. record d { passwd = some c }) }
    ∷ []

-- The last of the strings is empty, and `send` gets no byte of it.
unfoldable pub send_connected_msg : ℕ → Wire → Wire
send_connected_msg sock w =
    send_msg sock nul
      (send_all sock (codes "CONNECTED\n" ∷ codes "version:1.2\n" ∷ codes "\n" ∷ [] ∷ []) w)

unfoldable pub connect_from : Context → Frame → Server → Option ℕ → Result
unfolding with_attrs send_connected_msg
connect_from ctx frame s none = aborted
connect_from ctx frame s (some cinfo) =
    with_attrs ctx frame s
      (iterate_header frame.attrs connect_handlers (record { userid = none; passwd = none }))
      (λ d f.
        handled none
          (record s { connected = cinfo ∷ s.connected; sent = send_connected_msg f.sock s.sent }))

unfoldable pub handler_stomp_connect : Context → Frame → Server → Result
unfolding connect_from
handler_stomp_connect ctx frame s = connect_from ctx frame s frame.cinfo

-- `struct attrinfo_t` of stomp_proto_subscribe.c
pub record SubscribeAttrs : Type 0 where
  pub destination : Option Bytes
  pub id : Option Bytes

abbrev pub subscribe_handlers : List (HeaderHandler SubscribeAttrs)
subscribe_handlers =
    record {
      name = codes "destination:";
      handler = storing (λ c d. record d { destination = some c });
    }
    ∷ record { name = codes "id:"; handler = storing (λ c d. record d { id = some c }) }
    ∷ []

unfoldable pub is_topic : Bytes → Bool
is_topic dest = leb 7 (strlen dest) && strncmp_eq dest (codes "/topic/") 7

unfoldable pub subscribe_to : Context → Frame → Server → Option Bytes → Option Bytes → Result
unfolding is_topic send_error
subscribe_to ctx frame s none id =
    handled none (send_error ctx frame.sock (codes "no destination is specified\n") s)
subscribe_to ctx frame s (some dest) id =
    let workers =
      if is_topic dest
      then register_multicast_worker frame.sock dest id s.workers
      else register_unicast_worker frame.sock dest id s.workers in
    handled none (record s { workers = workers })

unfoldable pub handler_stomp_subscribe : Context → Frame → Server → Result
unfolding with_attrs asserting subscribe_to
handler_stomp_subscribe ctx frame s = asserting frame.cinfo (
    with_attrs ctx frame s
      (iterate_header frame.attrs subscribe_handlers (record { destination = none; id = none }))
      (λ d f. subscribe_to ctx f s d.destination d.id))

-- The header `id:` alone, as UNSUBSCRIBE, ACK and NACK read it.
abbrev pub id_handlers : List (HeaderHandler (Option Bytes))
id_handlers = record { name = codes "id:"; handler = storing (λ c d. some c) } ∷ []

cancel : Option Subscriber → List ℕ → List ℕ
cancel none threads = threads
cancel (some sub) threads = sub.thread_id ∷ threads

unfoldable pub unsubscribe_id : Option Bytes → Server → Server
unfolding cancel
unsubscribe_id none s = s
unsubscribe_id (some id) s = record s {
  cancelled = cancel (get_subscriber (some id) s.subscribers) s.cancelled;
  subscribers = (unregister_subscriber (some id) s.subscribers).1;
}

unfoldable pub handler_stomp_unsubscribe : Context → Frame → Server → Result
unfolding with_attrs asserting unsubscribe_id
handler_stomp_unsubscribe ctx frame s = asserting frame.cinfo (
    with_attrs ctx frame s (iterate_header frame.attrs id_handlers none)
      (λ d f. handled none (unsubscribe_id d s)))

-- `id` is read, and nothing is done with it.
unfoldable pub handler_stomp_ack : Context → Frame → Server → Result
unfolding with_attrs asserting
handler_stomp_ack ctx frame s =
    asserting frame.cinfo
      (with_attrs ctx frame s (iterate_header frame.attrs id_handlers none) (λ d f. handled none s))

unfoldable pub handler_stomp_nack : Context → Frame → Server → Result
unfolding with_attrs asserting
handler_stomp_nack ctx frame s =
    asserting frame.cinfo
      (with_attrs ctx frame s (iterate_header frame.attrs id_handlers none) (λ d f. handled none s))

abbrev pub disconnect_handlers : List (HeaderHandler (Option Bytes))
disconnect_handlers =
    record { name = codes "receipt:"; handler = storing_nonempty (λ c d. some c) } ∷ []

unfoldable pub handler_stomp_disconnect : Context → Frame → Server → Result
unfolding with_attrs receipt
handler_stomp_disconnect ctx frame s =
    with_attrs ctx frame s (iterate_header frame.attrs disconnect_handlers none)
      (λ d f. handled none (receipt f d s))
