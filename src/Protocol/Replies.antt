-- ===== src/Protocol/Replies.antt =====
-- What CONNECT and ACK do, whatever their header lines.
use newtmq_server.Base.{ℕ, ◌∷◌, codes, All, none, some, ◌≡◌, refl, ap, ◌∙◌}
use newtmq_server.Base.Text.{strncmp_eq, strlen}
use newtmq_server.Frame.{Frame}
use newtmq_server.Management.{iterate_header}
use newtmq_server.Management.Headers.{Stores, iterate_header-Stores}
use newtmq_server.Protocol.{Server, Context, Result, handled, with_attrs, asserting}
use newtmq_server.Protocol.Session.{
  connect_handlers, id_handlers, send_connected_msg, handler_stomp_connect, connect_from,
  handler_stomp_ack,
}
use newtmq_server.Protocol.Dispatch.{
  stomp_handlers, find_handler, call_handler, handle_frame, handle_found, released,
}

connect_handlers-Stores : All Stores connect_handlers
connect_handlers-Stores = ((λ c d line. (_, refl)), ((λ c d line. (_, refl)), tt))

id_handlers-Stores : All Stores id_handlers
id_handlers-Stores = ((λ c d line. (_, refl)), tt)

-- A CONNECT frame on a known connection is always accepted, whatever its header lines: the
-- connection is connected, exactly the CONNECTED frame is sent, and the frame is freed.
pub handle_frame-connect :
    (fuel : ℕ) (ctx : Context) (f : Frame) (s : Server) (conn : ℕ)
    → f.name ≡ codes "CONNECT"
    → f.cinfo ≡ some conn
    → handle_frame fuel ctx f s
      ≡ handled none (record s {
        connected = conn ∷ s.connected;
        sent = send_connected_msg f.sock s.sent;
        freed = f.addr ∷ s.freed;
      })
unfolding handle_frame find_handler strncmp_eq strlen call_handler handle_found released
    handler_stomp_connect connect_from with_attrs
handle_frame-connect fuel ctx f s conn n c =
    let (d, walked) =
      iterate_header-Stores connect_handlers (record { userid = none; passwd = none }) f.attrs
        connect_handlers-Stores in
    let after : Frame → Result = λ g.
      handled none
        (record s { connected = conn ∷ s.connected; sent = send_connected_msg g.sock s.sent }) in
    ap (λ x. handle_found fuel ctx f s (find_handler x stomp_handlers)) n
    ∙ ap (λ o. released f (connect_from ctx f s o)) c
    ∙ ap (λ i. released f (with_attrs ctx f s i (λ _ g. after g))) walked

-- An ACK frame from a known connection does nothing but free itself.
pub handle_frame-ack :
    (fuel : ℕ) (ctx : Context) (f : Frame) (s : Server) (conn : ℕ)
    → f.name ≡ codes "ACK"
    → f.cinfo ≡ some conn
    → handle_frame fuel ctx f s ≡ handled none (record s { freed = f.addr ∷ s.freed })
unfolding handle_frame find_handler strncmp_eq strlen call_handler handle_found released
    handler_stomp_ack asserting with_attrs
handle_frame-ack fuel ctx f s conn n c =
    let (d, walked) = iterate_header-Stores id_handlers none f.attrs id_handlers-Stores in
    ap (λ x. handle_found fuel ctx f s (find_handler x stomp_handlers)) n
    ∙ ap
        (λ o. released f (
          asserting o
            (with_attrs ctx f s (iterate_header f.attrs id_handlers none) (λ _ g. handled none s))))
        c
    ∙ ap (λ i. released f (with_attrs ctx f s i (λ _ g. handled none s))) walked
