-- ===== src/Connection.antt =====
-- lib/connection.c: what is written to sockets, and the replies of lib/stomp.c that are made of it.
-- `send` always takes the whole message; the log holds each call, oldest first.
pub mod Accepting
use newtmq_server.Base.{
  ℕ, Bool, List, [], ◌∷◌, ◌++◌, Option, none, some, Bytes, codes, c_string, replicate, take, ltb,
  if◌then◌else◌,
}
use newtmq_server.Common.{Env}
use newtmq_server.Frame.{Frame, LineData, frame_id_len}

-- one call of `send_msg`: the socket and the bytes
abbrev pub Wire : Type 0
Wire = List (ℕ × Bytes)

unfoldable pub send_msg : ℕ → Bytes → Wire → Wire
send_msg sock msg w = w ++ (sock, msg) ∷ []

-- `is_socket_valid(sock) == RET_SUCCESS`; `getsockopt` is the environment's.
unfoldable pub is_socket_valid : Env → ℕ → Bool
is_socket_valid env sock = env.socket_ok sock

-- The loop over a NULL-terminated array of strings, each sent with its `strlen`.
unfoldable pub send_all : ℕ → List Bytes → Wire → Wire
unfolding send_msg
send_all sock [] w = w
send_all sock (m ∷ ms) w = send_all sock ms (send_msg sock (c_string m) w)

abbrev pub nul : Bytes
nul = 0 ∷ []

abbrev newline : Bytes
newline = b'\n' ∷ []

unfoldable pub stomp_send_error : Env → ℕ → Bytes → Wire → Wire
unfolding send_msg send_all is_socket_valid
stomp_send_error env sock body w =
    if is_socket_valid env sock
    then send_msg sock nul (send_all sock (codes "ERROR\n" ∷ newline ∷ body ∷ []) w)
    else w

-- `id` is NULL or a string.
unfoldable pub stomp_send_receipt : ℕ → Option Bytes → Wire → Wire
unfolding send_msg
stomp_send_receipt sock none w = w
stomp_send_receipt sock (some id) w =
    if ltb 0 sock
    then send_msg sock nul (
        send_msg sock (codes "receipt-id:" ++ (c_string id ++ newline))
          (send_msg sock (codes "RECEIPT\n") w))
    else w

-- The `len` bytes at the front of a buffer that is zero behind its contents.
abbrev pub buffer : LineData → Bytes
buffer l = take l.len (l.content ++ replicate l.len 0)

unfoldable pub send_headers : ℕ → List LineData → Wire → Wire
unfolding send_msg
send_headers sock [] w = w
send_headers sock (h ∷ hs) w =
    send_headers sock hs (send_msg sock newline (send_msg sock (buffer h) w))

unfoldable pub send_body : ℕ → List LineData → Wire → Wire
unfolding send_msg
send_body sock [] w = w
send_body sock (b ∷ bs) w = send_body sock bs (send_msg sock (buffer b) w)

-- All FRAME_ID_LEN bytes of the identifier are sent, its terminator too.
send_id : ℕ → Bytes → Wire → Wire
send_id sock id w = send_msg sock newline (
    send_msg sock (take frame_id_len (id ++ replicate frame_id_len 0))
      (send_msg sock (codes "message-id: ") w))

separated_body : ℕ → List LineData → Wire → Wire
separated_body sock [] w = w
separated_body sock (b ∷ bs) w = send_body sock (b ∷ bs) (send_msg sock newline w)

-- `headers` is the empty list where the source passes NULL.
unfoldable pub stomp_send_message : ℕ → Frame → List LineData → Wire → Wire
unfolding send_msg send_headers send_id separated_body send_body
stomp_send_message sock frame headers w =
    let started = send_msg sock (codes "MESSAGE\n") w in
    let headed = send_headers sock headers (send_headers sock frame.attrs started) in
    send_msg sock nul (separated_body sock frame.body (send_id sock frame.id headed))
