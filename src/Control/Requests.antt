-- ===== src/Control/Requests.antt =====
-- What a client is told that asks for the queues.
use newtmq_server.Base.{
  ℕ, ◌<◌, ◌≡◌, refl, ap, ◌∙◌, sym, List, [], ◌∷◌, ◌++◌, Option, some, Bytes, length, arith,
}
use newtmq_server.Connection.{Wire, send_msg}
use newtmq_server.Control.{
  Command, number, raw, Msgpack, unpack, unpack_str, with_context, via_int, dispatch,
  newtctl_list_queues, answer, ended, newtctl_worker, ret_success,
}

-- What msgpack promises: a command that was packed is unpacked as the array of its members, and takes
-- some bytes.
pub record IsMsgpack (lib : Msgpack) : Type 0 where
  pub members :
      (d : Command)
      → lib.unpacked (lib.packed d) ≡ some (number d.command ∷ number d.status ∷ raw d.context ∷ [])
  pub nonempty : (d : Command) → 0 < length (lib.packed d)

-- the command that lists the queues, with a context
abbrev pub list_queues : Bytes → Command
list_queues context = record { command = 1; status = 0; context = context }

-- what is sent for it
abbrev pub reply : Bytes → Command
reply context = record { command = 1; status = ret_success; context = context }

abbrev pub requests : Msgpack → List Bytes → List (Option Bytes)
requests lib [] = some [] ∷ []
requests lib (context ∷ contexts) = some (lib.packed (list_queues context)) ∷ requests lib contexts

-- one reply for each request
abbrev pub replies : Msgpack → ℕ → Bytes → List Bytes → Wire → Wire
replies lib sock junk [] w = w
replies lib sock junk (context ∷ contexts) w =
    replies lib sock junk contexts (w ++ (sock, lib.packed (reply junk)) ∷ [])

abbrev pub last_command : Command → List Bytes → Command
last_command cobj [] = cobj
last_command cobj (context ∷ contexts) = reply cobj.context

module _ (lib : Msgpack) (sock : ℕ) where
  newtctl_worker-bytes :
      (bytes : Bytes) (later : List (Option Bytes)) (cobj : Command) (w : Wire)
      → 0 < length bytes
      → newtctl_worker lib sock (some bytes ∷ later) cobj w
        ≡ answer (newtctl_worker lib sock later) lib sock cobj w (unpack (lib.unpacked bytes) cobj)
  unfolding newtctl_worker
  newtctl_worker-bytes [] later cobj w h = absurd (omega arith)
  newtctl_worker-bytes (c ∷ cs) later cobj w h = refl

  newtctl_worker-request :
      (context : Bytes) (later : List (Option Bytes)) (cobj : Command) (w : Wire)
      → IsMsgpack lib
      → newtctl_worker lib sock (some (lib.packed (list_queues context)) ∷ later) cobj w
        ≡ newtctl_worker lib sock later
            (reply cobj.context)
            (w ++ (sock, lib.packed (reply cobj.context)) ∷ [])
  unfolding unpack unpack_str with_context via_int answer dispatch newtctl_list_queues send_msg
  newtctl_worker-request context later cobj w m =
      newtctl_worker-bytes (lib.packed (list_queues context)) later cobj w
        (m.nonempty (list_queues context))
      ∙ ap (λ o. answer (newtctl_worker lib sock later) lib sock cobj w (unpack o cobj))
          (m.members (list_queues context))

last_reply :
    (contexts : List Bytes) (cobj : Command)
    → cobj ≡ reply cobj.context
    → last_command cobj contexts ≡ cobj
last_reply [] cobj e = refl
last_reply (c ∷ cs) cobj e = sym e

-- A client that asks for the queues any number of times, a request with each `recv`, and closes gets
-- one reply for each request.
-- The status is that of success; the context is what lay in the memory of the worker before, whatever
-- the client sent, and names no queue.
pub newtctl_worker-requests :
    (lib : Msgpack) (sock : ℕ) (contexts : List Bytes) (cobj : Command) (w : Wire)
    → IsMsgpack lib
    → newtctl_worker lib sock (requests lib contexts) cobj w
      ≡ ended (last_command cobj contexts) (replies lib sock cobj.context contexts w)
unfolding newtctl_worker
newtctl_worker-requests lib sock [] cobj w m = refl
newtctl_worker-requests lib sock (context ∷ contexts) cobj w m =
    newtctl_worker-request lib sock context (requests lib contexts) cobj w m
    ∙ newtctl_worker-requests lib sock contexts (reply cobj.context) _ m
    ∙ ap (λ d. ended d (replies lib sock cobj.context (context ∷ contexts) w))
        (last_reply contexts (reply cobj.context) refl)
