-- ===== src/Receive/Worker.antt =====
-- The thread of a connection, `stomp_conn_worker` of lib/stomp.c, with `conn_init` and `conn_finish`:
-- it calls `recv_data` on what `recv` gives until the client closes the connection.
pub mod Delivery
pub mod Closing
pub mod Ending
pub mod Serving
mod Tests
use newtmq_server.Base.{ℕ, suc, ◌+◌, ◌-◌, List, [], ◌∷◌, ◌++◌, Option, none, some, Bytes, length}
use newtmq_server.Common.{Ret, success, error, Env, gen_random}
use newtmq_server.Frame.{Frame, Status, input_name, input_body, frame_finish, frame_id_len}
use newtmq_server.Receive.{Receiver, Outcome, recv_data}

abbrev pub conn_id_len : ℕ
conn_id_len = 10

-- `conn_init`, in the state that the server is in: the identifier of the new connection, which has
-- no frame and holds nothing back.
unfoldable pub conn_init : Env → Receiver → Bytes × Receiver
conn_init env r = (
  gen_random env r.draws conn_id_len,
  record r {
    conn = r.allocated;
    frame = none;
    prev = none;
    draws = r.draws + (conn_id_len - 1);
    allocated = r.allocated + 1;
  },
)

-- `frame_finish`, which puts the frame at the tail of the bucket; `cinfo->frame` stays as it is.
unfoldable pub put_in_bucket : Env → Frame → Receiver → Receiver
unfolding frame_finish
put_in_bucket env f r =
    let finished = frame_finish (gen_random env r.draws frame_id_len) f in
    record r {
      frame = some finished;
      bucket = r.bucket ++ finished ∷ [];
      draws = r.draws + (frame_id_len - 1);
    }

-- the branches of `conn_finish` on the status of the frame
unfoldable pub finish_in : Status → Env → Frame → Receiver → Ret × Receiver
unfolding put_in_bucket
finish_in input_body env f r = (success, put_in_bucket env f r)
finish_in input_name env f r = (success, put_in_bucket env f r)
finish_in _ env f r = (error, r)

unfoldable pub finish_frame : Env → Receiver → Option Frame → Ret × Receiver
unfolding finish_in
finish_frame env r none = (error, r)
finish_frame env r (some f) = finish_in f.status env f r

unfoldable pub conn_finish : Env → Receiver → Ret × Receiver
unfolding finish_frame
conn_finish env r = finish_frame env r r.frame

-- What `recv` returns: -1, or bytes, of which there are none when the client has closed.
abbrev pub Received : Type 0
Received = Option Bytes

-- How far the thread gets: it returns, waits in `recv`, has written past the end of an array, or
-- stays in `recv_data` for ever.
pub data Session : Type 0 where
  ended waiting : Receiver → Session
  corrupted stuck : Session

unfoldable pub next_recv : (Receiver → Session) → Outcome → Session
next_recv loop (Outcome.done r) = loop r
next_recv loop Outcome.corrupted = Session.corrupted
next_recv loop Outcome.running = stuck

-- The loop, on what the calls of `recv` return. With a length of -1 `recv_data` has nothing to
-- read, and the loop goes on. The fuel of `recv_data` is enough where any is.
unfoldable pub conn_loop : Env → ℕ → List Received → Receiver → Session
unfolding next_recv conn_finish
conn_loop env sock [] r = waiting r
conn_loop env sock (none ∷ later) r = conn_loop env sock later r
conn_loop env sock (some [] ∷ later) r = ended (conn_finish env r).1
conn_loop env sock (some (c ∷ cs) ∷ later) r =
    next_recv (conn_loop env sock later) (recv_data env sock (suc (length (c ∷ cs))) (c ∷ cs) r)

unfoldable pub stomp_conn_worker : Env → ℕ → List Received → Receiver → Session
unfolding conn_init conn_loop
stomp_conn_worker env sock received r = conn_loop env sock received (conn_init env r).1
