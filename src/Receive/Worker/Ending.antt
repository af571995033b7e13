-- ===== src/Receive/Worker/Ending.antt =====
-- What `conn_finish` leaves as it is.
use newtmq_server.Base.{◌≡◌, refl, Option, none, some}
use newtmq_server.Common.{Env}
use newtmq_server.Frame.{
  Frame, Status, cleared, born, input_name, input_header, input_body, in_bucket, in_queue,
}
use newtmq_server.Receive.{Receiver}
use newtmq_server.Receive.Worker.{conn_finish, finish_frame, finish_in, put_in_bucket}

-- nothing is allocated between the two states, and nothing sent
abbrev pub Keeps : Receiver → Receiver → Type 0
Keeps r r' = (r'.allocated ≡ r.allocated) × (r'.sent ≡ r.sent)

finish_in-Keeps :
    (st : Status) (env : Env) (f : Frame) (r : Receiver) → Keeps r (finish_in st env f r).1
unfolding finish_in put_in_bucket
finish_in-Keeps input_body env f r = (refl, refl)
finish_in-Keeps input_name env f r = (refl, refl)
finish_in-Keeps cleared env f r = (refl, refl)
finish_in-Keeps born env f r = (refl, refl)
finish_in-Keeps input_header env f r = (refl, refl)
finish_in-Keeps in_bucket env f r = (refl, refl)
finish_in-Keeps in_queue env f r = (refl, refl)

finish_frame-Keeps :
    (env : Env) (r : Receiver) (o : Option Frame) → Keeps r (finish_frame env r o).1
unfolding finish_frame
finish_frame-Keeps env r none = (refl, refl)
finish_frame-Keeps env r (some f) = finish_in-Keeps f.status env f r

pub conn_finish-Keeps : (env : Env) (r : Receiver) → Keeps r (conn_finish env r).1
unfolding conn_finish
conn_finish-Keeps env r = finish_frame-Keeps env r r.frame
