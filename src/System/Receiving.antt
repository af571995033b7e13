-- ===== src/System/Receiving.antt =====
-- The thread of a connection keeps its frame in order, and puts only ready frames in the bucket.
use newtmq_server.Base.{
  ℕ, zero, suc, ◌≡◌, refl, subst, inl, inr, [], ◌∷◌, Option, none, some, Bytes, All, All-append,
  Bool-cases,
}
use newtmq_server.Common.{Env, gen_random, Ret, success, error}
use newtmq_server.Frame.{
  Frame, Status, cleared, born, input_name, input_header, input_body, in_bucket, in_queue, Update,
  failed, more, complete, alloc_frame, frame_update, is_frame_name, frame_id_len,
}
use newtmq_server.Receive.{
  Receiver, Round, next, stopped, overflow, Outcome, done, corrupted, running, recv_data, resume,
  recv_round, split_round, handle_line, take_line, updated, prepare_frame, merge, is_skipped,
  allocated_after,
}
use newtmq_server.Receive.Worker.{conn_finish, finish_frame, finish_in, put_in_bucket}
use newtmq_server.System.Frames.{
  IsReady, IsGrowing, Grows, frame_update-Grows, frame_finish-IsReady,
}

abbrev pub IsFed : Option Frame → Type 0
IsFed none = Unit
IsFed (some f) = IsGrowing f

abbrev pub IsFine : Receiver → Type 0
IsFine r = IsFed r.frame × All IsReady r.bucket

abbrev FineRound : Round → Type 0
FineRound (next r rest) = IsFine r
FineRound (stopped r) = IsFine r
FineRound overflow = Unit

abbrev FineEnd : Outcome → Type 0
FineEnd (done r) = IsFine r
FineEnd corrupted = Unit
FineEnd running = Unit

updated-IsFine :
    (env : Env) (sock : ℕ) (r : Receiver) (u : Update × Frame)
    → All IsReady r.bucket
    → Grows u
    → IsFine (updated env sock r u)
unfolding updated
updated-IsFine env sock r (complete, f) b g = (tt, All-append IsReady r.bucket (f ∷ []) b (g, tt))
updated-IsFine env sock r (more, f) b g = (g, b)
updated-IsFine env sock r (failed, f) b g = (g, b)

prepare_frame-IsGrowing :
    (o : Option Frame) (conn sock addr : ℕ) → IsFed o → IsGrowing (prepare_frame o conn sock addr)
unfolding prepare_frame alloc_frame
prepare_frame-IsGrowing none conn sock addr h = inl (refl, refl)
prepare_frame-IsGrowing (some f) conn sock addr h = h

take_line-IsFine :
    (env : Env) (sock : ℕ) (line : Bytes) (len : ℕ) (r : Receiver)
    → IsFine r
    → IsFine (take_line env sock line len r).1
unfolding take_line
take_line-IsFine env sock line len r h = elim (Bool-cases (is_skipped r.frame len)) [
  | inl e ↦ rw (e, take_line) h
  | inr e ↦
      let f = prepare_frame r.frame r.conn sock r.allocated in
      rw (e, take_line)
        (updated-IsFine env sock (record r { allocated = allocated_after r.frame r.allocated })
          (frame_update (gen_random env r.draws frame_id_len) line len f) h.1
          (frame_update-Grows (gen_random env r.draws frame_id_len) line len f
            (prepare_frame-IsGrowing r.frame r.conn sock r.allocated h.0)))
]

handle_line-IsFine :
    (env : Env) (sock : ℕ) (curr : Bytes) (len : ℕ) (r : Receiver) (o : Option (Bytes × ℕ))
    → IsFine r
    → FineRound (handle_line env sock curr len r o)
unfolding handle_line
handle_line-IsFine env sock curr len r none h = tt
handle_line-IsFine env sock curr len r (some (line, n)) h = take_line-IsFine env sock line n r h

split_round-IsFine :
    (env : Env) (sock : ℕ) (curr : Bytes) (r : Receiver) (s : Ret × ℕ)
    → IsFine r
    → FineRound (split_round env sock curr r s)
unfolding split_round
split_round-IsFine env sock curr r (success, n) h = handle_line-IsFine env sock curr n r _ h
split_round-IsFine env sock curr r (error, n) h = elim (Bool-cases (is_frame_name curr n)) [
  | inl e ↦ rw e (handle_line-IsFine env sock curr n r (merge r.prev curr n) h)
  | inr e ↦ rw e h
]

resume-IsFine :
    (loop : Bytes → Receiver → Outcome) (round : Round)
    → FineRound round
    → ((rest : Bytes) (r : Receiver) → IsFine r → FineEnd (loop rest r))
    → FineEnd (resume loop round)
unfolding resume
resume-IsFine loop (next r rest) h k = k rest r h
resume-IsFine loop (stopped r) h k = h
resume-IsFine loop overflow h k = tt

recv_data-FineEnd :
    (env : Env) (sock fuel : ℕ) (curr : Bytes) (r : Receiver)
    → IsFine r
    → FineEnd (recv_data env sock fuel curr r)
unfolding recv_data recv_round
recv_data-FineEnd env sock zero curr r h = tt
recv_data-FineEnd env sock (suc fuel) [] r h = h
recv_data-FineEnd env sock (suc fuel) (c ∷ cs) r h =
    resume-IsFine (recv_data env sock fuel) (recv_round env sock (c ∷ cs) r)
      (split_round-IsFine env sock (c ∷ cs) r _ h) (recv_data-FineEnd env sock fuel)

pub recv_data-IsFine :
    (env : Env) (sock fuel : ℕ) (curr : Bytes) (r r' : Receiver)
    → recv_data env sock fuel curr r ≡ done r'
    → IsFine r
    → IsFine r'
recv_data-IsFine env sock fuel curr r r' e h =
    subst FineEnd e (recv_data-FineEnd env sock fuel curr r h)

finish_in-IsFine :
    (st : Status) (env : Env) (f : Frame) (r : Receiver)
    → f.status ≡ st
    → IsGrowing f
    → All IsReady r.bucket
    → All IsReady (finish_in st env f r).1.bucket
unfolding finish_in put_in_bucket
finish_in-IsFine input_body env f r s (inl (b, n)) h = cc
finish_in-IsFine input_body env f r s (inr g) h =
    All-append IsReady r.bucket _ h (frame_finish-IsReady _ f g, tt)
finish_in-IsFine input_name env f r s (inl (b, n)) h = cc
finish_in-IsFine input_name env f r s (inr g) h =
    All-append IsReady r.bucket _ h (frame_finish-IsReady _ f g, tt)
finish_in-IsFine cleared env f r s g h = h
finish_in-IsFine born env f r s g h = h
finish_in-IsFine input_header env f r s g h = h
finish_in-IsFine in_bucket env f r s g h = h
finish_in-IsFine in_queue env f r s g h = h

finish_frame-IsFine :
    (env : Env) (r : Receiver) (o : Option Frame)
    → IsFed o
    → All IsReady r.bucket
    → All IsReady (finish_frame env r o).1.bucket
unfolding finish_frame
finish_frame-IsFine env r none g h = h
finish_frame-IsFine env r (some f) g h = finish_in-IsFine f.status env f r refl g h

pub conn_finish-IsFine :
    (env : Env) (r : Receiver) → IsFine r → All IsReady (conn_finish env r).1.bucket
unfolding conn_finish
conn_finish-IsFine env r h = finish_frame-IsFine env r r.frame h.0 h.1
