-- ===== src/System/Ownership/Receiving.antt =====
-- A connection has the frame that it reads, until the frame goes to the bucket; each frame that it
-- starts lies at a new address.
use newtmq_server.Base.{
  ℕ, zero, suc, ◌+◌, ◌≤◌, ◌≡◌, subst, ap, inl, inr, [], ◌∷◌, Option, none, some, Bytes, Bool-cases,
  arith,
}
use newtmq_server.Common.{Env, gen_random, Ret, success, error}
use newtmq_server.Frame.{
  Frame, Status, cleared, born, input_name, input_header, input_body, in_bucket, in_queue, Update,
  failed, more, complete, alloc_frame, frame_update, is_frame_name, frame_id_len,
}
use newtmq_server.Receive.{
  Receiver, Round, next, stopped, overflow, Outcome, done, corrupted, running, recv_data, resume,
  recv_round, split_round, handle_line, take_line, updated, prepare_frame, merge, is_skipped,
  allocated_after,
}
use newtmq_server.Receive.Worker.{conn_finish, finish_frame, finish_in, put_in_bucket}
use newtmq_server.System.Ownership.Addresses.{frame_update-addr}
use newtmq_server.System.Ownership.Counts.{
  is_at, count_frames, count_frame, count_frames-append, Fits, Fits-less, Fits-fresh,
}

-- `k` is the count of what does not belong to the connection or to the bucket.
abbrev pub ReceiverFits : ℕ → ℕ → Receiver → Type 0
ReceiverFits a k r = Fits a r.allocated (k + (count_frame a r.frame + count_frames a r.bucket))

abbrev RoundFits : ℕ → ℕ → Round → Type 0
RoundFits a k (next r rest) = ReceiverFits a k r
RoundFits a k (stopped r) = ReceiverFits a k r
RoundFits a k overflow = Unit

abbrev EndFits : ℕ → ℕ → Outcome → Type 0
EndFits a k (done r) = ReceiverFits a k r
EndFits a k corrupted = Unit
EndFits a k running = Unit

updated-ReceiverFits :
    (a k : ℕ) (env : Env) (sock : ℕ) (r : Receiver) (u : Update × Frame)
    → Fits a r.allocated (k + (is_at a u.1.addr + count_frames a r.bucket))
    → ReceiverFits a k (updated env sock r u)
unfolding updated
updated-ReceiverFits a k env sock r (complete, f) h =
    Fits-less a r.allocated r.allocated _ _ h
      (omega (arith, count_frames-append a r.bucket (f ∷ []))) (omega arith)
updated-ReceiverFits a k env sock r (more, f) h = h
updated-ReceiverFits a k env sock r (failed, f) h = h

prepared-Fits :
    (a k n : ℕ) (o : Option Frame) (conn sock : ℕ)
    → Fits a n (k + count_frame a o)
    → Fits a (allocated_after o n) (k + is_at a (prepare_frame o conn sock n).addr)
unfolding allocated_after prepare_frame alloc_frame
prepared-Fits a k n (some f) conn sock h = h
prepared-Fits a k n none conn sock h =
    Fits-fresh a n k (Fits-less a n n _ _ h (omega arith) (omega arith))

take_line-ReceiverFits :
    (a k : ℕ) (env : Env) (sock : ℕ) (line : Bytes) (len : ℕ) (r : Receiver)
    → ReceiverFits a k r
    → ReceiverFits a k (take_line env sock line len r).1
unfolding take_line
take_line-ReceiverFits a k env sock line len r h = elim (Bool-cases (is_skipped r.frame len)) [
  | inl e ↦ rw (e, take_line) h
  | inr e ↦
      let f = prepare_frame r.frame r.conn sock r.allocated in
      let id = gen_random env r.draws frame_id_len in
      let m = allocated_after r.frame r.allocated in
      let fits =
        prepared-Fits a (k + count_frames a r.bucket) r.allocated r.frame r.conn sock
          (Fits-less a r.allocated r.allocated _ _ h (omega arith) (omega arith)) in
      let same : is_at a (frame_update id line len f).1.addr ≡ is_at a f.addr =
        ap (is_at a) (frame_update-addr id line len f) in
      rw (e, take_line)
        (updated-ReceiverFits a k env sock (record r { allocated = m }) (frame_update id line len f)
          (Fits-less a m m _ _ fits (omega arith) (omega arith)))
]

handle_line-RoundFits :
    (a k : ℕ) (env : Env) (sock : ℕ) (curr : Bytes) (len : ℕ) (r : Receiver)
    (o : Option (Bytes × ℕ))
    → ReceiverFits a k r
    → RoundFits a k (handle_line env sock curr len r o)
unfolding handle_line
handle_line-RoundFits a k env sock curr len r none h = tt
handle_line-RoundFits a k env sock curr len r (some (line, n)) h =
    take_line-ReceiverFits a k env sock line n r h

split_round-RoundFits :
    (a k : ℕ) (env : Env) (sock : ℕ) (curr : Bytes) (r : Receiver) (s : Ret × ℕ)
    → ReceiverFits a k r
    → RoundFits a k (split_round env sock curr r s)
unfolding split_round
split_round-RoundFits a k env sock curr r (success, n) h =
    handle_line-RoundFits a k env sock curr n r (merge r.prev curr n) h
split_round-RoundFits a k env sock curr r (error, n) h = elim (Bool-cases (is_frame_name curr n)) [
  | inl e ↦ rw e (handle_line-RoundFits a k env sock curr n r (merge r.prev curr n) h)
  | inr e ↦ rw e h
]

resume-EndFits :
    (a k : ℕ) (loop : Bytes → Receiver → Outcome) (round : Round)
    → RoundFits a k round
    → ((rest : Bytes) (r : Receiver) → ReceiverFits a k r → EndFits a k (loop rest r))
    → EndFits a k (resume loop round)
unfolding resume
resume-EndFits a k loop (next r rest) h ih = ih rest r h
resume-EndFits a k loop (stopped r) h ih = h
resume-EndFits a k loop overflow h ih = tt

recv_data-EndFits :
    (a k : ℕ) (env : Env) (sock fuel : ℕ) (curr : Bytes) (r : Receiver)
    → ReceiverFits a k r
    → EndFits a k (recv_data env sock fuel curr r)
unfolding recv_data recv_round
recv_data-EndFits a k env sock zero curr r h = tt
recv_data-EndFits a k env sock (suc fuel) [] r h = h
recv_data-EndFits a k env sock (suc fuel) (c ∷ cs) r h =
    resume-EndFits a k (recv_data env sock fuel) (recv_round env sock (c ∷ cs) r)
      (split_round-RoundFits a k env sock (c ∷ cs) r _ h) (recv_data-EndFits a k env sock fuel)

pub recv_data-ReceiverFits :
    (a k : ℕ) (env : Env) (sock fuel : ℕ) (curr : Bytes) (r r' : Receiver)
    → recv_data env sock fuel curr r ≡ done r'
    → ReceiverFits a k r
    → ReceiverFits a k r'
recv_data-ReceiverFits a k env sock fuel curr r r' e h =
    subst (EndFits a k) e (recv_data-EndFits a k env sock fuel curr r h)

finish_in-count :
    (a : ℕ) (st : Status) (env : Env) (f : Frame) (r : Receiver)
    → count_frames a (finish_in st env f r).1.bucket ≤ is_at a f.addr + count_frames a r.bucket
unfolding finish_in put_in_bucket
finish_in-count a input_body env f r = omega (arith, count_frames-append a r.bucket _)
finish_in-count a input_name env f r = omega (arith, count_frames-append a r.bucket _)
finish_in-count a cleared env f r = omega arith
finish_in-count a born env f r = omega arith
finish_in-count a input_header env f r = omega arith
finish_in-count a in_bucket env f r = omega arith
finish_in-count a in_queue env f r = omega arith

finish_frame-count :
    (a : ℕ) (env : Env) (r : Receiver) (o : Option Frame)
    → count_frames a (finish_frame env r o).1.bucket ≤ count_frame a o + count_frames a r.bucket
unfolding finish_frame
finish_frame-count a env r none = omega arith
finish_frame-count a env r (some f) = finish_in-count a f.status env f r

-- The frame of a connection that ends goes to the bucket, or nowhere.
pub conn_finish-count :
    (a : ℕ) (env : Env) (r : Receiver)
    → count_frames a (conn_finish env r).1.bucket ≤ count_frame a r.frame + count_frames a r.bucket
unfolding conn_finish
conn_finish-count a env r = finish_frame-count a env r r.frame
