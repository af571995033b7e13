-- ===== src/System/Ownership/Addresses.antt =====
-- A line changes a frame of lib/stomp.c, but not where it lies in memory.
use newtmq_server.Base.{
  ℕ, ◌≡◌, refl, Option, none, some, Bytes, length, take, ltb, arith, Bool-cases, inl, inr,
}
use newtmq_server.Frame.{
  Frame, Status, cleared, born, input_name, input_header, input_body, in_bucket, in_queue,
  frame_update, update_in, update_header, finish_body, named_frame, frame_setname, frame_finish,
  add_header, add_body, match_name, frame_names,
}

add_header-addr : (line : Bytes) (len : ℕ) (f : Frame) → (add_header line len f).addr ≡ f.addr
unfolding add_header
add_header-addr line len f = elim (Bool-cases (ltb 0 len)) [ inl e ↦ rw e refl | inr e ↦ rw e refl ]

add_body-addr : (line : Bytes) (len : ℕ) (f : Frame) → (add_body line len f).addr ≡ f.addr
unfolding add_body
add_body-addr line len f = elim (Bool-cases (ltb 0 len)) [ inl e ↦ rw e refl | inr e ↦ rw e refl ]

abbrev addr_of : Option Frame → ℕ → ℕ
addr_of none n = n
addr_of (some f) n = f.addr

frame_setname-addr :
    (line : Bytes) (len : ℕ) (f : Frame) → addr_of (frame_setname line len f) f.addr ≡ f.addr
unfolding frame_setname
frame_setname-addr line len f =
    elim (match_name line len frame_names)
      as (λ o.
        addr_of
          (elim o [
            | none ↦ none
            | some n ↦ some (record f { name = take (length n) line; status = input_header })
          ])
          f.addr
        ≡ f.addr) [ none ↦ refl | some n ↦ refl ]

named_frame-addr :
    (len : ℕ) (f : Frame) (o : Option Frame)
    → addr_of o f.addr ≡ f.addr
    → (named_frame len f o).1.addr ≡ f.addr
unfolding named_frame
named_frame-addr len f none e = refl
named_frame-addr len f (some g) e = e

update_in-addr :
    (st : Status) (id line : Bytes) (len : ℕ) (f : Frame)
    → (update_in st id line len f).1.addr ≡ f.addr
unfolding update_in update_header finish_body frame_finish
update_in-addr born id line len f =
    named_frame-addr len f (frame_setname line len f) (frame_setname-addr line len f)
update_in-addr input_header id line len f = ground (arith, add_header-addr line len f)
update_in-addr input_body id line len f = ground (arith, add_body-addr line len f)
update_in-addr cleared id line len f = refl
update_in-addr input_name id line len f = refl
update_in-addr in_bucket id line len f = refl
update_in-addr in_queue id line len f = refl

pub frame_update-addr :
    (id line : Bytes) (len : ℕ) (f : Frame) → (frame_update id line len f).1.addr ≡ f.addr
unfolding frame_update
frame_update-addr id line len f = update_in-addr f.status id line len f
