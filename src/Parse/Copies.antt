-- ===== src/Parse/Copies.antt =====
-- The results of the two copies of `frame_update`.
use newtmq_server.Base.{ℕ, Bool, true, false, Bytes, Option, none, some, ◌≡◌, refl, if◌then◌else◌}
use newtmq_server.Frame.{
  Frame, Status, cleared, born, input_name, input_header, input_body, in_bucket, in_queue, Update,
  failed, more, complete, frame_setname,
}
use newtmq_server.Frame as Stomp
use newtmq_server.Parse.{
  frame_update, update_in, named_frame, update_header, finish_body, frame_finish,
}

-- a result of lib/stomp.c, where a finished frame is not put in the bucket
abbrev pub unbucketed : Update × Frame → Update × Frame
unbucketed (complete, f) = (complete, record f { status = cleared })
unbucketed (u, f) = (u, f)

named_frame-unbucketed :
    (len : ℕ) (f : Frame) (o : Option Frame)
    → named_frame len f o ≡ unbucketed (Stomp.named_frame len f o)
unfolding named_frame Stomp.named_frame
named_frame-unbucketed len f none = refl
named_frame-unbucketed len f (some named) = refl

unbucketed-header :
    (a b : Bool) (f g h : Frame)
    → (if a then (more, f) else if b then (complete, record g { status = cleared }) else (more, h))
      ≡ unbucketed (if a then (more, f) else if b then (complete, g) else (more, h))
unbucketed-header true b f g h = refl
unbucketed-header false true f g h = refl
unbucketed-header false false f g h = refl

unbucketed-body :
    (b : Bool) (f g : Frame)
    → (if b then (complete, record f { status = cleared }) else (more, g))
      ≡ unbucketed (if b then (complete, f) else (more, g))
unbucketed-body true f g = refl
unbucketed-body false f g = refl

update_in-unbucketed :
    (st : Status) (id line : Bytes) (len : ℕ) (f : Frame)
    → update_in st id line len f ≡ unbucketed (Stomp.update_in st id line len f)
unfolding update_in Stomp.update_in named_frame update_header finish_body frame_finish
    Stomp.named_frame Stomp.update_header Stomp.finish_body Stomp.frame_finish
update_in-unbucketed cleared id line len f = refl
update_in-unbucketed born id line len f = named_frame-unbucketed len f (frame_setname line len f)
update_in-unbucketed input_name id line len f = refl
update_in-unbucketed input_header id line len f = unbucketed-header _ _ _ _ _
update_in-unbucketed input_body id line len f = unbucketed-body _ _ _
update_in-unbucketed in_bucket id line len f = refl
update_in-unbucketed in_queue id line len f = refl

-- The two return the same code and the same frame but for the status of a finished one. That of
-- lib/stomp.c also links a finished frame into the bucket, which `updated` of Receive does.
pub frame_update-unbucketed :
    (id line : Bytes) (len : ℕ) (f : Frame)
    → frame_update id line len f ≡ unbucketed (Stomp.frame_update id line len f)
unfolding frame_update Stomp.frame_update
frame_update-unbucketed id line len f = update_in-unbucketed f.status id line len f
