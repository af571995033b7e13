-- ===== src/System/Frames.antt =====
-- What is true of a frame that a connection is reading, and of one that is finished.
use newtmq_server.Base.{
  ℕ, ◌+◌, ◌<◌, ◌≡◌, refl, ap, ◌∙◌, sym, ◌⊎◌, inl, inr, Bool, true, false, Option, none, some, Bytes,
  length, arith, if◌then◌else◌, Bool-cases, ltb, take, ltb_ℤ, leb_ℤ, pos, ◌&&◌,
}
use newtmq_server.Frame.{
  Frame, Status, cleared, born, input_name, input_header, input_body, in_bucket, in_queue, Update,
  failed, more, complete, frame_update, update_in, update_header, finish_body, named_frame,
  frame_setname, frame_finish, add_header, add_body, match_name, frame_names, is_nl,
}
use newtmq_server.Protocol.Dispatch.Coverage.{HasHandler, find_handler-frame_setname}

-- A frame that can be handled: it has a size, its command has a handler, and no callback is set.
pub record IsReady (f : Frame) : Type 0 where
  pub sized : 0 < f.size
  pub known : HasHandler f.name
  pub no_callback : f.transaction_callback ≡ none

-- A frame in progress is ready but for its first line.
abbrev pub IsGrowing : Frame → Type 0
IsGrowing f = ((f.status ≡ born) × (f.transaction_callback ≡ none)) ⊎ IsReady f

-- what a line makes of it
abbrev pub Grows : Update × Frame → Type 0
Grows (complete, f) = IsReady f
Grows (more, f) = IsGrowing f
Grows (failed, f) = IsGrowing f

add_header-IsReady :
    (line : Bytes) (len : ℕ) (f : Frame) → IsReady f → IsReady (add_header line len f)
unfolding add_header
add_header-IsReady line len f h = elim (Bool-cases (ltb 0 len)) [
  | inl e ↦ rw e (record { sized = ground arith; known = h.known; no_callback = h.no_callback })
  | inr e ↦ rw e h
]

add_body-IsReady : (line : Bytes) (len : ℕ) (f : Frame) → IsReady f → IsReady (add_body line len f)
unfolding add_body
add_body-IsReady line len f h = elim (Bool-cases (ltb 0 len)) [
  | inl e ↦ rw e (record { sized = ground arith; known = h.known; no_callback = h.no_callback })
  | inr e ↦ rw e h
]

grown : (b : Bool) (u v : Update × Frame) → Grows u → Grows v → Grows (if b then u else v)
grown true u v h k = h
grown false u v h k = k

resized :
    (id : Bytes) (f : Frame) (st : Status) (n : ℕ)
    → 0 < n
    → IsReady f
    → IsReady (record f { status = st; size = n })
resized id f st n p h = record { sized = p; known = h.known; no_callback = h.no_callback }

pub frame_finish-IsReady : (id : Bytes) (f : Frame) → IsReady f → IsReady (frame_finish id f)
unfolding frame_finish
frame_finish-IsReady id f h = record {
  sized = h.sized;
  known = h.known;
  no_callback = h.no_callback;
}

abbrev callback_of : Option Frame → Option ℕ
callback_of none = none
callback_of (some f) = f.transaction_callback

named-callback :
    (line : Bytes) (f g : Frame) (o : Option Bytes)
    → (elim o [
      | none ↦ none
      | some n ↦ some (record f { name = take (length n) line; status = input_header })
    ])
      ≡ some g
    → g.transaction_callback ≡ f.transaction_callback
named-callback line f g none e = ground arith
named-callback line f g (some n) e = sym (ap callback_of e)

frame_setname-callback :
    (line : Bytes) (len : ℕ) (f g : Frame)
    → frame_setname line len f ≡ some g
    → g.transaction_callback ≡ f.transaction_callback
unfolding frame_setname
frame_setname-callback line len f g e = named-callback line f g (match_name line len frame_names) e

named_frame-Grows :
    (line : Bytes) (len : ℕ) (f : Frame) (o : Option Frame)
    → frame_setname line len f ≡ o
    → f.status ≡ born
    → f.transaction_callback ≡ none
    → Grows (named_frame len f o)
unfolding named_frame
named_frame-Grows line len f none e s n = inl (s, n)
named_frame-Grows line len f (some g) e s n = inr (record {
  sized = omega arith;
  known = find_handler-frame_setname line len f g e;
  no_callback = frame_setname-callback line len f g e ∙ n;
})

update_in-Grows :
    (st : Status) (id line : Bytes) (len : ℕ) (f : Frame)
    → f.status ≡ st
    → IsGrowing f
    → Grows (update_in st id line len f)
unfolding update_in update_header finish_body
update_in-Grows born id line len f s (inl (b, n)) = named_frame-Grows line len f _ refl b n
update_in-Grows born id line len f s (inr h) = named_frame-Grows line len f _ refl s h.no_callback
update_in-Grows input_header id line len f s (inl (b, n)) = cc
update_in-Grows input_header id line len f s (inr h) =
    let nl = is_nl line in
    let first = nl && ltb_ℤ (pos 0) f.contentlen in
    let second = nl && (leb_ℤ (pos 0) f.contentlen && leb_ℤ f.contentlen (pos 0)) in
    let g : Frame = record f { size = f.size + 1 } in
    let ended = frame_finish id g in
    let with_line = add_header line len f in
    grown first (more, record f { status = input_body; size = f.size + 1 })
      (if second then (complete, ended) else (more, with_line))
      (inr (resized id f input_body (f.size + 1) (omega arith) h))
      (grown second (complete, ended) (more, with_line)
        (frame_finish-IsReady id _ (resized id f f.status (f.size + 1) (omega arith) h))
        (inr (add_header-IsReady line len f h)))
update_in-Grows input_body id line len f s (inl (b, n)) = cc
update_in-Grows input_body id line len f s (inr h) =
    let g = add_body line len f in
    let k = add_body-IsReady line len f h in
    grown (leb_ℤ g.contentlen (pos g.has_contentlen))
      (complete, frame_finish id (record g { size = g.size + 1 })) (more, g)
      (frame_finish-IsReady id _ (resized id g g.status (g.size + 1) (omega arith) k)) (inr k)
update_in-Grows cleared id line len f s h = h
update_in-Grows input_name id line len f s h = h
update_in-Grows in_bucket id line len f s h = h
update_in-Grows in_queue id line len f s h = h

-- Every line keeps a frame in this state, and a frame that it finishes is ready.
pub frame_update-Grows :
    (id line : Bytes) (len : ℕ) (f : Frame) → IsGrowing f → Grows (frame_update id line len f)
unfolding frame_update
frame_update-Grows id line len f h = update_in-Grows f.status id line len f refl h
