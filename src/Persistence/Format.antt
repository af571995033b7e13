-- ===== src/Persistence/Format.antt =====
-- The data file holds each frame as the client sent it.
use newtmq_server.Base.{
  ℕ, ◌+◌, ◌≡◌, refl, ap, ◌∙◌, sym, List, [], ◌∷◌, ◌++◌, Bytes, length, take, replicate, All, arith,
  map, append_assoc, take_all, ◌≢◌, take-length_append, ltb, c_string, if◌then◌else◌,
}
use newtmq_server.Base.Text.Laws.{c_string-exact}
use newtmq_server.Common.{Env}
use newtmq_server.Connection.{buffer}
use newtmq_server.Frame.{Frame, LineData, stomp_setdata}
use newtmq_server.Frame.Split.{IsLine, IsPlain}
use newtmq_server.Frame.Steps.{line_data}
use newtmq_server.Frame.Setdata.{contents, Fits, stomp_setdata-contents}
use newtmq_server.Persistence.{persisted, persisted_headers, persisted_body}
use newtmq_server.Receive.{Receiver}
use newtmq_server.Receive.Roundtrip.Wire.{
  length-wire, Message, IsMessage, wire, lines, pieces, delivered, body_size,
}

buffer-Fits : (l : LineData) → Fits l → buffer l ≡ l.content
buffer-Fits l h =
    ap (λ n. take n (l.content ++ replicate l.len 0)) (sym h.0) ∙ take-length_append l.content _

persisted_headers-lines :
    (hs : List Bytes) (rest : Bytes) → persisted_headers (map line_data hs) rest ≡ lines hs rest
unfolding persisted_headers
persisted_headers-lines [] rest = refl
persisted_headers-lines (h ∷ hs) rest =
    ap (λ b. b ++ b'\n' ∷ persisted_headers (map line_data hs) rest)
      (take-length_append h (replicate (length h) 0))
    ∙ ap (λ t. h ++ b'\n' ∷ t) (persisted_headers-lines hs rest)

persisted_body-contents :
    (ls : List LineData) (rest : Bytes) → All Fits ls → persisted_body ls rest ≡ contents ls ++ rest
unfolding persisted_body
persisted_body-contents [] rest h = refl
persisted_body-contents (l ∷ ls) rest h =
    ap (λ b. b ++ persisted_body ls rest) (buffer-Fits l h.0)
    ∙ (ap (λ t. l.content ++ t) (persisted_body-contents ls rest h.1)
        ∙ sym (append_assoc l.content (contents ls) rest))

pieces-cons : (c : ℕ) (cs : Bytes) → pieces (c ∷ cs) ≡ stomp_setdata (c ∷ cs) (length (c ∷ cs))
pieces-cons c cs = ground arith

pieces-body : (body rest : Bytes) → persisted_body (pieces body) rest ≡ body ++ rest
unfolding persisted_body
pieces-body [] rest = refl
pieces-body (c ∷ cs) rest =
    let split = stomp_setdata-contents (c ∷ cs) (length (c ∷ cs)) (omega arith) in
    ap (λ ls. persisted_body ls rest) (pieces-cons c cs)
    ∙ persisted_body-contents (stomp_setdata (c ∷ cs) (length (c ∷ cs))) rest split.1
    ∙ ap (λ b. b ++ rest) (split.0 ∙ take_all (length (c ∷ cs)) (c ∷ cs) (omega arith))

All-no_nul : (line : Bytes) → All IsPlain line → All (λ c. c ≢ 0) line
All-no_nul [] h = tt
All-no_nul (c ∷ cs) h = (h.0.0, All-no_nul cs h.1)

IsLine-no_nul : (line : Bytes) → IsLine line → All (λ c. c ≢ 0) line
IsLine-no_nul [] h = absurd h
IsLine-no_nul (c ∷ cs) h = All-no_nul (c ∷ cs) h.1

-- The frame holds the command, the header lines and the body of the message.
abbrev pub Carries : Frame → Message → Type 0
Carries f m = (f.name ≡ m.name) × (f.attrs ≡ map line_data m.headers) × (f.body ≡ pieces m.body)

-- What is written depends on these three only.
pub persisted-Carries :
    (f : Frame) (m : Message) → IsMessage m → Carries f m → persisted f ≡ wire m []
unfolding persisted
persisted-Carries f m h c =
    (λ i.
      c_string (c.0 i)
      ++ b'\n' ∷ persisted_headers (c.1 i) (b'\n' ∷ persisted_body (c.2 i) (0 ∷ [])))
    ∙ ap
        (λ n.
          n
          ++ b'\n'
            ∷ persisted_headers (map line_data m.headers)
                (b'\n' ∷ persisted_body (pieces m.body) (0 ∷ [])))
        (c_string-exact m.name (IsLine-no_nul m.name h.name_line))
    ∙ ap (λ t. m.name ++ b'\n' ∷ t)
        (persisted_headers-lines m.headers _
          ∙ ap (λ t. lines m.headers (b'\n' ∷ t)) (pieces-body m.body (0 ∷ [])))

-- A frame as `recv_data` leaves it, before any handler, would be written byte for byte as the client
-- sent it, its NUL included.
pub persisted-wire :
    (env : Env) (sock : ℕ) (r : Receiver) (m : Message)
    → IsMessage m
    → persisted (delivered env sock r m) ≡ wire m []
persisted-wire env sock r m h = persisted-Carries (delivered env sock r m) m h (refl, refl, refl)

abbrev uncounted : Bytes → ℕ
uncounted [] = 1
uncounted (c ∷ cs) = 0

body_size-length : (body : Bytes) → length body + 1 ≡ body_size body + uncounted body
body_size-length [] = refl
body_size-length (c ∷ cs) = omega arith

-- These bytes are as many as the size of the frame, and one more, if it has no body.
pub length-persisted :
    (env : Env) (sock : ℕ) (r : Receiver) (m : Message)
    → IsMessage m
    → length (persisted (delivered env sock r m))
      ≡ (delivered env sock r m).size + (if ltb 0 (length m.body) then 0 else 1)
length-persisted env sock r m h =
    ap length (persisted-wire env sock r m h)
    ∙ ground (arith, length-wire m [], body_size-length m.body)
