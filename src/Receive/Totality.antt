-- ===== src/Receive/Totality.antt =====
-- When the loop of `recv_data` ends.
use newtmq_server.Base.{
  ℕ, zero, suc, ◌<◌, ◌≡◌, refl, ap, ◌∙◌, ◌⊎◌, inl, inr, Bool, true, false, [], ◌∷◌, Option, none,
  some, Bytes, length, drop, arith, Bool-cases, ◌==◌, ==_iff, length-drop, pos, leb_ℤ,
}
use newtmq_server.Common.{Env, Ret, success, error}
use newtmq_server.Frame.{
  Frame, input_body, more, ssplit, frame_update, is_bl, is_frame_name, add_body,
}
use newtmq_server.Frame.Split.{ssplit-body_pos}
use newtmq_server.Receive.{
  Receiver, Round, next, stopped, overflow, running, recv_round, recv_data, resume, handle_line,
  split_round, is_input_body, merge, take_line, is_complete,
}
use newtmq_server.Receive.Lines.{reading, next_id, is_input_body-body}
use newtmq_server.Receive.Roundtrip.Wire.{Reaches, stop, step}

-- A round that neither stops nor fails leaves fewer bytes, or stands still at a NUL byte of a body.
abbrev Moves : ℕ → Bytes → Receiver → Round → Type 0
Moves c cs r (next r' rest) =
    (length rest < length (c ∷ cs)) ⊎ ((c ≡ 0) × (is_input_body r.frame ≡ true) × (rest ≡ c ∷ cs))
Moves c cs r _ = Unit

length-drop_pos : (n c : ℕ) (cs : Bytes) → 0 < n → length (drop n (c ∷ cs)) < length (c ∷ cs)
length-drop_pos n c cs h = omega (arith, length-drop n (c ∷ cs))

handle_line-Moves :
    (env : Env) (sock c : ℕ) (cs : Bytes) (line_len : ℕ) (r : Receiver)
    → (is_input_body r.frame ≡ true → line_len ≡ 0 → c ≡ 0)
    → (line : Option (Bytes × ℕ)) → Moves c cs r (handle_line env sock (c ∷ cs) line_len r line)
unfolding handle_line is_complete
handle_line-Moves env sock c cs line_len r h none = tt
handle_line-Moves env sock c cs zero r h (some (line, len)) =
    ground (arith, h, length-drop_pos 1 c cs)
handle_line-Moves env sock c cs (suc n) r h (some (line, len)) =
    inl (length-drop_pos _ c cs (ground arith))

split_round-Moves :
    (env : Env) (sock c : ℕ) (cs : Bytes) (r : Receiver)
    → (ret : Ret) (line_len : ℕ) → (is_input_body r.frame ≡ true → line_len ≡ 0 → c ≡ 0)
    → Moves c cs r (split_round env sock (c ∷ cs) r (ret, line_len))
unfolding split_round
split_round-Moves env sock c cs r success n h = handle_line-Moves env sock c cs n r h _
split_round-Moves env sock c cs r error n h = elim (Bool-cases (is_frame_name (c ∷ cs) n)) [
  | inl e ↦ rw e (handle_line-Moves env sock c cs n r h _)
  | inr e ↦ rw e tt
]

still-nul : (c : ℕ) (cs : Bytes) (b : Bool) → b ≡ true → (ssplit b (c ∷ cs)).1 ≡ 0 → c ≡ 0
still-nul c cs true e z = elim (Bool-cases (c == 0)) [
  | inl h ↦ (==_iff c 0).0 h
  | inr h ↦ absurd (omega (arith, ssplit-body_pos c cs (ground arith)))
]
still-nul c cs false e z = cc

recv_round-Moves :
    (env : Env) (sock c : ℕ) (cs : Bytes) (r : Receiver)
    → Moves c cs r (recv_round env sock (c ∷ cs) r)
unfolding recv_round
recv_round-Moves env sock c cs r = split_round-Moves env sock c cs r _ _ (still-nul c cs _)

-- where the loop stands still: at a NUL byte, with a body in progress
pub record Stuck (env : Env) (sock : ℕ) (curr : Bytes) (r : Receiver) : Type 0 where
  pub rest : Bytes
  pub last : Receiver
  pub reached : Reaches env sock (0 ∷ rest) last curr r
  pub in_body : is_input_body last.frame ≡ true

Stuck-step :
    {env : Env} {sock : ℕ} {curr rest : Bytes} {r r' : Receiver}
    → recv_round env sock curr r ≡ next r' rest
    → length rest < length curr
    → Stuck env sock rest r'
    → Stuck env sock curr r
Stuck-step e l s = record {
  rest = s.rest;
  last = s.last;
  reached = step e l s.reached;
  in_body = s.in_body;
}

resume-Stuck :
    (env : Env) (sock c : ℕ) (cs : Bytes) (r : Receiver) (fuel : ℕ) (round : Round)
    → length cs < fuel
    → recv_round env sock (c ∷ cs) r ≡ round
    → Moves c cs r round
    → ((curr : Bytes) (q : Receiver)
        → length curr < fuel
        → recv_data env sock fuel curr q ≡ running
        → Stuck env sock curr q)
    → resume (recv_data env sock fuel) round ≡ running
    → Stuck env sock (c ∷ cs) r
unfolding resume
resume-Stuck env sock c cs r fuel (stopped q) h e m ih run = cc
resume-Stuck env sock c cs r fuel overflow h e m ih run = cc
resume-Stuck env sock c cs r fuel (next q rest) h e (inl l) ih run =
    Stuck-step e l (ih rest q (omega arith) run)
resume-Stuck env sock c cs r fuel (next q rest) h e (inr (z, b, _)) ih run = record {
  rest = cs;
  last = r;
  reached = stop (ap (λ n. n ∷ cs) z) refl;
  in_body = b;
}

-- With more fuel than bytes, `recv_data` on any input returns, or overflows, or has come to a NUL
-- byte with a body in progress.
pub recv_data-Stuck :
    (env : Env) (sock fuel : ℕ) (curr : Bytes) (r : Receiver)
    → length curr < fuel
    → recv_data env sock fuel curr r ≡ running
    → Stuck env sock curr r
unfolding recv_data
recv_data-Stuck env sock zero curr r h e = absurd (omega arith)
recv_data-Stuck env sock (suc fuel) [] r h e = cc
recv_data-Stuck env sock (suc fuel) (c ∷ cs) r h e =
    resume-Stuck env sock c cs r fuel _ (omega arith) refl (recv_round-Moves env sock c cs r)
      (recv_data-Stuck env sock fuel) e

finish_body-more :
    (id rest : Bytes) (f : Frame)
    → f.status ≡ input_body
    → leb_ℤ f.contentlen (pos f.has_contentlen) ≡ false
    → frame_update id (0 ∷ rest) 0 f ≡ (more, f)
unfolding frame_update add_body
finish_body-more id rest f s h = ground arith

nul_round :
    (env : Env) (sock : ℕ) (rest : Bytes) (r : Receiver) (f : Frame)
    → f.status ≡ input_body
    → leb_ℤ f.contentlen (pos f.has_contentlen) ≡ false
    → recv_round env sock (0 ∷ rest) (reading r f) ≡ next (reading r f) (0 ∷ rest)
unfolding recv_round handle_line split_round merge take_line is_complete ssplit is_bl
nul_round env sock rest r f s h =
    ground (arith, is_input_body-body f s, finish_body-more (next_id env r) rest f s h)

-- A NUL byte inside a body, with nothing held back and less than the declared length read, makes
-- `recv_data` loop for ever: no amount of fuel is enough.
pub recv_data-nul_in_body :
    (env : Env) (sock fuel : ℕ) (rest : Bytes) (r : Receiver) (f : Frame)
    → f.status ≡ input_body
    → leb_ℤ f.contentlen (pos f.has_contentlen) ≡ false
    → recv_data env sock fuel (0 ∷ rest) (reading r f) ≡ running
unfolding recv_data
recv_data-nul_in_body env sock zero rest r f s h = refl
recv_data-nul_in_body env sock (suc fuel) rest r f s h =
    ap (resume (recv_data env sock fuel)) (nul_round env sock rest r f s h)
    ∙ recv_data-nul_in_body env sock fuel rest r f s h
