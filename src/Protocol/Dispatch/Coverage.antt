-- ===== src/Protocol/Dispatch/Coverage.antt =====
-- Every command that a frame can carry has its handler.
use newtmq_server.Base.{
  ℕ, List, [], ◌∷◌, Bytes, length, All, take, Option, none, some, get_elem?, ◌≡◌, refl, ap, sym,
  ◌∙◌, ◌≢◌, true, Bool-cases, ◌⊎◌, subst, inl, inr, arith, ltb,
}
use newtmq_server.Base.Text.{strncmp_eq, strlen}
use newtmq_server.Base.Text.Laws.{take-strncmp_eq}
use newtmq_server.Frame.{Frame, input_header, frame_names, match_name, frame_setname}
use newtmq_server.Protocol.Dispatch.{Handler, stomp_handlers, find_handler}

-- The search takes an entry of the table that has this very name.
abbrev pub HasHandler : Bytes → Type 0
HasHandler name =
    (h : Handler) × (find_handler name stomp_handlers ≡ some h)
    × ((i : ℕ) × (get_elem? stomp_handlers i ≡ some (name, h)))

known : All HasHandler frame_names
unfolding find_handler strncmp_eq strlen
known = (
  (Handler.send, refl, (0, refl)),
  (
    (Handler.subscribe, refl, (1, refl)),
    (
      (Handler.connect, refl, (2, refl)),
      (
        (Handler.connect, refl, (3, refl)),
        (
          (Handler.ack, refl, (9, refl)),
          (
            (Handler.begin, refl, (6, refl)),
            (
              (Handler.commit, refl, (7, refl)),
              (
                (Handler.abort, refl, (8, refl)),
                (
                  (Handler.nack, refl, (10, refl)),
                  (
                    (Handler.unsubscribe, refl, (5, refl)),
                    ((Handler.disconnect, refl, (4, refl)), tt),
                  ),
                ),
              ),
            ),
          ),
        ),
      ),
    ),
  ),
)

abbrev NoNul : Bytes → Type 0
NoNul n = All (λ c. c ≢ 0) n

no_nuls : All NoNul frame_names
no_nuls = ground arith

match_name-cons :
    (line : Bytes) (len : ℕ) (m : Bytes) (ns : List Bytes)
    → (match_name line len (m ∷ ns) ≡ match_name line len ns)
      ⊎ ((match_name line len (m ∷ ns) ≡ some m) × (strncmp_eq line m (length m) ≡ true))
unfolding match_name
match_name-cons line len m ns = elim (Bool-cases (ltb len (length m))) [
  | inl short ↦ inl (rw short refl)
  | inr long ↦ elim (Bool-cases (strncmp_eq line m (length m))) [
    | inl e ↦ inr (rw (long, e) refl, e)
    | inr e ↦ inl (rw (long, e) refl)
  ]
]

-- What `match_name` finds has the properties of all the names.
match_name-All :
    (P : Bytes → Type 0) (line : Bytes) (len : ℕ) (ns : List Bytes) (n : Bytes)
    → All P ns
    → match_name line len ns ≡ some n
    → P n × (strncmp_eq line n (length n) ≡ true)
unfolding match_name
match_name-All P line len [] n h e = ground arith
match_name-All P line len (m ∷ ns) n h e = elim (match_name-cons line len m ns) [
  | inl p ↦ match_name-All P line len ns n h.1 (sym p ∙ e)
  | inr (p, q) ↦
      let same : some m ≡ some n = sym p ∙ e in
      let m_n : m ≡ n = cc in subst (λ x. P x × (strncmp_eq line x (length x) ≡ true)) m_n (h.0, q)
]

abbrev name_of : Option Frame → Bytes
name_of none = []
name_of (some f) = f.name

pub named_by :
    (line : Bytes) (frame frame' : Frame) (o : Option Bytes)
    → (elim o [
      | none ↦ none
      | some n ↦ some (record frame { name = take (length n) line; status = input_header })
    ])
      ≡ some frame'
    → (n : Bytes) × (o ≡ some n) × (take (length n) line ≡ frame'.name)
named_by line frame frame' none e = ground arith
named_by line frame frame' (some n) e = (n, refl, ap name_of e)

-- A frame that gets a name has the handler of that very name: the table of the management worker
-- has every command that the parser takes, and no entry in front of it takes the frame away.
pub find_handler-frame_setname :
    (line : Bytes) (len : ℕ) (frame frame' : Frame)
    → frame_setname line len frame ≡ some frame'
    → HasHandler frame'.name
unfolding frame_setname
find_handler-frame_setname line len frame frame' e =
    let (n, found, named) = named_by line frame frame' (match_name line len frame_names) e in
    let (known_n, same) = match_name-All HasHandler line len frame_names n known found in
    let (plain, _) = match_name-All NoNul line len frame_names n no_nuls found in
    subst HasHandler (sym (take-strncmp_eq line n plain same) ∙ named) known_n
