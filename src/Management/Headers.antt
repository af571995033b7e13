-- ===== src/Management/Headers.antt =====
-- What the walk over the header lines finds.
use newtmq_server.Base.{
  Bytes, Bool-cases, inl, inr, drop, List, [], ◌∷◌, ◌++◌, All, false, ◌≡◌, refl, strlen, strncmp_eq,
}
use newtmq_server.Frame.{LineData}
use newtmq_server.Management.{HeaderHandler, kept, iterated, run_handlers, iterate_header}

-- The line begins with the name of none of the handlers.
abbrev pub Ignored : {D : Type 0} → List (HeaderHandler D) → LineData → Type 0
Ignored hs line = All (λ h. strncmp_eq line.content h.name (strlen h.name) ≡ false) hs

module _ {D : Type 0} where
  run_handlers-Ignored :
      (hs : List (HeaderHandler D)) (d : D) (line : LineData)
      → Ignored hs line
      → run_handlers hs d line ≡ kept d line
  unfolding run_handlers
  run_handlers-Ignored [] d line h = refl
  run_handlers-Ignored (x ∷ hs) d line h = rw (h.0) (run_handlers-Ignored hs d line h.1)

  pub iterate_header-Ignored :
      (hs : List (HeaderHandler D)) (d : D) (lines : List LineData)
      → All (Ignored hs) lines
      → iterate_header lines hs d ≡ iterated d lines
  unfolding iterate_header
  iterate_header-Ignored hs d [] h = refl
  iterate_header-Ignored hs d (line ∷ lines) h =
      rw (run_handlers-Ignored hs d line h.0, iterate_header-Ignored hs d lines h.1) refl

  -- Behind lines that no handler takes, the walk changes the data and a line as the handlers of
  -- that line do, and goes on.
  pub iterate_header-then :
      (hs : List (HeaderHandler D)) (d d' d'' : D) (before rest rest' : List LineData)
      (line line' : LineData)
      → All (Ignored hs) before
      → run_handlers hs d line ≡ kept d' line'
      → iterate_header rest hs d' ≡ iterated d'' rest'
      → iterate_header (before ++ line ∷ rest) hs d ≡ iterated d'' (before ++ line' ∷ rest')
  unfolding iterate_header
  iterate_header-then hs d d' d'' [] rest rest' line line' b e k = rw (e, k) refl
  iterate_header-then hs d d' d'' (x ∷ before) rest rest' line line' b e k =
      rw
        (
          run_handlers-Ignored hs d x b.0,
          iterate_header-then hs d d' d'' before rest rest' line line' b.1 e k,
        )
        refl

  -- One line among lines that no handler takes.
  pub iterate_header-one :
      (hs : List (HeaderHandler D)) (d d' : D) (before after : List LineData)
      (line line' : LineData)
      → All (Ignored hs) before
      → All (Ignored hs) after
      → run_handlers hs d line ≡ kept d' line'
      → iterate_header (before ++ line ∷ after) hs d ≡ iterated d' (before ++ line' ∷ after)
  iterate_header-one hs d d' before after line line' b a e =
      iterate_header-then hs d d' d' before after after line line' b e
        (iterate_header-Ignored hs d' after a)

-- A handler that always stores, and leaves the line as it is.
abbrev pub Stores : {D : Type 0} → HeaderHandler D → Type 0
Stores {D} h =
    (context : Bytes) (d : D) (line : LineData)
    → (d' : D) × (h.handler context d line ≡ kept d' line)

module _ {D : Type 0} where
  run_handlers-Stores :
      (hs : List (HeaderHandler D)) (d : D) (line : LineData)
      → All Stores hs
      → (d' : D) × (run_handlers hs d line ≡ kept d' line)
  unfolding run_handlers
  run_handlers-Stores [] d line h = (d, refl)
  run_handlers-Stores (x ∷ hs) d line h =
      elim (Bool-cases (strncmp_eq line.content x.name (strlen x.name))) [
        | inl e ↦
            let (d', stored) = h.0 (drop (strlen x.name) line.content) d line in
            let (d'', rest) = run_handlers-Stores hs d' line h.1 in (d'', rw (e, stored) rest)
        | inr e ↦ let (d'', rest) = run_handlers-Stores hs d line h.1 in (d'', rw (e) rest)
      ]

  -- Handlers that always store refuse no frame and change no line.
  pub iterate_header-Stores :
      (hs : List (HeaderHandler D)) (d : D) (lines : List LineData)
      → All Stores hs
      → (d' : D) × (iterate_header lines hs d ≡ iterated d' lines)
  unfolding iterate_header
  iterate_header-Stores hs d [] h = (d, refl)
  iterate_header-Stores hs d (line ∷ lines) h =
      let (d', ran) = run_handlers-Stores hs d line h in
      let (d'', rest) = iterate_header-Stores hs d' lines h in (d'', rw (ran, rest) refl)
