-- ===== src/Common/Directories/Prefixes.antt =====
-- Which directories are made for a path, and in which order.
use newtmq_server.Base.{
  ℕ, ◌+◌, ◌<◌, ◌≡◌, ◌≢◌, ◌-◌, refl, ap, ◌∙◌, sym, List, [], ◌∷◌, ◌++◌, some, Bytes, All, All-append,
  length, length-append, take_all, arith, append-nil, append_assoc,
}
use newtmq_server.Base.Text.Laws.{c_string-exact, strlen-exact}
use newtmq_server.Common.Directories.{
  path_size, trim_slash, mkdir_loop, mkdir_from, mkdir_recursive,
}

-- the name of a directory: no slash and no NUL in it
abbrev pub IsPart : Bytes → Type 0
IsPart part = (0 < length part) × All (λ c. (c ≢ 0) × (c ≢ b'/')) part

-- the absolute path with these parts
abbrev pub path : List Bytes → Bytes
path [] = []
path (p ∷ ps) = b'/' ∷ (p ++ path ps)

-- the path itself and all above it, behind `top`, the uppermost first
abbrev pub prefixes : Bytes → List Bytes → List Bytes
prefixes top [] = []
prefixes top (p ∷ ps) = (top ++ b'/' ∷ p) ∷ prefixes (top ++ b'/' ∷ p) ps

mkdir_loop-part :
    (passed part rest : Bytes)
    → All (λ c. (c ≢ 0) × (c ≢ b'/')) part
    → mkdir_loop passed (part ++ rest) ≡ mkdir_loop (passed ++ part) rest
unfolding mkdir_loop
mkdir_loop-part passed [] rest h = ap (λ b. mkdir_loop b rest) (sym (append-nil passed))
mkdir_loop-part passed (c ∷ cs) rest h =
    ground (arith, mkdir_loop-part (passed ++ c ∷ []) cs rest h.1, append_assoc passed (c ∷ []) cs)

mkdir_loop-path :
    (passed : Bytes) (ps : List Bytes)
    → All IsPart ps
    → mkdir_loop passed (path ps) ≡ passed ∷ prefixes passed ps
unfolding mkdir_loop
mkdir_loop-path passed [] h = refl
mkdir_loop-path passed (p ∷ ps) h =
    ap (λ r. passed ∷ r)
      (mkdir_loop-part (passed ++ b'/' ∷ []) p (path ps) h.0.1
        ∙ ap (λ b. mkdir_loop b (path ps)) (append_assoc passed (b'/' ∷ []) p)
        ∙ mkdir_loop-path (passed ++ b'/' ∷ p) ps h.1)

trim_slash-cons : (c : ℕ) (cs : Bytes) → 0 < length cs → trim_slash (c ∷ cs) ≡ c ∷ trim_slash cs
unfolding trim_slash
trim_slash-cons c [] h = absurd (omega arith)
trim_slash-cons c (d ∷ ds) h = refl

trim_slash-append : (xs ys : Bytes) → 0 < length ys → trim_slash (xs ++ ys) ≡ xs ++ trim_slash ys
trim_slash-append [] ys h = refl
trim_slash-append (x ∷ xs) ys h =
    trim_slash-cons x (xs ++ ys) (omega (arith, length-append xs ys))
    ∙ ap (◌∷◌ x) (trim_slash-append xs ys h)

trim_slash-part : (part : Bytes) → All (λ c. (c ≢ 0) × (c ≢ b'/')) part → trim_slash part ≡ part
unfolding trim_slash
trim_slash-part [] h = refl
trim_slash-part (c ∷ []) h = ground arith
trim_slash-part (c ∷ d ∷ ds) h = ap (◌∷◌ c) (trim_slash-part (d ∷ ds) h.1)

trim_slash-path :
    (p : Bytes) (ps : List Bytes) → All IsPart (p ∷ ps) → trim_slash (path (p ∷ ps)) ≡ path (p ∷ ps)
trim_slash-path p [] h =
    ap (λ b. trim_slash (b'/' ∷ b)) (append-nil p)
    ∙ trim_slash-cons b'/' p h.0.0
    ∙ ap (◌∷◌ b'/') (trim_slash-part p h.0.1 ∙ sym (append-nil p))
trim_slash-path p (q ∷ ps) h =
    trim_slash-append (b'/' ∷ p) (path (q ∷ ps)) (omega arith)
    ∙ ap (λ b. b'/' ∷ (p ++ b)) (trim_slash-path q ps h.1)

trim_slash-slash : (xs : Bytes) → trim_slash (xs ++ b'/' ∷ []) ≡ xs
unfolding trim_slash
trim_slash-slash xs = trim_slash-append xs (b'/' ∷ []) (omega arith) ∙ append-nil xs

part-no_nul : (part : Bytes) → All (λ c. (c ≢ 0) × (c ≢ b'/')) part → All (λ c. c ≢ 0) part
part-no_nul [] h = tt
part-no_nul (c ∷ cs) h = (h.0.0, part-no_nul cs h.1)

path-no_nul : (ps : List Bytes) → All IsPart ps → All (λ c. c ≢ 0) (path ps)
path-no_nul [] h = tt
path-no_nul (p ∷ ps) h =
    ((λ e. cc), All-append (λ c. c ≢ 0) p (path ps) (part-no_nul p h.0.1) (path-no_nul ps h.1))

mkdir_from-path :
    (p : Bytes) (ps : List Bytes)
    → All IsPart (p ∷ ps)
    → mkdir_from (path (p ∷ ps)) ≡ prefixes [] (p ∷ ps)
unfolding mkdir_from
mkdir_from-path p ps h =
    mkdir_loop-part (b'/' ∷ []) p (path ps) h.0.1 ∙ mkdir_loop-path (b'/' ∷ p) ps h.1

mkdir_recursive-short :
    (dir : Bytes)
    → All (λ c. c ≢ 0) dir
    → 0 < length dir
    → length dir < path_size
    → mkdir_recursive dir ≡ some (mkdir_from (trim_slash dir))
unfolding mkdir_recursive
mkdir_recursive-short dir a p h =
    rw (c_string-exact dir a, strlen-exact dir a, take_all (path_size - 1) dir (omega arith))
      (ground arith)

-- For an absolute path of fewer than 511 bytes with no empty part, as two slashes in a row would make
-- one, and with or without a slash at its end: every directory on the way is made once, each behind the one that it lies in, and the path itself last.
pub mkdir_recursive-path :
    (p : Bytes) (ps : List Bytes)
    → All IsPart (p ∷ ps)
    → length (path (p ∷ ps)) + 1 < path_size
    → (mkdir_recursive (path (p ∷ ps)) ≡ some (prefixes [] (p ∷ ps)))
      × (mkdir_recursive (path (p ∷ ps) ++ b'/' ∷ []) ≡ some (prefixes [] (p ∷ ps)))
mkdir_recursive-path p ps h l =
    let clean = path-no_nul (p ∷ ps) h in
    let made : some (mkdir_from (path (p ∷ ps))) ≡ some (prefixes [] (p ∷ ps)) =
      ap some (mkdir_from-path p ps h) in
    (
      mkdir_recursive-short (path (p ∷ ps)) clean (omega arith) (omega arith)
          ∙ ap (λ b. some (mkdir_from b)) (trim_slash-path p ps h)
          ∙ made,
      mkdir_recursive-short (path (p ∷ ps) ++ b'/' ∷ [])
            (All-append (λ c. c ≢ 0) (path (p ∷ ps)) (b'/' ∷ []) clean ((λ e. cc), tt))
            (omega arith) (omega (arith, length-append (path (p ∷ ps)) (b'/' ∷ [])))
          ∙ ap (λ b. some (mkdir_from b)) (trim_slash-slash (path (p ∷ ps)))
          ∙ made,
    )
