-- ===== src/Common/Hash.antt =====
-- Names that `get_hash` does not tell apart.
use newtmq_server.Base.{
  ℕ, ◌+◌, ◌*◌, ◌%◌, ◌≡◌, ◌≢◌, ap, ◌∙◌, sym, [], ◌∷◌, ◌++◌, Bytes, arith, ◌==◌, if◌then◌else◌,
}
use newtmq_server.Common.{get_hash, hash_loop, ulong_mod}

-- one round of the loop
hash_loop-cons :
    (h c : ℕ) (s : Bytes)
    → c ≢ 0
    → hash_loop h (c ∷ s) ≡ hash_loop ((h * 32 % ulong_mod + h + c) % ulong_mod) s
unfolding hash_loop
hash_loop-cons h c s n = ground arith

two_rounds :
    (h c d : ℕ)
    → ((((h * 32 % ulong_mod + h + c) % ulong_mod) * 32 % ulong_mod
          + (h * 32 % ulong_mod + h + c) % ulong_mod
          + (d + 33))
        % ulong_mod)
      ≡ ((((h * 32 % ulong_mod + h + (c + 1)) % ulong_mod) * 32 % ulong_mod
            + (h * 32 % ulong_mod + h + (c + 1)) % ulong_mod
            + d)
          % ulong_mod)
two_rounds h c d = omega arith

hash_loop-swap :
    (h c d : ℕ) (s : Bytes)
    → c ≢ 0
    → d ≢ 0
    → hash_loop h (c ∷ (d + 33) ∷ s) ≡ hash_loop h ((c + 1) ∷ d ∷ s)
hash_loop-swap h c d s n m =
    hash_loop-cons h c _ n
    ∙ hash_loop-cons _ (d + 33) s (omega arith)
    ∙ ap (λ k. hash_loop k s) (two_rounds h c d)
    ∙ sym (hash_loop-cons h (c + 1) _ (omega arith) ∙ hash_loop-cons _ d s m)

hash_loop-swap_behind :
    (p : Bytes) (h c d : ℕ) (s : Bytes)
    → c ≢ 0
    → d ≢ 0
    → hash_loop h (p ++ (c ∷ (d + 33) ∷ s)) ≡ hash_loop h (p ++ ((c + 1) ∷ d ∷ s))
unfolding hash_loop
hash_loop-swap_behind [] h c d s n m = hash_loop-swap h c d s n m
hash_loop-swap_behind (x ∷ p) h c d s n m =
    ap (λ r. if x == 0 then h else r) (hash_loop-swap_behind p _ c d s n m)

-- Two names that differ in two neighbouring bytes have the same hash if the first of these is one
-- more and the second 33 less, as in "Ab" and "BA".
pub get_hash-collision :
    (p s : Bytes) (c d : ℕ)
    → c ≢ 0
    → d ≢ 0
    → get_hash (p ++ (c ∷ (d + 33) ∷ s)) ≡ get_hash (p ++ ((c + 1) ∷ d ∷ s))
unfolding get_hash
get_hash-collision p s c d n m = hash_loop-swap_behind p 5381 c d s n m
