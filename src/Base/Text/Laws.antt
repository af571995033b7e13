-- ===== src/Base/Text/Laws.antt =====
-- C string functions on a string with something behind it: they read no further than they must.
use Prim.Native.Nat.{ℕ, zero, suc, ◌+◌, ◌-◌, ◌*◌, ◌≤◌}
use mathlib.Core.Path.{◌≡◌, refl, ap}
use mathlib.Core.Logic.{◌≢◌}
use mathlib.Core.Bool.{true, false}
use mathlib.Core.List.{[], ◌∷◌, ◌++◌}
use native.Mathlib.Omega.{arith}
use newtmq_server.Base.Lists.{length, take, All, length-replicate}
use newtmq_server.Base.Text.{
  Bytes, strncmp_eq, strncpy, c_string, strlen, atoi, digits_value, signed_value, is_digit,
}

-- The first `n` bytes decide, if they are there.
pub strncmp_eq-append :
    (a rest b : Bytes) (n : ℕ) → n ≤ length a → strncmp_eq (a ++ rest) b n ≡ strncmp_eq a b n
unfolding strncmp_eq
strncmp_eq-append a rest b zero h = refl
strncmp_eq-append [] rest b (suc n) h = absurd (omega arith)
strncmp_eq-append (x ∷ a) rest [] (suc n) h = refl
strncmp_eq-append (x ∷ a) rest (y ∷ b) (suc n) h = ground (arith, strncmp_eq-append a rest b n)

-- Equality of the first bytes, if neither string ends among them.
pub strncmp_eq-prefix : (b rest : Bytes) → strncmp_eq (b ++ rest) b (length b) ≡ true
unfolding strncmp_eq
strncmp_eq-prefix [] rest = refl
strncmp_eq-prefix (x ∷ b) rest = ground (arith, strncmp_eq-prefix b rest)

-- A copy of bytes among which there is no NUL is exact.
pub strncpy-exact : (a rest : Bytes) → All (λ c. c ≢ 0) a → strncpy (a ++ rest) (length a) ≡ a
unfolding strncpy
strncpy-exact [] rest h = refl
strncpy-exact (x ∷ a) rest h = ground (arith, strncpy-exact a rest)

pub length-strncpy : (a : Bytes) (n : ℕ) → length (strncpy a n) ≡ n
unfolding strncpy
length-strncpy a zero = refl
length-strncpy [] (suc n) = ap suc (length-replicate n 0)
length-strncpy (x ∷ a) (suc n) = ground (arith, length-strncpy a n, length-replicate {A = ℕ} n 0)

digits_value-append :
    (acc : ℕ) (a rest : Bytes) (c : ℕ)
    → is_digit c ≡ false
    → digits_value acc (a ++ c ∷ rest) ≡ digits_value acc a
unfolding digits_value
digits_value-append acc [] rest c h = ground arith
digits_value-append acc (x ∷ a) rest c h =
    ground (arith, digits_value-append (acc * 10 + (x - b'0')) a rest c h)

-- The first byte is a digit.
abbrev pub StartsDigit : Bytes → Type 0
StartsDigit [] = ⊥
StartsDigit (c ∷ cs) = is_digit c ≡ true

-- `atoi` stops at the end of a line that begins with a digit.
pub atoi-append :
    (a rest : Bytes) (c : ℕ) → StartsDigit a → is_digit c ≡ false → atoi (a ++ c ∷ rest) ≡ atoi a
unfolding atoi signed_value
atoi-append (x ∷ a) rest c d h = ground (arith, digits_value-append 0 (x ∷ a) rest c h)
atoi-append [] rest c d h = absurd d

-- An array that begins with the bytes of a string compares equal to it.
pub strncmp_eq-c_string : (s rest : Bytes) → strncmp_eq (c_string s ++ rest) s (strlen s) ≡ true
unfolding c_string strlen strncmp_eq
strncmp_eq-c_string [] rest = refl
strncmp_eq-c_string (c ∷ s) rest = ground (arith, strncmp_eq-c_string s rest)

pub c_string-exact : (s : Bytes) → All (λ c. c ≢ 0) s → c_string s ≡ s
unfolding c_string
c_string-exact [] h = refl
c_string-exact (c ∷ s) h = ground (arith, c_string-exact s)

pub strlen-exact : (s : Bytes) → All (λ c. c ≢ 0) s → strlen s ≡ length s
unfolding strlen
strlen-exact [] h = refl
strlen-exact (c ∷ s) h = ground (arith, strlen-exact s)

-- Where the first bytes compare equal to a string, they are that string.
pub take-strncmp_eq :
    (line n : Bytes)
    → All (λ c. c ≢ 0) n
    → strncmp_eq line n (length n) ≡ true
    → take (length n) line ≡ n
unfolding strncmp_eq
take-strncmp_eq line [] h e = refl
take-strncmp_eq [] (y ∷ n) h e = ground arith
take-strncmp_eq (x ∷ line) (y ∷ n) h e = ground (arith, take-strncmp_eq line n)

pub strlen-c_string : (s : Bytes) → strlen (c_string s) ≡ strlen s
unfolding strlen c_string
strlen-c_string [] = refl
strlen-c_string (c ∷ s) = ground (arith, strlen-c_string s)

-- Two arrays with the same string in them: no comparison over its length tells them apart.
pub strncmp_eq-string :
    (x d e : Bytes)
    → strlen d ≡ strlen e
    → strncmp_eq (c_string e) d (strlen d) ≡ true
    → strncmp_eq x d (strlen d) ≡ strncmp_eq x e (strlen e)
unfolding strlen c_string strncmp_eq
strncmp_eq-string x [] [] h k = refl
strncmp_eq-string x [] (z ∷ e) h k = ground arith
strncmp_eq-string x (y ∷ d) [] h k = ground arith
strncmp_eq-string [] (y ∷ d) (z ∷ e) h k = ground arith
strncmp_eq-string (w ∷ x) (y ∷ d) (z ∷ e) h k = ground (arith, strncmp_eq-string x d e)

pub strncmp_eq_self : (s : Bytes) (n : ℕ) → strncmp_eq s s n ≡ true
unfolding strncmp_eq
strncmp_eq_self s zero = refl
strncmp_eq_self [] (suc n) = refl
strncmp_eq_self (c ∷ s) (suc n) = ground (arith, strncmp_eq_self s n)
