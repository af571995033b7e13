-- ===== src/Base/Text.antt =====
-- C strings as lists of bytes. The end of a list stands for the terminating NUL, and so does a
-- byte 0 inside it; `atoi`, `strlen`, `strncmp` and `strncpy` are the C library's.
pub mod Laws
use Prim.Native.Nat.{ℕ, zero, suc, ◌+◌, ◌-◌, ◌*◌}
use Prim.Native.Char.{code}
use Prim.Native.String.{String}
use mathlib.Core.Bool.{Bool, true, ◌&&◌, ◌||◌}
use mathlib.Core.List.{List, [], ◌∷◌}
use newtmq_server.Base.Tests.{leb, ◌==◌, if◌then◌else◌}
use newtmq_server.Base.Lists.{replicate}
use newtmq_server.Base.Int.{ℤ, pos, negsuc}

abbrev pub Bytes : Type 0
Bytes = List ℕ

abbrev pub codes : String → Bytes
codes String.[] = []
codes (String.◌∷◌ c s) = code c ∷ codes s

-- `strncmp(a, b, n) == 0`
unfoldable pub strncmp_eq : Bytes → Bytes → ℕ → Bool
strncmp_eq a b zero = true
strncmp_eq [] [] (suc n) = true
strncmp_eq [] (y ∷ b) (suc n) = y == 0
strncmp_eq (x ∷ a) [] (suc n) = x == 0
strncmp_eq (x ∷ a) (y ∷ b) (suc n) = x == y && (x == 0 || strncmp_eq a b n)

-- `strlen`
unfoldable pub strlen : Bytes → ℕ
strlen [] = 0
strlen (x ∷ a) = if x == 0 then 0 else suc (strlen a)

-- The bytes before the terminator.
unfoldable pub c_string : Bytes → Bytes
c_string [] = []
c_string (x ∷ a) = if x == 0 then [] else x ∷ c_string a

-- The `n` bytes that `strncpy(_, a, n)` writes.
unfoldable pub strncpy : Bytes → ℕ → Bytes
strncpy a zero = []
strncpy [] (suc n) = 0 ∷ replicate n 0
strncpy (x ∷ a) (suc n) = if x == 0 then 0 ∷ replicate n 0 else x ∷ strncpy a n

abbrev pub is_digit : ℕ → Bool
is_digit c = leb b'0' c && leb c b'9'

abbrev pub is_space : ℕ → Bool
is_space c = c == 32 || (leb 9 c && leb c 13)

pub digits_value : ℕ → Bytes → ℕ
digits_value acc [] = acc
digits_value acc (c ∷ cs) =
    let rest = digits_value (acc * 10 + (c - b'0')) cs in if is_digit c then rest else acc

pub negated : ℕ → ℤ
negated zero = pos 0
negated (suc n) = negsuc n

pub signed_value : Bytes → ℤ
unfolding digits_value negated
signed_value [] = pos 0
signed_value (c ∷ cs) =
    if c == b'-'
    then negated (digits_value 0 cs)
    else if c == b'+'
    then pos (digits_value 0 cs)
    else pos (digits_value 0 (c ∷ cs))

-- `atoi`, for values that an `int` can hold.
unfoldable pub atoi : Bytes → ℤ
unfolding signed_value
atoi [] = pos 0
atoi (c ∷ cs) = let rest = atoi cs in if is_space c then rest else signed_value (c ∷ cs)
