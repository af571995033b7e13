-- ===== src/Common.antt =====
-- lib/common.c and include/newt/common.h: return codes, random identifiers and the hash of queue
-- names. What the operating system decides is an argument: the values of `rand()` and which
-- sockets `getsockopt` reports as healthy.
pub mod Hash
pub mod Directories
use newtmq_server.Base.{ℕ, zero, suc, ◌+◌, ◌-◌, ◌*◌, ◌%◌, ◌^◌, ◌==◌, if◌then◌else◌, Bytes}
use newtmq_server.Base.{Bool, List, [], ◌∷◌, codes, get_elem?, Option, none, some}

-- RET_SUCCESS and RET_ERROR
pub data Ret : Type 0 where
  success error : Ret

pub record Env : Type 0 where
  pub rand : ℕ → ℕ
  pub socket_ok : ℕ → Bool

abbrev alphanum : Bytes
alphanum = codes "0123456789ABCDEFGHIJKLMNOPQRSTUVWXYZabcdefghijklmnopqrstuvwxyz"

abbrev char_or_nul : Option ℕ → ℕ
char_or_nul (some c) = c
char_or_nul none = 0

random_chars : Env → ℕ → ℕ → Bytes
random_chars env k zero = []
random_chars env k (suc n) =
    char_or_nul (get_elem? alphanum (env.rand k % 62)) ∷ random_chars env (k + 1) n

-- `gen_random(s, len)`: `len - 1` characters, of which the first uses the `k`-th value of `rand`.
-- The terminator `s[len - 1] = 0` is the end of the list.
unfoldable pub gen_random : Env → ℕ → ℕ → Bytes
unfolding random_chars
gen_random env k len = random_chars env k (len - 1)

abbrev pub ulong_mod : ℕ
ulong_mod = 2 ^ 64

-- The loop of `get_hash`; `hash << 5` and the sums are those of a 64-bit `unsigned long`.
unfoldable pub hash_loop : ℕ → Bytes → ℕ
hash_loop hash [] = hash
hash_loop hash (c ∷ str) =
    let rest = hash_loop ((hash * 32 % ulong_mod + hash + c) % ulong_mod) str in
    if c == 0 then hash else rest

unfoldable pub get_hash : Bytes → ℕ
get_hash str = hash_loop 5381 str
