-- ===== src/Common/Directories.antt =====
-- `mkdir_recursive` of lib/common.c: the calls of `mkdir` that it makes.
pub mod Prefixes
mod Tests
use newtmq_server.Base.{
  ℕ, suc, ◌-◌, ◌==◌, ltb, if◌then◌else◌, ◌||◌, List, [], ◌∷◌, ◌++◌, Option, none, some, Bytes, take,
  strlen, c_string,
}

abbrev pub path_size : ℕ
path_size = 512

-- `if(tmp[len - 1] == '/') tmp[len - 1] = 0`
unfoldable pub trim_slash : Bytes → Bytes
trim_slash [] = []
trim_slash (c ∷ []) = if c == b'/' then [] else c ∷ []
trim_slash (c ∷ d ∷ ds) = c ∷ trim_slash (d ∷ ds)

-- The loop from `p` on, and the call behind it; `passed` is `tmp` up to `p`.
unfoldable pub mkdir_loop : Bytes → Bytes → List Bytes
mkdir_loop passed [] = passed ∷ []
mkdir_loop passed (c ∷ cs) =
    let rest = mkdir_loop (passed ++ c ∷ []) cs in if c == b'/' then passed ∷ rest else rest

-- The loop begins with the second byte.
unfoldable pub mkdir_from : Bytes → List Bytes
unfolding mkdir_loop
mkdir_from [] = [] ∷ []
mkdir_from (c ∷ cs) = mkdir_loop (c ∷ []) cs

-- The paths that are made, in order. `none` is an access outside of `tmp`: `snprintf` returns the
-- length of the whole name, also where it has cut it off.
unfoldable pub mkdir_recursive : Bytes → Option (List Bytes)
unfolding trim_slash mkdir_from
mkdir_recursive dir =
    let tmp = take (path_size - 1) (c_string dir) in
    if strlen dir == 0 || ltb path_size (strlen dir)
    then none
    else some (mkdir_from (if strlen dir == path_size then tmp else trim_slash tmp))
