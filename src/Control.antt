-- ===== src/Control.antt =====
-- lib/newtctl.c and lib/newtctl_commands.c: the worker of a control connection. The msgpack library is
-- an argument: what it makes of bytes, and the bytes that it makes of a command.
pub mod Requests
mod Tests
use newtmq_server.Base.{
  ℕ, suc, ◌+◌, ◌%◌, ◌^◌, ◌==◌, ltb, if◌then◌else◌, List, [], ◌∷◌, ◌++◌, Option, none, some, Bytes,
  length, drop,
}
use newtmq_server.Connection.{Wire, send_msg}

-- `newtctl_t`; `context` is the DATALEN bytes of the array
pub record Command : Type 0 where
  pub command : ℕ
  pub status : ℕ
  pub context : Bytes

abbrev pub data_len : ℕ
data_len = 4096

abbrev pub ret_success : ℕ
ret_success = 1

-- An element of a `msgpack_object` that is an array; `other` holds the bits that are read where a
-- number is expected.
pub data Member : Type 0 where
  number : ℕ → Member
  raw : Bytes → Member
  other : ℕ → Member

-- What the worker uses of the library; `none` is an object that is no array.
pub record Msgpack : Type 0 where
  pub unpacked : Bytes → Option (List Member)
  pub packed : Command → Bytes

-- `(int)OBJ.via.i64`, as the 32 bits of the `int`: of a string those of its length are read.
unfoldable pub via_int : Member → ℕ
via_int (number n) = n % 2 ^ 32
via_int (raw bytes) = length bytes % 2 ^ 32
via_int (other bits) = bits % 2 ^ 32

-- UNPACK_STR. Of a number the low 32 bits are taken as a length, and a pointer is read that was never
-- set, which does no harm only if the length is 0; `none` is an access where it must not be.
unfoldable pub unpack_str : Member → Bytes → Option Bytes
unfolding via_int
unpack_str (raw bytes) context =
    if ltb data_len (length bytes) then none else some (bytes ++ drop (length bytes) context)
unpack_str member context = if via_int member == 0 then some context else none

-- How `unpack` ends.
pub data Unpacked : Type 0 where
  unpacked_as : Command → Unpacked
  invalid corrupted : Unpacked

unfoldable pub with_context : ℕ → ℕ → Option Bytes → Unpacked
with_context command status none = corrupted
with_context command status (some context) =
    unpacked_as (record { command = command; status = status; context = context })

-- All of NEWTCTL_MEMBERS elements are asked for, and the string is read from the second.
unfoldable pub unpack : Option (List Member) → Command → Unpacked
unfolding with_context unpack_str via_int
unpack (some (a ∷ b ∷ c ∷ [])) cobj =
    with_context (via_int a) (via_int b) (unpack_str b cobj.context)
unpack _ cobj = invalid

-- `newtctl_list_queues`
unfoldable pub newtctl_list_queues : Command → ℕ
newtctl_list_queues cobj = ret_success

-- the table `handlers`, up to the entry of zeros
abbrev pub handlers : List (ℕ × (Command → ℕ))
handlers = (1, newtctl_list_queues) ∷ []

-- The status is that of the first handler of the command, if there is one.
unfoldable pub dispatch : List (ℕ × (Command → ℕ)) → Command → Command
dispatch [] cobj = cobj
dispatch ((command, handler) ∷ hs) cobj =
    let rest = dispatch hs cobj in
    if command == cobj.command then record cobj { status = handler cobj } else rest

-- How far the thread gets: it returns or waits, or memory is read or written where it must not be.
pub data Session : Type 0 where
  ended waiting : Command → Wire → Session
  overrun : Session

unfoldable pub answer :
    (Command → Wire → Session) → Msgpack → ℕ → Command → Wire → Unpacked → Session
unfolding dispatch
answer loop lib sock cobj w corrupted = overrun
answer loop lib sock cobj w invalid = loop cobj w
answer loop lib sock cobj w (unpacked_as request) =
    let reply = dispatch handlers request in loop reply (send_msg sock (lib.packed reply) w)

-- The loop, on what the calls of `recv` return; `none` is -1. `cobj` is what `malloc` gave.
unfoldable pub newtctl_worker : Msgpack → ℕ → List (Option Bytes) → Command → Wire → Session
unfolding unpack answer
newtctl_worker lib sock [] cobj w = waiting cobj w
newtctl_worker lib sock (none ∷ later) cobj w = ended cobj w
newtctl_worker lib sock (some [] ∷ later) cobj w = ended cobj w
newtctl_worker lib sock (some (c ∷ cs) ∷ later) cobj w =
    answer (newtctl_worker lib sock later) lib sock cobj w (unpack (lib.unpacked (c ∷ cs)) cobj)
