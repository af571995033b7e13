-- ===== src/Control/Tests.antt =====
-- Two requests, with a library that keeps numbers as single bytes.
use newtmq_server.Base.{List, [], ◌∷◌, Option, none, some, Bytes, codes, ◌≡◌, refl, arith}
use newtmq_server.Control.{Command, Member, number, raw, Msgpack, newtctl_worker, ended}
use newtmq_server.Control.Requests.{
  IsMsgpack, requests, replies, last_command, newtctl_worker-requests,
}

abbrev members_of : Bytes → Option (List Member)
members_of (command ∷ status ∷ context) = some (number command ∷ number status ∷ raw context ∷ [])
members_of _ = none

abbrev plain : Msgpack
plain = record { unpacked = members_of; packed = λ d. d.command ∷ d.status ∷ d.context }

plain-IsMsgpack : IsMsgpack plain
plain-IsMsgpack = record { members = λ d. refl; nonempty = λ d. omega arith }

abbrev fresh_command : Command
fresh_command = record { command = 0; status = 0; context = codes "junk" }

newtctl_worker-requests_example :
    newtctl_worker plain 5 (requests plain (codes "a" ∷ codes "b" ∷ [])) fresh_command []
    ≡ ended
        (last_command fresh_command (codes "a" ∷ codes "b" ∷ []))
        (replies plain 5 (codes "junk") (codes "a" ∷ codes "b" ∷ []) [])
newtctl_worker-requests_example =
    newtctl_worker-requests plain 5 (codes "a" ∷ codes "b" ∷ []) fresh_command [] plain-IsMsgpack
