-- ===== src/Lease/Examples.antt =====
-- The theorem on the leases at a concrete run, and tests of manager/lease/lease_table.cpp.
use nmfs.Prelude.{Bytes, ◌≡◌, refl, ◌==◌, [], ◌∷◌, arith}
use nmfs.Map.{find, put, erase}
use nmfs.Codec.{le_bytes, le_value}
use nmfs.Uuid.{Uuid, splice_prefix_and_postfix, get_prefix_from_uuid, get_postfix_from_uuid}
use nmfs.Uuid.Halves.{IsUuid}
use nmfs.Lease.Manager as M
use nmfs.Lease.Client as C
use nmfs.Lease.System.{World, here, next, serves, delivers}
use nmfs.Lease.Exclusion.{one_leader}

abbrev root : Uuid
root = 0 ∷ 0 ∷ 0 ∷ 0 ∷ 0 ∷ 0 ∷ 0 ∷ 0 ∷ 0 ∷ 0 ∷ 0 ∷ 0 ∷ 0 ∷ 0 ∷ 0 ∷ 1 ∷ []

root-IsUuid : IsUuid root
root-IsUuid = record { sixteen = refl; bytes = omega arith }

-- The numbers' own bytes serve for their text.
abbrev own_bytes : Uuid → Bytes
own_bytes id = id

abbrev start : World
start = record { now = 0; table = []; clients = λ a. []; mail = [] }

abbrev alice : Bytes
alice = b'a' ∷ []

one_leader_example : ◌≡◌ {A = Bytes} alice alice
unfolding C.is_mine C.take_response M.serve M.acquire C.make_request find put erase ◌==◌ le_bytes
    le_value splice_prefix_and_postfix get_prefix_from_uuid get_postfix_from_uuid
one_leader_example =
    one_leader own_bytes start _ (record { no_leases = λ a. refl; no_mail = refl })
      (next (next here (serves start alice root 3 4 root-IsUuid (omega arith) (omega arith)))
        (delivers _ [] [] _ refl))
      root alice alice refl refl
