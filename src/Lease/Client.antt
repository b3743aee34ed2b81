-- ===== src/Lease/Client.antt =====
-- client/lease/lease_table_client.cpp and lease_client.cpp.
use nmfs.Prelude.{ℕ, Bytes, Bool, false, ◌&&◌, none, some, ltb, if◌then◌else◌}
use nmfs.Map.{Map, find, put}
use nmfs.Uuid.{Uuid, get_prefix_from_uuid, get_postfix_from_uuid}
use nmfs.Lease.Manager.{LeaseRequest, LeaseResponse}

pub record LeaseEntry : Type 0 where
  pub due : ℕ
  pub leader : Bool

abbrev pub LeaseTable : Type 0
LeaseTable = Map LeaseEntry

unfoldable pub set_info : ℕ → Bool → LeaseEntry → LeaseEntry
set_info new_due mine e = if ltb e.due new_due then record { due = new_due; leader = mine } else e

unfoldable pub is_valid : Uuid → ℕ → LeaseTable → Bool
is_valid ino now table = elim (find ino table) [ none ↦ false | some e ↦ ltb now e.due ]

unfoldable pub is_mine : Uuid → ℕ → LeaseTable → Bool
is_mine ino now table = elim (find ino table) [ none ↦ false | some e ↦ e.leader && ltb now e.due ]

-- update(): the entry that is found, in either block, is set; else a new one is inserted
unfoldable pub update : Uuid → ℕ → Bool → LeaseTable → LeaseTable
unfolding set_info
update ino new_due mine table = elim (find ino table) [
  | some e ↦ put ino (set_info new_due mine e) table
  | none ↦ put ino (record { due = new_due; leader = mine }) table
]

-- The request that lease_client::acquire() sends.
unfoldable pub make_request : Uuid → Bytes → LeaseRequest
make_request ino remote = record {
  ino_prefix = get_prefix_from_uuid ino;
  ino_postfix = get_postfix_from_uuid ino;
  remote_addr = remote;
}

-- What lease_client::acquire() does with an answer that has come: the table, whether it returns 0,
-- and `remote_addr`.
unfoldable pub take_response : Uuid → LeaseResponse → Bytes → LeaseTable → LeaseTable × Bool × Bytes
unfolding update
take_response ino response remote_addr table = (
  update ino response.due response.ret table,
  response.ret,
  elim response.remote_addr [
    | none ↦ remote_addr
    | some a ↦ if response.ret then remote_addr else a
  ],
)
