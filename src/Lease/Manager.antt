-- ===== src/Lease/Manager.antt =====
-- manager/lease/lease_table.cpp and lease_impl.cpp. The two locked blocks of acquire() find the same
-- entry or none, unless another call has inserted it in between; `insert_entry` has that case too.
use nmfs.Prelude.{ℕ, ◌+◌, Bytes, ◌==◌, Bool, true, false, Option, none, some, leb, if◌then◌else◌}
use nmfs.Map.{Map, find, put}
use nmfs.Uuid.{Uuid, splice_prefix_and_postfix}

-- LEASE_PERIOD_MS
abbrev pub lease_period_ms : ℕ
lease_period_ms = 200000000

pub record LeaseEntry : Type 0 where
  pub due : ℕ
  pub addr : Bytes

abbrev pub LeaseTable : Type 0
LeaseTable = Map LeaseEntry

-- What a call of acquire() or cas() hands back: the value 0 (true) or -1 (false), and the values of
-- the reference parameters `latest_due` and `remote_addr`.
pub record Answer : Type 0 where
  pub granted : Bool
  pub latest_due : ℕ
  pub remote_addr : Bytes

-- cas(): `checked` is the clock at the test and `started` the clock at the start of a new period
unfoldable pub cas : ℕ → ℕ → Bytes → LeaseEntry → LeaseEntry × Answer
cas checked started remote e =
    if leb e.due checked
    then (
      record { due = started + lease_period_ms; addr = remote },
      record { granted = true; latest_due = started + lease_period_ms; remote_addr = remote },
    )
    else if e.addr == remote
    then (e, record { granted = true; latest_due = e.due; remote_addr = remote })
    else (e, record { granted = false; latest_due = e.due; remote_addr = e.addr })

-- lease_entry(latest_due, remote_addr), put into the map by the second block of acquire()
unfoldable pub insert_entry : Bytes → ℕ → Bytes → LeaseTable → LeaseTable × Answer
insert_entry name started remote table = elim (find name table) [
  | none ↦
      let due = started + lease_period_ms in
      (
        put name (record { due = due; addr = remote }) table,
        record { granted = true; latest_due = due; remote_addr = remote },
      )
  | some e ↦
      (table, record { granted = e.addr == remote; latest_due = e.due; remote_addr = remote })
]

unfoldable pub acquire : Bytes → ℕ → ℕ → Bytes → LeaseTable → LeaseTable × Answer
unfolding cas insert_entry
acquire name checked started remote table = elim (find name table) [
  | some e ↦ let (e', answer) = cas checked started remote e in (put name e' table, answer)
  | none ↦ insert_entry name started remote table
]

-- message lease_request and lease_response
pub record LeaseRequest : Type 0 where
  pub ino_prefix : ℕ
  pub ino_postfix : ℕ
  pub remote_addr : Bytes

-- `remote_addr` is set only where `ret` is not 0.
pub record LeaseResponse : Type 0 where
  pub ret : Bool
  pub due : ℕ
  pub remote_addr : Option Bytes

abbrev pub response_of : Answer → LeaseResponse
response_of answer = record {
  ret = answer.granted;
  due = answer.latest_due;
  remote_addr = if answer.granted then none else some answer.remote_addr;
}

-- lease_impl::acquire(); `ret` is true for 0
unfoldable pub serve :
    (Uuid → Bytes) → ℕ → ℕ → LeaseRequest → LeaseTable → LeaseTable × LeaseResponse
serve to_string checked started request table =
    let ino = splice_prefix_and_postfix request.ino_prefix request.ino_postfix in
    let (table', answer) = acquire (to_string ino) checked started request.remote_addr table in
    (table', response_of answer)
