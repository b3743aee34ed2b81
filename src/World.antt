-- ===== src/World.antt =====
-- The memory of a client as its operations share it, the global objects of client/main.cpp, and what
-- it gets from outside. A std::shared_ptr is an address. An operation runs without another thread in
-- between: it holds the locks of what it works on.
use nmfs.Prelude.{ℕ, ◌+◌, Bytes, Bool, Option, none, some}
use nmfs.Exec.{Exec, Result, ok, err, logic_error, fuel_exhausted}
use nmfs.Map.{Map}
use nmfs.Uuid.{Uuid}
use nmfs.Inode.{Inode, Timespec}
use nmfs.DentryTable.{DentryTable}
use nmfs.FileHandler.{FileHandlerList}
use nmfs.Lease.Manager.{LeaseRequest, LeaseResponse}
use nmfs.Lease.Client.{LeaseTable}
use nmfs.RpcMessages.Calls.{Stub}
use nmfs.Transaction.{Outcome, accepted, refused, threw}
use nmfs.Transaction.Calls.{Call}
use nmfs.Journal.{Journal, retry, store}

-- What a remote_inode has beside its inode.
pub record RemoteInode : Type 0 where
  pub leader_ip : Bytes
  pub dentry_table_ino : Uuid
  pub file_name : Bytes
  pub target_is_parent : Bool

-- The operating system, the libraries and the other machines. Each answers a question by its number,
-- so that the clock goes on and two answers may differ. `grant` is the manager's answer to a request
-- for a lease, `none` where the call fails. `fuel` bounds the rounds of the loop in the journal and
-- of those over the objects of a file.
pub record Outside : Type 0 where
  pub now : ℕ → ℕ
  pub time : ℕ → Timespec
  pub fresh_ino : ℕ → Uuid
  pub fresh_handle : ℕ → ℕ
  pub grant : ℕ → LeaseRequest → Option LeaseResponse
  pub stub : ℕ → Stub
  pub to_string : Uuid → Bytes
  pub self_remote : Bytes
  pub fuel : ℕ

-- `next` is the first free address, and `asked` the number of questions put to the outside. In
-- `remotes` an inode that is no remote_inode has `none`. The pools have the states of their type.
pub record World (State : Type 0) : Type 0 where
  pub next : ℕ
  pub inodes : ℕ → Inode
  pub remotes : ℕ → Option RemoteInode
  pub tables : ℕ → DentryTable
  pub dentry_tables : Map ℕ
  pub leases : LeaseTable
  pub journal : Journal
  pub open_context : FileHandlerList
  pub client_uid : ℕ
  pub client_gid : ℕ
  pub meta_pool : State
  pub data_pool : State
  pub asked : ℕ

-- How a call of journalctl ends for its caller.
abbrev pub ended : Option Outcome → Result (Unit {0})
ended none = err fuel_exhausted
ended (some (accepted tx)) = ok tt
ended (some (refused tx)) = err fuel_exhausted
ended (some (threw tx)) = err logic_error

module _ {State : Type 0} where
  -- A question to the outside.
  abbrev pub ask : {A : Type 0} → (ℕ → A) → Exec (World State) A
  ask f w = (ok (f w.asked), record w { asked = w.asked + 1 })

  -- A value that is computed without a change, or an exception.
  abbrev pub yield : {A : Type 0} → Result A → Exec (World State) A
  yield r w = (r, w)

  abbrev pub get_inode : ℕ → Exec (World State) Inode
  get_inode i w = (ok (w.inodes i), w)

  -- A write to the fields of an inode.
  abbrev pub set_inode : ℕ → (Inode → Inode) → Exec (World State) Unit
  set_inode i f w = (ok tt, record w { inodes = store i (f (w.inodes i)) w.inodes })

  -- std::make_shared<inode>, or <remote_inode>
  abbrev pub make_inode : Inode → Option RemoteInode → Exec (World State) ℕ
  make_inode i remote w = (
    ok w.next,
    record w {
      next = w.next + 1;
      inodes = store w.next i w.inodes;
      remotes = store w.next remote w.remotes;
    },
  )

  -- std::make_shared<dentry_table>
  abbrev pub make_table : DentryTable → Exec (World State) ℕ
  make_table t w = (ok w.next, record w { next = w.next + 1; tables = store w.next t w.tables })

  abbrev pub get_table : ℕ → Exec (World State) DentryTable
  get_table a w = (ok (w.tables a), w)

  -- A call of a member function of a table.
  abbrev pub at_table : {A : Type 0} → ℕ → Exec DentryTable A → Exec (World State) A
  at_table a m w = let (r, t) = m (w.tables a) in (r, record w { tables = store a t w.tables })

  abbrev pub at_meta_pool : {A : Type 0} → Exec State A → Exec (World State) A
  at_meta_pool m w = let (r, s) = m w.meta_pool in (r, record w { meta_pool = s })

  abbrev pub at_data_pool : {A : Type 0} → Exec State A → Exec (World State) A
  at_data_pool m w = let (r, s) = m w.data_pool in (r, record w { data_pool = s })

  -- journalctl->mkself(...) to journalctl->chreg(...), for the directory `ino`
  abbrev pub journalctl : Outside → Call → Uuid → Exec (World State) Unit
  journalctl out c ino w =
      let (j, o) = retry out.fuel c ino w.journal in (ended o, record w { journal = j })
