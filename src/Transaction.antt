-- ===== src/Transaction.antt =====
-- client/journal/transaction.hpp and transaction.cpp: the changes to one directory that a client
-- has gathered since its last commit, and the operations that add to them. The lock that each
-- operation takes makes it one step; the log lines are left out.
pub mod Calls
pub mod Effect
pub mod Conflict
pub mod Serial
pub mod Sync
mod Examples
use nmfs.Prelude.{ℕ, Bytes, Bool, true, false, Option, none, some, [], ◌==◌, if◌then◌else◌}
use nmfs.Map.{Map, find, put}
use nmfs.Uuid.{Uuid, nil_uuid}
use nmfs.Inode.{Inode, copy_inode}

-- enum class self_status
pub data SelfStatus : Type 0 where
  s_unchanged s_created s_deleted : SelfStatus

-- `dentries` says of a name whether its entry has been added (true) or deleted (false); in
-- `f_inodes` a null pointer, `none`, stands for a deleted file.
pub record Transaction : Type 0 where
  pub committed : Bool
  pub offset : ℕ
  pub status : SelfStatus
  pub s_ino : Uuid
  pub s_inode : Option Inode
  pub dentries : Map (Bool × Uuid)
  pub f_inodes : Map (Option Inode)

-- transaction(self_ino); `offset` has no value before commit()
unfoldable pub new_transaction : Uuid → Transaction
new_transaction self_ino = record {
  committed = false;
  offset = 0;
  status = s_unchanged;
  s_ino = self_ino;
  s_inode = none;
  dentries = [];
  f_inodes = [];
}

-- How a call ends: it returns 0, it returns -1, or it throws a logic_error. What was written
-- before a throw stays written.
pub data Outcome : Type 0 where
  accepted : Transaction → Outcome
  refused : Transaction → Outcome
  threw : Transaction → Outcome

infixl 5 ◌>>=◌
abbrev pub ◌>>=◌ : Outcome → (Transaction → Outcome) → Outcome
accepted tx >>= f = f tx
refused tx >>= f = refused tx
threw tx >>= f = threw tx

-- if (committed) return -1
pub check_open : Transaction → Outcome
check_open tx = if tx.committed then refused tx else accepted tx

-- dentries.insert({name, {true, ino}}), which may replace a deleted entry only
pub add_entry : Bytes → Uuid → Transaction → Outcome
add_entry name ino tx = elim (find name tx.dentries) [
  | some (true, _) ↦ threw tx
  | _ ↦ accepted (record tx { dentries = put name (true, ino) tx.dentries })
]

-- dentries.insert({name, {false, ino}}), which may replace an added entry only
pub delete_entry : Bytes → Uuid → Transaction → Outcome
delete_entry name ino tx = elim (find name tx.dentries) [
  | some (false, _) ↦ threw tx
  | _ ↦ accepted (record tx { dentries = put name (false, ino) tx.dentries })
]

-- The destination of a move: its entry is replaced whatever it was.
pub replace_entry : Bytes → Uuid → Transaction → Outcome
replace_entry name ino tx = accepted (record tx { dentries = put name (true, ino) tx.dentries })

-- The times of the directory's inode, or the whole inode where the transaction has none yet.
merge_inode : Option Inode → Inode → Inode
merge_inode none self_inode = copy_inode self_inode
merge_inode (some i) self_inode = record i {
  core = record i.core { i_mtime = self_inode.core.i_mtime; i_ctime = self_inode.core.i_ctime };
}

pub update_self : Inode → Transaction → Outcome
unfolding merge_inode
update_self self_inode tx =
    accepted (record tx { s_inode = some (merge_inode tx.s_inode self_inode) })

-- f_inodes.insert({ino, nullptr}), then a copy of the inode, unless there is one already
pub add_file : Inode → Transaction → Outcome
add_file f_inode tx = elim (find f_inode.core.i_ino tx.f_inodes) [
  | some (some _) ↦ threw tx
  | _ ↦
      accepted
        (record tx { f_inodes = put f_inode.core.i_ino (some (copy_inode f_inode)) tx.f_inodes })
]

-- f_inodes.insert({ino, nullptr}), or a null pointer in place of the inode
pub delete_file : Inode → Transaction → Outcome
delete_file f_inode tx = elim (find f_inode.core.i_ino tx.f_inodes) [
  | some none ↦ threw tx
  | _ ↦ accepted (record tx { f_inodes = put f_inode.core.i_ino none tx.f_inodes })
]

-- if (!dst_f_ino.is_nil()): the file that the move replaces
pub replace_file : Uuid → Transaction → Outcome
unfolding nil_uuid
replace_file dst_ino tx =
    if dst_ino == nil_uuid
    then accepted tx
    else accepted (record tx { f_inodes = put dst_ino none tx.f_inodes })

unfoldable pub mkself : Inode → Transaction → Outcome
unfolding check_open
mkself self_inode tx = do
  tx ← check_open tx
  accepted (record tx { s_inode = some (copy_inode self_inode); status = s_created })

unfoldable pub rmself : Transaction → Outcome
unfolding check_open
rmself tx = do tx ← check_open tx; accepted (record tx { status = s_deleted })

unfoldable pub chself : Inode → Transaction → Outcome
unfolding check_open
chself self_inode tx = do
  tx ← check_open tx
  accepted (record tx { s_inode = some (copy_inode self_inode) })

unfoldable pub mkdir : Inode → Bytes → Uuid → Transaction → Outcome
unfolding check_open add_entry update_self
mkdir self_inode d_name d_ino tx = do
  tx ← check_open tx
  tx ← add_entry d_name d_ino tx
  update_self self_inode tx

unfoldable pub rmdir : Inode → Bytes → Uuid → Transaction → Outcome
unfolding check_open delete_entry update_self
rmdir self_inode d_name d_ino tx = do
  tx ← check_open tx
  tx ← delete_entry d_name d_ino tx
  update_self self_inode tx

-- The last argument of mvdir(), the directory that is replaced, is not used by its body.
unfoldable pub mvdir : Inode → Bytes → Uuid → Bytes → Uuid → Transaction → Outcome
unfolding check_open delete_entry replace_entry update_self
mvdir self_inode src_name src_ino dst_name dst_ino tx = do
  tx ← check_open tx
  tx ← delete_entry src_name src_ino tx
  tx ← replace_entry dst_name src_ino tx
  update_self self_inode tx

unfoldable pub mkreg : Inode → Bytes → Inode → Transaction → Outcome
unfolding check_open add_entry update_self add_file
mkreg self_inode f_name f_inode tx = do
  tx ← check_open tx
  tx ← add_entry f_name f_inode.core.i_ino tx
  tx ← update_self self_inode tx
  add_file f_inode tx

unfoldable pub rmreg : Inode → Bytes → Inode → Transaction → Outcome
unfolding check_open delete_entry update_self delete_file
rmreg self_inode f_name f_inode tx = do
  tx ← check_open tx
  tx ← delete_entry f_name f_inode.core.i_ino tx
  tx ← update_self self_inode tx
  delete_file f_inode tx

unfoldable pub mvreg : Inode → Bytes → Uuid → Bytes → Uuid → Transaction → Outcome
unfolding check_open delete_entry replace_entry update_self replace_file
mvreg self_inode src_name src_ino dst_name dst_ino tx = do
  tx ← check_open tx
  tx ← delete_entry src_name src_ino tx
  tx ← replace_entry dst_name src_ino tx
  tx ← update_self self_inode tx
  replace_file dst_ino tx

unfoldable pub chreg : Inode → Transaction → Outcome
unfolding check_open
chreg f_inode tx = do
  tx ← check_open tx
  accepted (record tx { f_inodes = put f_inode.core.i_ino (some (copy_inode f_inode)) tx.f_inodes })
