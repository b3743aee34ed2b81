-- ===== src/DentryTable.antt =====
-- client/in_memory/dentry_table.hpp and dentry_table.cpp: what a client holds of a directory, for
-- itself or for the client that leads it. A std::shared_ptr<inode> is an address of the inodes in
-- World; here are the operations that touch the table alone. The log lines are left out.
pub mod Inodes
use nmfs.Prelude.{ℕ, Bytes, Bool, true, false, Option, none, some, List, []}
use nmfs.Exec.{Exec, ok, err, undefined, pure, ◌>>=◌, ◌>>◌}
use nmfs.Map.{Map, find, put, erase}
use nmfs.Uuid.{Uuid}
use nmfs.Inode.{MetaLocation}
use nmfs.Dentry.{Dentry, add_child, delete_child, get_child_num, fill_filler}

-- `this_dir_inode` and `dentries` are `none` for a null pointer. No list of children is shared
-- between tables.
pub record DentryTable : Type 0 where
  pub dir_ino : Uuid
  pub this_dir_inode : Option ℕ
  pub dentries : Option Dentry
  pub child_inodes : Map ℕ
  pub loc : MetaLocation
  pub leader_ip : Bytes

-- dentry_table(dir_ino, loc), with the inode that the constructor reads for a local table
unfoldable pub new_dentry_table : Uuid → MetaLocation → Option ℕ → DentryTable
new_dentry_table dir_ino loc this_dir_inode = record {
  dir_ino = dir_ino;
  this_dir_inode = this_dir_inode;
  dentries = none;
  child_inodes = [];
  loc = loc;
  leader_ip = [];
}

-- dentry_table(new_dir_inode, new_dir_dentry, LOCAL)
unfoldable pub new_dentry_table_mkdir : ℕ → Uuid → Dentry → DentryTable
new_dentry_table_mkdir new_dir_inode ino new_dir_dentry = record {
  dir_ino = ino;
  this_dir_inode = some new_dir_inode;
  dentries = some new_dir_dentry;
  child_inodes = [];
  loc = MetaLocation.local;
  leader_ip = [];
}

-- A call through the pointer `dentries`.
abbrev pub on_dentries : (Dentry → Dentry) → Exec DentryTable Unit
on_dentries f t = elim t.dentries [
  | none ↦ (err undefined, t)
  | some d ↦ (ok tt, record t { dentries = some (f d) })
]

abbrev pub of_dentries : {A : Type 0} → (Dentry → A) → Exec DentryTable A
of_dentries f t = elim t.dentries [ none ↦ (err undefined, t) | some d ↦ (ok (f d), t) ]

-- child_inodes.insert({filename, nullptr}) and the write through its iterator: `true` for 0, and
-- `false` for -1
unfoldable pub add_child_inode : Bytes → ℕ → Exec DentryTable Bool
add_child_inode filename i t = elim (find filename t.child_inodes) [
  | some _ ↦ (ok false, t)
  | none ↦ (ok true, record t { child_inodes = put filename i t.child_inodes })
]

-- The list of children takes a name that the map has taken.
also_listed : Bool → Bytes → Uuid → Exec DentryTable Bool
also_listed true filename ino = do on_dentries (add_child filename ino); pure true
also_listed false filename ino = pure false

-- create_child_inode(filename, inode), where `ino` is the number of the inode
unfoldable pub create_child_inode : Bytes → ℕ → Uuid → Exec DentryTable Bool
unfolding add_child_inode also_listed
create_child_inode filename i ino = do
  added ← add_child_inode filename i
  also_listed added filename ino

unfoldable pub delete_child_inode : Bytes → Exec DentryTable Bool
delete_child_inode filename t = elim (find filename t.child_inodes) [
  | none ↦ (ok false, t)
  | some _ ↦
      (do on_dentries (delete_child filename); pure true)
        (record t { child_inodes = erase filename t.child_inodes })
]

unfoldable pub set_leader_ip : Bytes → DentryTable → DentryTable
set_leader_ip new_leader_ip t = record t { leader_ip = new_leader_ip }

-- fill_filler(buffer, filler): the names that the filler gets
unfoldable pub fill_names : Exec DentryTable (List Bytes)
fill_names = of_dentries fill_filler

unfoldable pub child_num : Exec DentryTable ℕ
child_num = of_dentries get_child_num
