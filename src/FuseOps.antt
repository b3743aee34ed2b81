-- ===== src/FuseOps.antt =====
-- client/fs_ops/fuse_ops.cpp: the calls of FUSE. Each finds the inode or the directory of its path and
-- then takes the local or the remote operation; the children have the calls, and here is what they
-- share. `none` stands for a null fuse_file_info, and a handle for its fh. Log lines are left out.
pub mod Attributes
pub mod Directories
pub mod Files
pub mod Rename
pub mod Local
pub mod MoveAcross
mod Examples
use nmfs.Prelude.{ℕ, zero, suc, Bytes, Bool, false, Option, none, some}
use nmfs.Exec.{
  Exec, Result, ok, err, no_entry, permission_denied, runtime_error, fuel_exhausted, Code, enoent,
  eacces, pure, raise, ◌>>=◌, ◌>>◌,
}
use nmfs.Inode.{MetaLocation}
use nmfs.Path.{get_filename_from_path, get_parent_dir_path}
use nmfs.Rados.Store.{IoCtx}
use nmfs.FileHandler.{get_file_handler, get_open_inode_info}
use nmfs.DentryTable.{DentryTable}
use nmfs.DentryTable.Inodes.{blank, deref}
use nmfs.DirectoryTable.{get_dentry_table}
use nmfs.DirectoryTable.PathTraversal.{path_traversal, find_remote_dentry_table_again}
use nmfs.World.{World, Outside, yield, get_inode, get_table, make_inode}

-- catch (inode::no_entry) and catch (inode::permission_denied)
unfoldable pub caught : {S A : Type 0} → (Code → A) → Result A × S → Result A × S
caught fail (err no_entry, s) = (ok (fail enoent), s)
caught fail (err permission_denied, s) = (ok (fail eacces), s)
caught fail (r, s) = (r, s)

module _ {State : Type 0} where
  -- Each of the two cases of a call, and what it has before where the location is another.
  unfoldable pub by_loc :
      {A : Type 0}
      → Option MetaLocation
      → Exec (World State) A
      → Exec (World State) A
      → A
      → Exec (World State) A
  by_loc (some MetaLocation.local) here there before = here
  by_loc (some MetaLocation.remote) here there before = there
  by_loc _ here there before = pure before

  -- std::make_shared<remote_inode>(table->get_leader_ip(), table->get_dir_ino(), name)
  unfoldable pub remote_of : DentryTable → Bytes → Exec (World State) ℕ
  remote_of t name = make_inode blank (
      some (record {
        leader_ip = t.leader_ip;
        dentry_table_ino = t.dir_ino;
        file_name = name;
        target_is_parent = false;
      }))

module _ (io : IoCtx) (out : Outside) where
  open io use {State}

  -- while (true), around a remote operation on the remote inode at `i`: it is tried again where the
  -- client that was asked does not lead the directory. `before` is what the caller has got so far.
  unfoldable pub again :
      {A : Type 0} → ℕ → ℕ → (A → Code) → (A → Exec (World State) A) → A → Exec (World State) A
  again zero i code op before = raise fuel_exhausted
  again (suc fuel) i code op before = do
    got ← op before
    elim (code got) [
      | Code.enotleader ↦ do find_remote_dentry_table_again io out i; again fuel i code op got
      | Code.eneedrecov ↦ raise runtime_error
      | _ ↦ pure got
    ]

  -- The inode that is open under a handle, or else that of the path.
  unfoldable pub inode_of : Option ℕ → Bytes → Exec (World State) ℕ
  inode_of none path = path_traversal io out path
  inode_of (some fh) path = do
    handler ← (λ w. yield (get_file_handler fh w.open_context) w)
    i ← yield (get_open_inode_info handler)
    deref i

  -- get_dentry_table(i->get_ino())
  unfoldable pub table_of : ℕ → Exec (World State) DentryTable
  table_of i = do
    inode ← get_inode i
    a ← get_dentry_table io out inode.core.i_ino false
    get_table a

  -- The inode of the directory that the last name of the path stands in.
  unfoldable pub parent_of_path : Bytes → Exec (World State) ℕ
  parent_of_path path = do
    parent_path ← yield (get_parent_dir_path path)
    path_traversal io out parent_path
