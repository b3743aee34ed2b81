-- ===== src/FuseOps/Rename.antt =====
-- rename() of client/fs_ops/fuse_ops.cpp.
use nmfs.Prelude.{ℕ, Bytes, false, Option, none, some, ◌==◌, if◌then◌else◌}
use nmfs.Exec.{
  Exec, Result, ok, err, runtime_error, not_leader, no_such_object, Code, success, eexist, enosys,
  pure, ◌>>=◌,
}
use nmfs.Uuid.{Uuid}
use nmfs.Path.{get_filename_from_path, get_parent_dir_path}
use nmfs.Rados.Store.{IoCtx}
use nmfs.DentryTable.{DentryTable}
use nmfs.DentryTable.Inodes.{deref, check_child_inode}
use nmfs.DirectoryTable.{get_dentry_table}
use nmfs.DirectoryTable.PathTraversal.{path_traversal}
use nmfs.LocalOps.Rename.{
  local_rename_same_parent, local_rename_not_same_parent_src, local_rename_not_same_parent_dst,
}
use nmfs.RemoteOps.{
  remote_rename_same_parent, remote_rename_not_same_parent_src, remote_rename_not_same_parent_dst,
}
use nmfs.FuseOps.{caught, by_loc, remote_of, again, table_of}
use nmfs.FuseOps.Attributes.{itself}
use nmfs.World.{World, Outside, yield, get_inode, get_table}

-- catch (std::runtime_error), of which not_leader and no_such_object are kinds
abbrev pub caught_runtime : {S : Type 0} → Result Code × S → Result Code × S
caught_runtime (err runtime_error, s) = (ok enosys, s)
caught_runtime (err not_leader, s) = (ok enosys, s)
caught_runtime (err (no_such_object _), s) = (ok enosys, s)
caught_runtime (r, s) = (r, s)

module _ (io : IoCtx) (out : Outside) where
  open io use {State}

  -- Both paths have the parent `parent_path`.
  unfoldable pub rename_in : Bytes → Bytes → Bytes → ℕ → Exec (World State) Code
  rename_in parent_path old_path new_path flags = do
    parent_i ← path_traversal io out parent_path
    t ← table_of io out parent_i
    by_loc (some t.loc) (local_rename_same_parent io out parent_i old_path new_path flags)
        (do
          remote_i ← remote_of t new_path
          again io out out.fuel remote_i itself
              (λ ret. remote_rename_same_parent out remote_i old_path new_path flags) success)
        success

  -- The inode that is taken out of the old directory, with `none` for a null pointer. What the
  -- remote operation returns beside it is not looked at.
  unfoldable pub rename_src : DentryTable → ℕ → Bytes → ℕ → Exec (World State) (Option ℕ)
  rename_src t src_parent_i old_path flags =
      by_loc (some t.loc)
        (do
          target ← local_rename_not_same_parent_src io out src_parent_i old_path flags
          pure (some target))
        (do
          src_remote_i ← remote_of t old_path
          got ←
              again io out out.fuel src_remote_i (λ got. got.0)
                (λ got. remote_rename_not_same_parent_src out src_remote_i old_path flags got.1)
                (success, none)
          pure got.1)
        none

  unfoldable pub rename_dst : DentryTable → ℕ → ℕ → Uuid → Bytes → ℕ → Exec (World State) Code
  rename_dst t dst_parent_i target check_dst_ino new_path flags =
      by_loc (some t.loc)
        (local_rename_not_same_parent_dst io out dst_parent_i target check_dst_ino new_path flags)
        (do
          dst_remote_i ← remote_of t new_path
          again io out out.fuel dst_remote_i itself
              (λ ret.
                remote_rename_not_same_parent_dst out dst_remote_i target check_dst_ino new_path
                  flags)
              success)
        success

  -- The four cases of a move: each location of the old directory with each of the new one. The
  -- tables of get_dentry_table() are local or remote. Every case follows the target's pointer.
  unfoldable pub rename_across : Bytes → Bytes → Bytes → Bytes → ℕ → Exec (World State) Code
  unfolding rename_src rename_dst
  rename_across src_parent_path dst_parent_path old_path new_path flags = do
    src_parent_i ← path_traversal io out src_parent_path
    src_table ← table_of io out src_parent_i
    dst_parent_i ← path_traversal io out dst_parent_path
    dst_parent ← get_inode dst_parent_i
    dst ← get_dentry_table io out dst_parent.core.i_ino false
    dst_table ← get_table dst
    new_name ← yield (get_filename_from_path new_path)
    check_dst_ino ← check_child_inode io out dst new_name
    target ← rename_src src_table src_parent_i old_path flags
    target_inode ← deref target
    rename_dst dst_table dst_parent_i target_inode check_dst_ino new_path flags

  unfoldable pub rename : Bytes → Bytes → ℕ → Exec (World State) Code
  unfolding rename_in rename_across
  rename old_path new_path flags w =
      if old_path == new_path
      then (ok eexist, w)
      else caught_runtime (
          caught itself (
            (do
              src_parent_path ← yield (get_parent_dir_path old_path)
              dst_parent_path ← yield (get_parent_dir_path new_path)
              if src_parent_path == dst_parent_path
                  then rename_in src_parent_path old_path new_path flags
                  else rename_across src_parent_path dst_parent_path old_path new_path flags)
              w))
