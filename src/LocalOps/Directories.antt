-- ===== src/LocalOps/Directories.antt =====
-- Directories and links in client/fs_ops/local_ops.cpp: opendir, readdir, mkdir, both halves of
-- rmdir, and symlink.
use Prim.Native.Nat.{bit_or}
use nmfs.Prelude.{ℕ, Bytes, List, false, none, ◌==◌, length, ltb, if◌then◌else◌}
use nmfs.Exec.{Exec, ok, Code, success, enotdir, enotempty, eexist, eio, pure, ◌>>=◌, ◌>>◌}
use nmfs.Uuid.{Uuid, nil_uuid}
use nmfs.Inode.{s_isdir, new_symlink}
use nmfs.Inode.Setters.{set_size}
use nmfs.Dentry.{Dentry, new_dentry}
use nmfs.FileHandler.{delete_file_handler}
use nmfs.Path.{get_filename_from_path}
use nmfs.Rados.Store.{IoCtx}
use nmfs.DentryTable.{create_child_inode, delete_child_inode, fill_names, child_num}
use nmfs.DentryTable.Inodes.{check_child_inode}
use nmfs.DirectoryTable.{get_dentry_table, delete_dentry_table}
use nmfs.LocalOps.{
  touch, create_inode, open_handle, log_mkdir, log_mkself, log_rmself, log_rmdir, log_mkreg,
}
use nmfs.World.{World, Outside, ask, yield, get_inode, set_inode, make_inode, at_table}

-- S_IFDIR
abbrev pub s_ifdir : ℕ
s_ifdir = 16384

-- S_IFLNK | 0777
abbrev pub link_mode : ℕ
link_mode = 41471

-- DIR_INODE_SIZE
abbrev pub dir_inode_size : ℕ
dir_inode_size = 4096

module _ {State : Type 0} (out : Outside) where
  -- The result, and file_info->fh, which is `fh` before.
  unfoldable pub local_opendir : ℕ → ℕ → Exec (World State) (Code × ℕ)
  local_opendir i fh = do
    inode ← get_inode i
    if s_isdir inode.core.i_mode
        then (do fhno ← open_handle out i; pure (success, fhno))
        else pure (enotdir, fh)

  -- local_releasedir(i, file_info), of the handle `fh`
  unfoldable pub local_releasedir : ℕ → Exec (World State) Code
  local_releasedir fh w =
      let (found, open_context) = delete_file_handler fh w.open_context in
      (ok (if found then success else eio), record w { open_context = open_context })

module _ (io : IoCtx) (out : Outside) where
  open io use {State}

  -- The names that the filler gets.
  unfoldable pub local_readdir : ℕ → Exec (World State) (List Bytes)
  local_readdir i = do
    inode ← get_inode i
    table ← get_dentry_table io out inode.core.i_ino false
    at_table table fill_names

  -- `new_dir_inode` and `new_dir_dentry`, beside the result 0
  unfoldable pub local_mkdir : ℕ → Bytes → ℕ → Exec (World State) (ℕ × Dentry)
  local_mkdir parent_i new_child_name mode = do
    parent ← get_inode parent_i
    table ← get_dentry_table io out parent.core.i_ino false
    new_i ← create_inode out parent.core.i_ino (bit_or mode s_ifdir)
    new ← get_inode new_i
    _ ← at_table table (create_child_inode new_child_name new_i new.core.i_ino)
    touch out parent_i
    log_mkdir out parent_i new_child_name new.core.i_ino
    set_inode new_i (set_size dir_inode_size)
    log_mkself out new_i
    pure (new_i, new_dentry new.core.i_ino)

  -- rmdir in the directory that is removed. get_dentry_table() returns no null pointer.
  unfoldable pub local_rmdir_top : Uuid → Exec (World State) Code
  local_rmdir_top target_ino = do
    table ← get_dentry_table io out target_ino false
    n ← at_table table child_num
    if ltb 0 n
        then pure enotempty
        else (do log_rmself out target_ino; _ ← delete_dentry_table target_ino; pure success)

  -- rmdir in the parent, whose result is always 0
  unfoldable pub local_rmdir_down : ℕ → Uuid → Bytes → Exec (World State) Unit
  local_rmdir_down parent_i target_ino target_name = do
    parent ← get_inode parent_i
    table ← get_dentry_table io out parent.core.i_ino false
    _ ← at_table table (delete_child_inode target_name)
    touch out parent_i
    log_rmdir out parent_i target_name target_ino
    _ ← delete_dentry_table target_ino
    pure tt

  -- std::make_shared<inode>(dst_parent_i->get_ino(), client_uid, client_gid, S_IFLNK | 0777, src)
  unfoldable pub create_symlink : Uuid → Bytes → Exec (World State) ℕ
  create_symlink parent_ino src = do
    ts ← ask out.time
    ino ← ask out.fresh_ino
    i ← (λ w. (ok (new_symlink parent_ino w.client_uid w.client_gid link_mode src ino ts), w))
    make_inode i none

  -- `src` is the target, a C string, and `dst` the path of the link. The time that is read is not
  -- used.
  unfoldable pub local_symlink : ℕ → Bytes → Bytes → Exec (World State) Code
  unfolding create_symlink
  local_symlink dst_parent_i src dst = do
    parent ← get_inode dst_parent_i
    table ← get_dentry_table io out parent.core.i_ino false
    symlink_name ← yield (get_filename_from_path dst)
    ino ← check_child_inode io out table symlink_name
    if ino == nil_uuid
        then (do
          symlink_i ← create_symlink parent.core.i_ino src
          set_inode symlink_i (set_size (length src))
          link ← get_inode symlink_i
          _ ← at_table table (create_child_inode symlink_name symlink_i link.core.i_ino)
          _ ← ask out.time
          log_mkreg out dst_parent_i symlink_name symlink_i
          pure success)
        else pure eexist
