-- ===== src/FuseOps/Directories.antt =====
-- The calls of client/fs_ops/fuse_ops.cpp on directories and links, and the root that init() makes.
use nmfs.Prelude.{ℕ, Bytes, false, Option, none, some, List, [], ◌++◌, if◌then◌else◌}
use nmfs.Exec.{Exec, Code, success, enotdir, pure, ◌>>=◌, ◌>>◌}
use nmfs.Uuid.{Uuid, nil_uuid, get_root_ino}
use nmfs.Inode.{s_isdir, new_inode}
use nmfs.Inode.Setters.{set_size}
use nmfs.Inode.Pool as InodePool
use nmfs.Dentry.{Dentry, new_dentry}
use nmfs.Dentry.Pool as DentryPool
use nmfs.Path.{get_filename_from_path, get_parent_dir_path}
use nmfs.Rados.Store.{IoCtx}
use nmfs.Rados.{exist}
use nmfs.Rados.Key as Key
use nmfs.DentryTable.Inodes.{deref, check_child_inode, get_child_inode, get_mode}
use nmfs.DirectoryTable.{get_dentry_table, lease_dentry_table_mkdir}
use nmfs.DirectoryTable.PathTraversal.{path_traversal}
use nmfs.LocalOps.Directories.{
  local_symlink, local_opendir, local_releasedir, local_readdir, local_mkdir, local_rmdir_top,
  local_rmdir_down, dir_inode_size,
}
use nmfs.RemoteOps.{
  remote_symlink, remote_opendir, remote_readdir, remote_mkdir, remote_rmdir_top, remote_rmdir_down,
}
use nmfs.FuseOps.{caught, by_loc, remote_of, again, inode_of, table_of, parent_of_path}
use nmfs.FuseOps.Attributes.{itself}
use nmfs.World.{World, Outside, ask, yield, get_inode, get_table, at_meta_pool}

module _ (io : IoCtx) (out : Outside) where
  open io use {State}

  -- The root of init(), S_IFDIR | 0777, where the pool has none
  unfoldable pub make_root : Exec (World State) Unit
  make_root = do
    there ← at_meta_pool (exist io Key.inode (out.to_string get_root_ino))
    if there then pure tt else (do
      ts ← ask out.time
      i ← (λ w.
          pure
            (set_size dir_inode_size
              (new_inode get_root_ino w.client_uid w.client_gid 16895 get_root_ino ts))
            w)
      at_meta_pool (InodePool.sync io out.to_string i)
      at_meta_pool (DentryPool.sync io out.to_string (new_dentry get_root_ino)))

  unfoldable pub symlink : Bytes → Bytes → Exec (World State) Code
  symlink src dst w = caught itself (
      (do
        dst_parent_name ← yield (get_parent_dir_path dst)
        dst_parent_i ← path_traversal io out dst_parent_name
        t ← table_of io out dst_parent_i
        by_loc (some t.loc) (local_symlink io out dst_parent_i src dst)
            (do
              remote_i ← remote_of t dst_parent_name
              again io out out.fuel remote_i itself (λ ret. remote_symlink out remote_i src dst)
                  success)
            success)
        w)

  -- The result, and file_info->fh, which is `fh` before.
  unfoldable pub opendir : Bytes → ℕ → Exec (World State) (Code × ℕ)
  opendir path fh w =
      caught (λ ret. (ret, fh))
        ((do
          i ← inode_of io out none path
          inode ← get_inode i
          by_loc inode.loc (local_opendir out i fh)
              (again io out out.fuel i (λ got. got.0) (λ got. remote_opendir out i got.1)
                (success, fh))
              (success, fh))
          w)

  unfoldable pub releasedir : Option ℕ → Bytes → Exec (World State) Code
  releasedir file_info path = do
    _ ← inode_of io out file_info path
    fh ← deref file_info
    local_releasedir out fh

  -- The result, and the names that the filler gets.
  unfoldable pub readdir : Bytes → Option ℕ → Exec (World State) (Code × List Bytes)
  readdir path file_info = do
    i ← inode_of io out file_info path
    t ← table_of io out i
    by_loc (some t.loc) (do names ← local_readdir io out i; pure (success, names))
        (do
          name ← yield (get_filename_from_path path)
          remote_i ← remote_of t name
          again io out out.fuel remote_i (λ got. got.0)
              (λ got. do read ← remote_readdir out remote_i; pure (read.0, got.1 ++ read.1))
              (success, []))
        (success, [])

  -- lease_dentry_table_mkdir(new_dir_inode, new_dir_dentry), where null pointers are followed
  lease_new : Option (ℕ × Dentry) → Exec (World State) Unit
  lease_new made = do new ← deref made; _ ← lease_dentry_table_mkdir io out new.0 new.1; pure tt

  -- The result of the remote operation is not returned.
  unfoldable pub mkdir : Bytes → ℕ → Exec (World State) Code
  unfolding lease_new
  mkdir path mode w = caught itself (
      (do
        target_name ← yield (get_filename_from_path path)
        parent_i ← parent_of_path io out path
        t ← table_of io out parent_i
        by_loc (some t.loc)
            (do
              made ← local_mkdir io out parent_i target_name mode
              lease_new (some made)
              pure success)
            (do
              remote_i ← remote_of t target_name
              made ←
                  again io out out.fuel remote_i (λ got. got.0)
                    (λ got. remote_mkdir out remote_i target_name mode) (success, none)
              lease_new made.1
              pure success)
            success)
        w)

  -- The first half of rmdir(), on the directory that is removed, and the second, on its parent.
  -- What is made for a remote table has the name `target_name` in both.
  unfoldable pub rmdir_top : ℕ → Uuid → Bytes → Exec (World State) Code
  rmdir_top table target_ino target_name = do
    t ← get_table table
    by_loc (some t.loc) (local_rmdir_top io out target_ino)
        (do
          target_remote_i ← remote_of t target_name
          again io out out.fuel target_remote_i itself
              (λ ret. remote_rmdir_top out target_remote_i target_ino) success)
        success

  unfoldable pub rmdir_down : ℕ → ℕ → Uuid → Bytes → Exec (World State) Code
  rmdir_down table parent_i target_ino target_name = do
    t ← get_table table
    by_loc (some t.loc) (do local_rmdir_down io out parent_i target_ino target_name; pure success)
        (do
          parent_remote_i ← remote_of t target_name
          again io out out.fuel parent_remote_i itself
              (λ ret. remote_rmdir_down out parent_remote_i target_ino target_name) success)
        success

  -- The four cases of rmdir(): each location of the target with each of the parent. The tables of
  -- get_dentry_table() are local or remote.
  unfoldable pub rmdir : Bytes → Exec (World State) Code
  unfolding rmdir_top rmdir_down
  rmdir path w = caught itself (
      (do
        target_name ← yield (get_filename_from_path path)
        parent_i ← parent_of_path io out path
        parent ← get_inode parent_i
        parent_table ← get_dentry_table io out parent.core.i_ino false
        target_ino ← check_child_inode io out parent_table target_name
        child ← get_child_inode io out parent_table target_name nil_uuid
        target_i ← deref child
        mode ← get_mode io out target_i
        if s_isdir mode
            then (do
              target_table ← get_dentry_table io out target_ino false
              ret ← rmdir_top target_table target_ino target_name
              elim ret [
                | Code.success ↦ rmdir_down parent_table parent_i target_ino target_name
                | other ↦ pure other
              ])
            else pure enotdir)
        w)
