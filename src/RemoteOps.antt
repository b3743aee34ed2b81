-- ===== src/RemoteOps.antt =====
-- client/fs_ops/remote_ops.cpp: the file system calls on a directory that another client leads. Each
-- goes to the rpc_client of the leader's address. A remote_inode is an address; a null pointer is the
-- address of an inode that is none, since it comes of a cast.
use nmfs.Prelude.{ℕ, Bytes, Option, none, some, List}
use nmfs.Exec.{Exec, Code, Length, runtime_error, pure, raise, ◌>>=◌}
use nmfs.Uuid.{Uuid}
use nmfs.Inode.{Stat, Timespec}
use nmfs.Dentry.{Dentry}
use nmfs.Rados.Store.{IoCtx}
use nmfs.RpcClient.Attributes as Attributes
use nmfs.RpcClient.Entries as Entries
use nmfs.RpcClient.Files as Files
use nmfs.World.{World, Outside, RemoteInode}

-- if (i == nullptr)
abbrev remote_at : {S : Type 0} → Option RemoteInode → Exec S RemoteInode
remote_at none = raise runtime_error
remote_at (some r) = pure r

-- get_rpc_client(i->get_address()), whose calls have what the remote_inode says with them
unfoldable pub get_rpc_client : {State : Type 0} → ℕ → Exec (World State) RemoteInode
get_rpc_client i w = remote_at (w.remotes i) w

module _ {State : Type 0} (out : Outside) where
  unfoldable pub remote_getattr : ℕ → Stat → Exec (World State) (Code × Stat)
  remote_getattr i stat = do r ← get_rpc_client i; Attributes.getattr out r stat

  unfoldable pub remote_access : ℕ → ℕ → Exec (World State) Code
  remote_access i mask = do r ← get_rpc_client i; Attributes.access out r mask

  unfoldable pub remote_opendir : ℕ → ℕ → Exec (World State) (Code × ℕ)
  remote_opendir i fh = do r ← get_rpc_client i; Files.opendir out r i fh

  unfoldable pub remote_readdir : ℕ → Exec (World State) (Code × List Bytes)
  remote_readdir i = do r ← get_rpc_client i; Entries.readdir out r

  unfoldable pub remote_mkdir : ℕ → Bytes → ℕ → Exec (World State) (Code × Option (ℕ × Dentry))
  remote_mkdir parent_i new_child_name mode = do
    r ← get_rpc_client parent_i
    Entries.mkdir out r parent_i new_child_name mode

  unfoldable pub remote_rmdir_top : ℕ → Uuid → Exec (World State) Code
  remote_rmdir_top target_i target_ino = do
    r ← get_rpc_client target_i
    Entries.rmdir_top out r target_ino

  unfoldable pub remote_rmdir_down : ℕ → Uuid → Bytes → Exec (World State) Code
  remote_rmdir_down parent_i target_ino target_name = do
    r ← get_rpc_client parent_i
    Entries.rmdir_down out r target_ino target_name

  unfoldable pub remote_symlink : ℕ → Bytes → Bytes → Exec (World State) Code
  remote_symlink dst_parent_i src dst = do
    r ← get_rpc_client dst_parent_i
    Entries.symlink out r src dst

  unfoldable pub remote_readlink : ℕ → ℕ → Exec (World State) (Code × Bytes)
  remote_readlink i size = do r ← get_rpc_client i; Entries.readlink out r size

  unfoldable pub remote_rename_same_parent : ℕ → Bytes → Bytes → ℕ → Exec (World State) Code
  remote_rename_same_parent parent_i old_path new_path flags = do
    r ← get_rpc_client parent_i
    Entries.rename_same_parent out r old_path new_path flags

  unfoldable pub remote_rename_not_same_parent_src :
      ℕ → Bytes → ℕ → Option ℕ → Exec (World State) (Code × Option ℕ)
  remote_rename_not_same_parent_src src_parent_i old_path flags target_inode = do
    r ← get_rpc_client src_parent_i
    Entries.rename_not_same_parent_src out r old_path flags target_inode

  unfoldable pub remote_rename_not_same_parent_dst :
      ℕ → ℕ → Uuid → Bytes → ℕ → Exec (World State) Code
  remote_rename_not_same_parent_dst dst_parent_i target_inode check_dst_ino new_path flags = do
    r ← get_rpc_client dst_parent_i
    Entries.rename_not_same_parent_dst out r target_inode check_dst_ino new_path flags

  unfoldable pub remote_open : ℕ → ℕ → ℕ → Exec (World State) (Code × ℕ)
  remote_open i flags fh = do r ← get_rpc_client i; Files.open_remote out r i flags fh

  unfoldable pub remote_create : ℕ → Bytes → ℕ → ℕ → Exec (World State) (Code × ℕ)
  remote_create parent_i new_child_name mode fh = do
    r ← get_rpc_client parent_i
    Files.create out r new_child_name mode fh

  unfoldable pub remote_unlink : ℕ → Bytes → Exec (World State) Code
  remote_unlink parent_i child_name = do
    r ← get_rpc_client parent_i
    Entries.unlink out r child_name

  unfoldable pub remote_chmod : ℕ → ℕ → Exec (World State) Code
  remote_chmod i mode = do r ← get_rpc_client i; Attributes.chmod out r mode

  unfoldable pub remote_chown : ℕ → ℕ → ℕ → Exec (World State) Code
  remote_chown i uid gid = do r ← get_rpc_client i; Attributes.chown out r uid gid

  unfoldable pub remote_utimens : ℕ → Timespec → Timespec → Exec (World State) Code
  remote_utimens i atime mtime = do r ← get_rpc_client i; Attributes.utimens out r atime mtime

module _ (io : IoCtx) (out : Outside) where
  open io use {State}

  unfoldable pub remote_write : ℕ → Bytes → ℕ → ℕ → Exec (World State) Length
  remote_write i buffer offset flags = do
    r ← get_rpc_client i
    Files.write_remote io out r i buffer offset flags

  unfoldable pub remote_truncate : ℕ → ℕ → Exec (World State) Code
  remote_truncate i offset = do r ← get_rpc_client i; Attributes.truncate_remote io out r i offset
