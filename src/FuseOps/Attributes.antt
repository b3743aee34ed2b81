-- ===== src/FuseOps/Attributes.antt =====
-- The calls of client/fs_ops/fuse_ops.cpp on the attributes of an inode.
use nmfs.Prelude.{ℕ, Bytes, Option, []}
use nmfs.Exec.{Exec, Code, success, pure, ◌>>=◌, ◌>>◌}
use nmfs.Inode.{Stat, Timespec}
use nmfs.Rados.Store.{IoCtx}
use nmfs.LocalOps.Attributes.{
  local_getattr, local_access, local_readlink, local_chmod, local_chown, local_utimens,
}
use nmfs.LocalOps.Files.{local_truncate}
use nmfs.RemoteOps.{
  remote_getattr, remote_access, remote_readlink, remote_chmod, remote_chown, remote_utimens,
  remote_truncate,
}
use nmfs.FuseOps.{caught, by_loc, again, inode_of}
use nmfs.World.{World, Outside, get_inode}

abbrev pub itself : Code → Code
itself ret = ret

module _ (io : IoCtx) (out : Outside) where
  open io use {State}

  unfoldable pub getattr : Bytes → Stat → Option ℕ → Exec (World State) (Code × Stat)
  getattr path stat file_info w =
      caught (λ ret. (ret, stat))
        ((do
          i ← inode_of io out file_info path
          inode ← get_inode i
          by_loc inode.loc (do stat' ← local_getattr out i stat; pure (success, stat'))
              (again io out out.fuel i (λ got. got.0) (λ got. remote_getattr out i got.1)
                (success, stat))
              (success, stat))
          w)

  unfoldable pub access : Bytes → ℕ → Exec (World State) Code
  access path mask w = caught itself (
      (do
        i ← inode_of io out Option.none path
        inode ← get_inode i
        by_loc inode.loc (do local_access out i mask; pure success)
            (again io out out.fuel i itself (λ ret. remote_access out i mask) success) success)
        w)

  unfoldable pub readlink : Bytes → ℕ → Exec (World State) (Code × Bytes)
  readlink path size w =
      caught (λ ret. (ret, []))
        ((do
          i ← inode_of io out Option.none path
          inode ← get_inode i
          by_loc inode.loc (local_readlink i size)
              (again io out out.fuel i (λ got. got.0) (λ got. remote_readlink out i size)
                (success, []))
              (success, []))
          w)

  unfoldable pub chmod : Bytes → ℕ → Option ℕ → Exec (World State) Code
  chmod path mode file_info w = caught itself (
      (do
        i ← inode_of io out file_info path
        inode ← get_inode i
        by_loc inode.loc (do local_chmod out i mode; pure success)
            (again io out out.fuel i itself (λ ret. remote_chmod out i mode) success) success)
        w)

  -- The result of the remote operation is not returned.
  unfoldable pub chown : Bytes → ℕ → ℕ → Option ℕ → Exec (World State) Code
  chown path uid gid file_info w = caught itself (
      (do
        i ← inode_of io out file_info path
        inode ← get_inode i
        _ ←
            by_loc inode.loc (do local_chown out i uid gid; pure success)
              (again io out out.fuel i itself (λ ret. remote_chown out i uid gid) success) success
        pure success)
        w)

  unfoldable pub utimens : Bytes → Timespec → Timespec → Option ℕ → Exec (World State) Code
  utimens path atime mtime file_info w = caught itself (
      (do
        i ← inode_of io out file_info path
        inode ← get_inode i
        _ ←
            by_loc inode.loc (do local_utimens out i atime mtime; pure success)
              (again io out out.fuel i itself (λ ret. remote_utimens out i atime mtime) success)
              success
        pure success)
        w)

  unfoldable pub truncate : Bytes → ℕ → Option ℕ → Exec (World State) Code
  truncate path offset file_info w = caught itself (
      (do
        i ← inode_of io out file_info path
        inode ← get_inode i
        by_loc inode.loc (local_truncate io out i offset)
            (again io out out.fuel i itself (λ ret. remote_truncate io out i offset) success)
            success)
        w)
