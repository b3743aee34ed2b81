-- ===== src/RpcServer/Files.antt =====
-- The calls of client/rpc/rpc_server.cpp on what a file holds: open and write.
use nmfs.Prelude.{ℕ, ◌+◌, Bool, ◌&&◌, not, if◌then◌else◌}
use nmfs.Exec.{Exec, success, enotdir, eloop, enotleader, pure, ◌>>=◌, ◌>>◌}
use nmfs.Uuid.{splice_prefix_and_postfix}
use nmfs.Inode.{s_isdir, s_islnk}
use nmfs.Inode.Setters.{set_size}
use nmfs.Rados.Store.{IoCtx}
use nmfs.DentryTable.Inodes.{get_mode}
use nmfs.RpcMessages.{OpenOpendirRequest, CommonRespond, WriteRequest, WriteRespond}
use nmfs.LocalOps.{has_flag, log_chreg}
use nmfs.LocalOps.Files.{o_append, o_directory, o_nofollow, o_trunc, o_path, grow}
use nmfs.RpcServer.{with_table, child_of}
use nmfs.RpcServer.Inodes.{common}
use nmfs.World.{World, Outside, get_inode, set_inode}

module _ (io : IoCtx) (out : Outside) where
  open io use {State}

  -- if ((flags & flag) && ...(i->get_mode())): the mode is asked for only under the flag
  unfoldable pub checked_mode : ℕ → (ℕ → Bool) → ℕ → ℕ → Exec (World State) Bool
  checked_mode flag test flags i =
      if has_flag flags flag
      then (do mode ← get_mode io out i; pure (test mode))
      else pure Bool.false

  -- if ((flags & O_TRUNC) && !(flags & O_PATH))
  truncated : ℕ → ℕ → Exec (World State) Unit
  truncated flags i =
      if has_flag flags o_trunc && not (has_flag flags o_path)
      then (do set_inode i (set_size 0); log_chreg out i)
      else pure tt

  unfoldable pub rpc_open : OpenOpendirRequest → Exec (World State) CommonRespond
  unfolding checked_mode truncated
  rpc_open request =
      with_table io out
        (splice_prefix_and_postfix request.dentry_table_ino_prefix request.dentry_table_ino_postfix)
        (common enotleader)
        (λ table. do
          i ← child_of io out table request.filename
          no_dir ← checked_mode o_directory (λ mode. not (s_isdir mode)) request.flags i
          if no_dir then pure (common enotdir) else (do
            link ← checked_mode o_nofollow s_islnk request.flags i
            if link
                then pure (common eloop)
                else (do truncated request.flags i; pure (common success))))

  -- The size grows here, and the bytes are written by the client that asks.
  unfoldable pub rpc_write : WriteRequest → Exec (World State) WriteRespond
  rpc_write request =
      with_table io out
        (splice_prefix_and_postfix request.dentry_table_ino_prefix request.dentry_table_ino_postfix)
        (record { size = 0; offset = 0; ret = enotleader })
        (λ table. do
          i ← child_of io out table request.filename
          inode ← get_inode i
          let offset = if has_flag request.flags o_append then inode.core.i_size else request.offset
          grow io out i (offset + request.size)
          pure (record { size = request.size; offset = offset; ret = success }))
