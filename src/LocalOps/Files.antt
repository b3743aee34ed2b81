-- ===== src/LocalOps/Files.antt =====
-- Files in client/fs_ops/local_ops.cpp: open, release, create, unlink, read, write and truncate.
use Prim.Native.Nat.{bit_or}
use nmfs.Prelude.{ℕ, ◌+◌, ◌-◌, ◌%◌, ◌^◌, Bytes, false, ◌&&◌, not, length, ltb, if◌then◌else◌}
use nmfs.Prelude.Tests.{◌==◌}
use nmfs.Exec.{Exec, ok, Code, success, enotdir, eloop, eio, eisdir, pure, ◌>>=◌, ◌>>◌}
use nmfs.Uuid.{nil_uuid}
use nmfs.Inode.{s_isdir, s_islnk}
use nmfs.Inode.Setters.{set_size, set_nlink}
use nmfs.FileHandler.{delete_file_handler}
use nmfs.Rados.Store.{IoCtx}
use nmfs.Rados.Key as Key
use nmfs.Rados.{read, write, remove, truncate}
use nmfs.DentryTable.{create_child_inode, delete_child_inode}
use nmfs.DentryTable.Inodes.{deref, get_child_inode}
use nmfs.DirectoryTable.{get_dentry_table}
use nmfs.LocalOps.{
  has_flag, touch, create_inode, open_handle, log_mkreg, log_rmreg, log_chreg, log_change,
}
use nmfs.World.{World, Outside, get_inode, set_inode, at_table, at_data_pool}

-- O_TRUNC, O_APPEND, O_DIRECTORY, O_NOFOLLOW and O_PATH of fcntl.h
abbrev pub o_trunc : ℕ
o_trunc = 512

abbrev pub o_append : ℕ
o_append = 1024

abbrev pub o_directory : ℕ
o_directory = 65536

abbrev pub o_nofollow : ℕ
o_nofollow = 131072

abbrev pub o_path : ℕ
o_path = 2097152

-- S_IFREG
abbrev pub s_ifreg : ℕ
s_ifreg = 32768

-- i->get_nlink() - 1, a number of 64 bits without a sign
abbrev pub one_fewer : ℕ → ℕ
one_fewer nlink = (nlink + 2 ^ 64 - 1) % 2 ^ 64

module _ {State : Type 0} (out : Outside) where
  -- The result, and file_info->fh, which is `fh` before.
  unfoldable pub local_open : ℕ → ℕ → ℕ → Exec (World State) (Code × ℕ)
  local_open i flags fh = do
    inode ← get_inode i
    if has_flag flags o_directory && not (s_isdir inode.core.i_mode)
        then pure (enotdir, fh)
        else if has_flag flags o_nofollow && s_islnk inode.core.i_mode
        then pure (eloop, fh)
        else (do
          (if has_flag flags o_trunc && not (has_flag flags o_path)
              then set_inode i (set_size 0) >> log_chreg out i
              else pure tt)
          fhno ← open_handle out i
          pure (success, fhno))

  -- local_release(i, file_info), of the handle `fh`
  unfoldable pub local_release : ℕ → Exec (World State) Code
  local_release fh w =
      let (found, open_context) = delete_file_handler fh w.open_context in
      (ok (if found then success else eio), record w { open_context = open_context })

module _ (io : IoCtx) (out : Outside) where
  open io use {State}

  -- file_info->fh
  unfoldable pub local_create : ℕ → Bytes → ℕ → Exec (World State) ℕ
  local_create parent_i new_child_name mode = do
    parent ← get_inode parent_i
    table ← get_dentry_table io out parent.core.i_ino false
    i ← create_inode out parent.core.i_ino (bit_or mode s_ifreg)
    inode ← get_inode i
    _ ← at_table table (create_child_inode new_child_name i inode.core.i_ino)
    touch out parent_i
    log_mkreg out parent_i new_child_name i
    open_handle out i

  -- if (nlink == 0) and else, of the file at `target_i` under `child_name`
  unfoldable pub drop_link : ℕ → ℕ → Bytes → ℕ → Exec (World State) Unit
  drop_link parent_i table child_name target_i = do
    target ← get_inode target_i
    let nlink = one_fewer target.core.i_nlink
    if nlink == 0
        then (do
          at_data_pool (remove io out.fuel Key.file_data (out.to_string target.core.i_ino))
          _ ← at_table table (delete_child_inode child_name)
          touch out parent_i
          log_rmreg out parent_i child_name target_i)
        else (do set_inode target_i (set_nlink nlink); log_chreg out target_i)

  unfoldable pub local_unlink : ℕ → Bytes → Exec (World State) Unit
  unfolding drop_link
  local_unlink parent_i child_name = do
    parent ← get_inode parent_i
    table ← get_dentry_table io out parent.core.i_ino false
    child ← get_child_inode io out table child_name nil_uuid
    target_i ← deref child
    drop_link parent_i table child_name target_i

  -- What is read into the buffer; its length is the result.
  unfoldable pub local_read : ℕ → ℕ → ℕ → Exec (World State) Bytes
  local_read i size offset = do
    inode ← get_inode i
    at_data_pool (read io Key.file_data (out.to_string inode.core.i_ino) size offset)

  -- if (i->get_size() < offset + size)
  unfoldable pub grow : ℕ → ℕ → Exec (World State) Unit
  grow i stop = do
    inode ← get_inode i
    if ltb inode.core.i_size stop
        then (do set_inode i (set_size stop); log_chreg out i)
        else pure tt

  unfoldable pub local_write : ℕ → Bytes → ℕ → ℕ → Exec (World State) ℕ
  unfolding grow
  local_write i buffer offset flags = do
    inode ← get_inode i
    let offset = if has_flag flags o_append then inode.core.i_size else offset
    written_len ←
        at_data_pool (write io Key.file_data (out.to_string inode.core.i_ino) buffer offset)
    grow i (offset + length buffer)
    pure written_len

  unfoldable pub local_truncate : ℕ → ℕ → Exec (World State) Code
  local_truncate i offset = do
    inode ← get_inode i
    if s_isdir inode.core.i_mode then pure eisdir else (do
      at_data_pool (truncate io out.fuel Key.file_data (out.to_string inode.core.i_ino) offset)
      set_inode i (set_size offset)
      touch out i
      log_change out i
      pure success)
