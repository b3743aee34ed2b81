-- ===== src/RpcServer/Inodes.antt =====
-- The calls of client/rpc/rpc_server.cpp on the attributes of an inode.
use Prim.Native.Nat.{bit_or}
use nmfs.Prelude.{ℕ, ◌^◌, ltb, if◌then◌else◌}
use nmfs.Exec.{
  Exec, Result, ok, err, no_entry, permission_denied, Code, success, enotdir, eisdir, eacces,
  enotleader, pure, ◌>>=◌, ◌>>◌,
}
use nmfs.Uuid.{get_prefix_from_uuid, get_postfix_from_uuid, splice_prefix_and_postfix}
use nmfs.Inode.{Inode, Timespec, s_isdir}
use nmfs.Inode.Setters.{set_mode, set_uid, set_gid, set_size, set_atime, set_mtime}
use nmfs.Rados.Store.{IoCtx}
use nmfs.DentryTable.Inodes.{check_child_inode, get_mode, permission_check}
use nmfs.RpcMessages.{
  DentryTableRequest, DentryTableRespond, InodeRequest, InodeRespond, GetattrRequest,
  GetattrRespond, AccessRequest, OpenOpendirRequest, CommonRespond, ChmodRequest, ChownRequest,
  UtimensRequest, TruncateRequest,
}
use nmfs.LocalOps.Attributes.{set_time, type_of}
use nmfs.RpcServer.{with_table, child_of, target_of, log_changed}
use nmfs.World.{World, Outside, get_inode, set_inode}

abbrev pub common : Code → CommonRespond
common ret = record { ret = ret }

abbrev mode_respond : ℕ → Code → InodeRespond
mode_respond i_mode ret = record { i_mode = i_mode; ret = ret }

abbrev no_time : Timespec
no_time = record { tv_sec = 0; tv_nsec = 0 }

abbrev no_attributes : Code → GetattrRespond
no_attributes ret = record {
  i_mode = 0;
  i_uid = 0;
  i_gid = 0;
  i_ino_prefix = 0;
  i_ino_postfix = 0;
  i_nlink = 0;
  i_size = 0;
  atime = no_time;
  mtime = no_time;
  ctime = no_time;
  ret = ret;
}

-- What getattr reads of an inode, whose mode is asked for by get_mode().
abbrev attributes : ℕ → Inode → GetattrRespond
attributes mode i = record {
  i_mode = mode;
  i_uid = i.core.i_uid;
  i_gid = i.core.i_gid;
  i_ino_prefix = get_prefix_from_uuid i.core.i_ino;
  i_ino_postfix = get_postfix_from_uuid i.core.i_ino;
  i_nlink = i.core.i_nlink;
  i_size = i.core.i_size;
  atime = i.core.i_atime;
  mtime = i.core.i_mtime;
  ctime = i.core.i_ctime;
  ret = success;
}

module _ {S A : Type 0} where
  -- catch (inode::permission_denied), around a check
  abbrev caught_denied : Result A × S → Result Code × S
  caught_denied (ok _, s) = (ok success, s)
  caught_denied (err permission_denied, s) = (ok eacces, s)
  caught_denied (err e, s) = (err e, s)

  -- catch (inode::no_entry), around a look-up, and what follows it
  abbrev caught_entry : {B : Type 0} → B → Result A × S → (A → Exec S B) → Result B × S
  caught_entry refusal (ok a, s) f = f a s
  caught_entry refusal (err no_entry, s) f = (ok refusal, s)
  caught_entry refusal (err e, s) f = (err e, s)

module _ (io : IoCtx) (out : Outside) where
  open io use {State}

  unfoldable pub rpc_check_child_inode : DentryTableRequest → Exec (World State) DentryTableRespond
  rpc_check_child_inode request =
      with_table io out
        (splice_prefix_and_postfix request.dentry_table_ino_prefix request.dentry_table_ino_postfix)
        (record { checked_ino_prefix = 0; checked_ino_postfix = 0; ret = enotleader })
        (λ table. do
          check_target_ino ← check_child_inode io out table request.filename
          pure (record {
            checked_ino_prefix = get_prefix_from_uuid check_target_ino;
            checked_ino_postfix = get_postfix_from_uuid check_target_ino;
            ret = success;
          }))

  unfoldable pub rpc_get_mode : InodeRequest → Exec (World State) InodeRespond
  rpc_get_mode request =
      with_table io out
        (splice_prefix_and_postfix request.dentry_table_ino_prefix request.dentry_table_ino_postfix)
        (mode_respond 0 enotleader)
        (λ table. do
          i ← child_of io out table request.filename
          mode ← get_mode io out i
          pure (mode_respond mode success))

  unfoldable pub rpc_permission_check : InodeRequest → Exec (World State) InodeRespond
  rpc_permission_check request =
      with_table io out
        (splice_prefix_and_postfix request.dentry_table_ino_prefix request.dentry_table_ino_postfix)
        (mode_respond 0 enotleader)
        (λ table. do
          i ← target_of io out table request.target_is_parent request.filename
          ret ← (λ w. caught_denied (permission_check io out request.mask i w))
          pure (mode_respond 0 ret))

  unfoldable pub rpc_getattr : GetattrRequest → Exec (World State) GetattrRespond
  rpc_getattr request =
      with_table io out
        (splice_prefix_and_postfix request.dentry_table_ino_prefix request.dentry_table_ino_postfix)
        (no_attributes enotleader)
        (λ table w.
          caught_entry (no_attributes eacces)
            (target_of io out table request.target_is_parent request.filename w)
            (λ i. do mode ← get_mode io out i; inode ← get_inode i; pure (attributes mode inode)))

  unfoldable pub rpc_access : AccessRequest → Exec (World State) CommonRespond
  rpc_access request =
      with_table io out
        (splice_prefix_and_postfix request.dentry_table_ino_prefix request.dentry_table_ino_postfix)
        (common enotleader)
        (λ table. do
          i ← target_of io out table request.target_is_parent request.filename
          ret ← (λ w. caught_denied (permission_check io out request.mask i w))
          pure (common ret))

  unfoldable pub rpc_opendir : OpenOpendirRequest → Exec (World State) CommonRespond
  rpc_opendir request =
      with_table io out
        (splice_prefix_and_postfix request.dentry_table_ino_prefix request.dentry_table_ino_postfix)
        (common enotleader)
        (λ table. do
          i ← target_of io out table request.target_is_parent request.filename
          mode ← get_mode io out i
          pure (common (if s_isdir mode then success else enotdir)))

  unfoldable pub rpc_chmod : ChmodRequest → Exec (World State) CommonRespond
  rpc_chmod request =
      with_table io out
        (splice_prefix_and_postfix request.dentry_table_ino_prefix request.dentry_table_ino_postfix)
        (common enotleader)
        (λ table. do
          i ← target_of io out table request.target_is_parent request.filename
          mode ← get_mode io out i
          set_inode i (set_mode (bit_or request.mode (type_of mode)))
          log_changed io out i
          pure (common success))

  unfoldable pub rpc_chown : ChownRequest → Exec (World State) CommonRespond
  rpc_chown request =
      with_table io out
        (splice_prefix_and_postfix request.dentry_table_ino_prefix request.dentry_table_ino_postfix)
        (common enotleader)
        (λ table. do
          i ← target_of io out table request.target_is_parent request.filename
          (if ltb request.uid (2 ^ 31) then set_inode i (set_uid request.uid) else pure tt)
          (if ltb request.gid (2 ^ 31) then set_inode i (set_gid request.gid) else pure tt)
          log_changed io out i
          pure (common success))

  unfoldable pub rpc_utimens : UtimensRequest → Exec (World State) CommonRespond
  rpc_utimens request =
      with_table io out
        (splice_prefix_and_postfix request.dentry_table_ino_prefix request.dentry_table_ino_postfix)
        (common enotleader)
        (λ table. do
          i ← target_of io out table request.target_is_parent request.filename
          set_time out set_atime i request.atime
          set_time out set_mtime i request.mtime
          log_changed io out i
          pure (common success))

  -- The second S_ISDIR(i->get_mode()) asks again.
  unfoldable pub rpc_truncate : TruncateRequest → Exec (World State) CommonRespond
  rpc_truncate request =
      with_table io out
        (splice_prefix_and_postfix request.dentry_table_ino_prefix request.dentry_table_ino_postfix)
        (common enotleader)
        (λ table. do
          i ← target_of io out table request.target_is_parent request.filename
          mode ← get_mode io out i
          if s_isdir mode then pure (common eisdir) else (do
            set_inode i (set_size request.offset)
            log_changed io out i
            pure (common success)))
