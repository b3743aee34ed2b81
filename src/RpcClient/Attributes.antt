-- ===== src/RpcClient/Attributes.antt =====
-- The calls of client/rpc/rpc_client.cpp on the attributes of an inode. `r` is what the remote_inode
-- at `i` has beside its inode, and its address is that of the channel.
use nmfs.Prelude.{ℕ, Bool, Option, none, some}
use nmfs.Exec.{
  Exec, Code, no_entry, permission_denied, enotleader, success, eneedrecov, pure, raise, ◌>>=◌,
  ◌>>◌,
}
use nmfs.Uuid.{get_prefix_from_uuid, get_postfix_from_uuid}
use nmfs.Inode.{Stat, Timespec}
use nmfs.Rados.Store.{IoCtx}
use nmfs.Rados.{truncate}
use nmfs.Rados.Key as Key
use nmfs.RpcMessages.{CommonRespond, GetattrRespond}
use nmfs.World.{World, Outside, RemoteInode, ask, get_inode, at_data_pool}

-- What getattr() writes. The last two lines both write st_ctim.tv_sec.
abbrev filled : GetattrRespond → Stat → Stat
filled output s = record {
  st_mode = output.i_mode;
  st_uid = output.i_uid;
  st_gid = output.i_gid;
  st_ino = output.i_ino_postfix;
  st_nlink = output.i_nlink;
  st_size = output.i_size;
  st_atim = output.atime;
  st_mtim = output.mtime;
  st_ctim = record { tv_sec = output.ctime.tv_nsec; tv_nsec = s.st_ctim.tv_nsec };
}

-- The result of a call that has no more to do than to hand on the answer's number.
abbrev pub status_of : Option CommonRespond → Code
status_of none = eneedrecov
status_of (some output) = output.ret

module _ {State : Type 0} where
  got_attributes : Option GetattrRespond → Stat → Exec (World State) (Code × Stat)
  got_attributes none s = pure (eneedrecov, s)
  got_attributes (some output) s = elim output.ret [
    | Code.enotleader ↦ pure (enotleader, s)
    | Code.eacces ↦ raise no_entry
    | _ ↦ pure (output.ret, filled output s)
  ]

  got_access : Option CommonRespond → Exec (World State) Code
  got_access none = pure eneedrecov
  got_access (some output) = elim output.ret [
    | Code.eacces ↦ raise permission_denied
    | _ ↦ pure output.ret
  ]

module _ {State : Type 0} (out : Outside) (r : RemoteInode) where
  unfoldable pub getattr : Stat → Exec (World State) (Code × Stat)
  unfolding got_attributes
  getattr s = do
    stub ← ask out.stub
    let output = stub.rpc_getattr r.leader_ip (record {
      dentry_table_ino_prefix = get_prefix_from_uuid r.dentry_table_ino;
      dentry_table_ino_postfix = get_postfix_from_uuid r.dentry_table_ino;
      filename = r.file_name;
      target_is_parent = r.target_is_parent;
    })
    got_attributes output s

  unfoldable pub access : ℕ → Exec (World State) Code
  unfolding got_access
  access mask = do
    stub ← ask out.stub
    let output = stub.rpc_access r.leader_ip (record {
      dentry_table_ino_prefix = get_prefix_from_uuid r.dentry_table_ino;
      dentry_table_ino_postfix = get_postfix_from_uuid r.dentry_table_ino;
      filename = r.file_name;
      mask = mask;
      target_is_parent = r.target_is_parent;
    })
    got_access output

  -- Whether the target is the directory itself is not set in the request.
  unfoldable pub chmod : ℕ → Exec (World State) Code
  chmod mode = do
    stub ← ask out.stub
    let output = stub.rpc_chmod r.leader_ip (record {
      dentry_table_ino_prefix = get_prefix_from_uuid r.dentry_table_ino;
      dentry_table_ino_postfix = get_postfix_from_uuid r.dentry_table_ino;
      filename = r.file_name;
      mode = mode;
      target_is_parent = Bool.false;
    })
    pure (status_of output)

  unfoldable pub chown : ℕ → ℕ → Exec (World State) Code
  chown uid gid = do
    stub ← ask out.stub
    let output = stub.rpc_chown r.leader_ip (record {
      dentry_table_ino_prefix = get_prefix_from_uuid r.dentry_table_ino;
      dentry_table_ino_postfix = get_postfix_from_uuid r.dentry_table_ino;
      filename = r.file_name;
      uid = uid;
      gid = gid;
      target_is_parent = r.target_is_parent;
    })
    pure (status_of output)

  unfoldable pub utimens : Timespec → Timespec → Exec (World State) Code
  utimens atime mtime = do
    stub ← ask out.stub
    let output = stub.rpc_utimens r.leader_ip (record {
      dentry_table_ino_prefix = get_prefix_from_uuid r.dentry_table_ino;
      dentry_table_ino_postfix = get_postfix_from_uuid r.dentry_table_ino;
      filename = r.file_name;
      atime = atime;
      mtime = mtime;
      target_is_parent = r.target_is_parent;
    })
    pure (status_of output)

module _ (io : IoCtx) (out : Outside) (r : RemoteInode) (i : ℕ) where
  open io use {State}

  -- The leader has changed the size; the objects are cut here.
  cut_objects : Code → ℕ → Exec (World State) Code
  cut_objects Code.success offset = do
    inode ← get_inode i
    at_data_pool (truncate io out.fuel Key.file_data (out.to_string inode.core.i_ino) offset)
    pure success
  cut_objects ret offset = pure ret

  unfoldable pub truncate_remote : ℕ → Exec (World State) Code
  unfolding cut_objects
  truncate_remote offset = do
    stub ← ask out.stub
    let output = stub.rpc_truncate r.leader_ip (record {
      dentry_table_ino_prefix = get_prefix_from_uuid r.dentry_table_ino;
      dentry_table_ino_postfix = get_postfix_from_uuid r.dentry_table_ino;
      filename = r.file_name;
      offset = offset;
      target_is_parent = r.target_is_parent;
    })
    cut_objects (status_of output) offset
