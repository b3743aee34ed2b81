-- ===== src/RpcClient/Files.antt =====
-- The calls of client/rpc/rpc_client.cpp on open files: opendir, open, create and write.
use nmfs.Prelude.{ℕ, Bytes, Bool, Option, none, some, length, take, leb, if◌then◌else◌}
use nmfs.Exec.{
  Exec, Code, Length, bytes, failed, success, overrun, eneedrecov, pure, raise, ◌>>=◌, ◌>>◌,
}
use nmfs.Uuid.{Uuid, get_prefix_from_uuid, get_postfix_from_uuid, splice_prefix_and_postfix}
use nmfs.Inode.{MetaLocation}
use nmfs.Inode.Setters.{set_ino}
use nmfs.Rados.Store.{IoCtx}
use nmfs.Rados.{write}
use nmfs.Rados.Key as Key
use nmfs.FileHandler.{new_file_handler, set_fhno, set_loc, set_remote_i, add_file_handler}
use nmfs.DentryTable.Inodes.{blank}
use nmfs.RpcMessages.{CreateRespond, WriteRespond}
use nmfs.RpcClient.Attributes.{status_of}
use nmfs.World.{World, Outside, RemoteInode, ask, get_inode, set_inode, make_inode, at_data_pool}

module _ {State : Type 0} (out : Outside) where
  -- The file_handler of a remote inode, put into open_context under its address.
  unfoldable pub open_remote_handle : Uuid → ℕ → Exec (World State) ℕ
  open_remote_handle ino i = do
    fhno ← ask out.fresh_handle
    let fh = set_fhno fhno (set_remote_i i (set_loc MetaLocation.remote (new_file_handler ino)))
    (λ w.
        let (r, open_context) = add_file_handler fhno fh w.open_context in
        (r, record w { open_context = open_context }))
    pure fhno

module _ {State : Type 0} (out : Outside) (r : RemoteInode) (i : ℕ) where
  -- The result, and file_info->fh, which is `fh` before.
  opened_by : Code → ℕ → Exec (World State) (Code × ℕ)
  opened_by Code.success fh = do
    inode ← get_inode i
    fhno ← open_remote_handle out inode.core.i_ino i
    pure (success, fhno)
  opened_by ret fh = pure (ret, fh)

  unfoldable pub opendir : ℕ → Exec (World State) (Code × ℕ)
  unfolding opened_by
  opendir fh = do
    stub ← ask out.stub
    let output = stub.rpc_opendir r.leader_ip (record {
      dentry_table_ino_prefix = get_prefix_from_uuid r.dentry_table_ino;
      dentry_table_ino_postfix = get_postfix_from_uuid r.dentry_table_ino;
      filename = r.file_name;
      flags = 0;
      target_is_parent = r.target_is_parent;
    })
    opened_by (status_of output) fh

  unfoldable pub open_remote : ℕ → ℕ → Exec (World State) (Code × ℕ)
  unfolding opened_by
  open_remote flags fh = do
    stub ← ask out.stub
    let output = stub.rpc_open r.leader_ip (record {
      dentry_table_ino_prefix = get_prefix_from_uuid r.dentry_table_ino;
      dentry_table_ino_postfix = get_postfix_from_uuid r.dentry_table_ino;
      filename = r.file_name;
      flags = flags;
      target_is_parent = Bool.false;
    })
    opened_by (status_of output) fh

module _ {State : Type 0} (out : Outside) (r : RemoteInode) where
  -- A remote inode for the new file, with the channel's address as it is now.
  created : Option CreateRespond → Bytes → ℕ → Exec (World State) (Code × ℕ)
  created none new_child_name fh = pure (eneedrecov, fh)
  created (some output) new_child_name fh = elim output.ret [
    | Code.success ↦ do
      let new_ino = splice_prefix_and_postfix output.new_ino_prefix output.new_ino_postfix
      open_remote_i ← make_inode blank (
          some (record {
            leader_ip = r.leader_ip;
            dentry_table_ino = r.dentry_table_ino;
            file_name = new_child_name;
            target_is_parent = Bool.false;
          }))
      set_inode open_remote_i (set_ino new_ino)
      fhno ← open_remote_handle out new_ino open_remote_i
      pure (success, fhno)
    | _ ↦ pure (output.ret, fh)
  ]

  unfoldable pub create : Bytes → ℕ → ℕ → Exec (World State) (Code × ℕ)
  unfolding created
  create new_child_name mode fh = do
    stub ← ask out.stub
    let output = stub.rpc_create r.leader_ip (record {
      dentry_table_ino_prefix = get_prefix_from_uuid r.dentry_table_ino;
      dentry_table_ino_postfix = get_postfix_from_uuid r.dentry_table_ino;
      new_file_name = new_child_name;
      new_mode = mode;
    })
    created output new_child_name fh

module _ (io : IoCtx) (out : Outside) (r : RemoteInode) (i : ℕ) where
  open io use {State}

  -- The bytes go to the pool from here, at the offset that the leader says.
  granted : Option WriteRespond → Bytes → Exec (World State) Length
  granted none buffer = pure (failed eneedrecov)
  granted (some output) buffer = elim output.ret [
    | Code.success ↦
        (if leb output.size (length buffer)
          then (do
            inode ← get_inode i
            written_len ← at_data_pool (
                write io Key.file_data (out.to_string inode.core.i_ino) (take output.size buffer)
                  output.offset)
            pure (bytes written_len))
          else raise overrun)
    | _ ↦ pure (failed output.ret)
  ]

  unfoldable pub write_remote : Bytes → ℕ → ℕ → Exec (World State) Length
  unfolding granted
  write_remote buffer offset flags = do
    stub ← ask out.stub
    let output = stub.rpc_write r.leader_ip (record {
      dentry_table_ino_prefix = get_prefix_from_uuid r.dentry_table_ino;
      dentry_table_ino_postfix = get_postfix_from_uuid r.dentry_table_ino;
      filename = r.file_name;
      size = length buffer;
      offset = offset;
      flags = flags;
    })
    granted output buffer
