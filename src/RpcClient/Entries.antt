-- ===== src/RpcClient/Entries.antt =====
-- The calls of client/rpc/rpc_client.cpp on the entries of a directory.
use Prim.Native.Nat.{bit_or}
use nmfs.Prelude.{
  ℕ, Bytes, Option, none, some, List, [], ◌∷◌, ◌++◌, length, take, min, if◌then◌else◌,
}
use nmfs.Exec.{Exec, Code, success, enotleader, eneedrecov, runtime_error, pure, raise, ◌>>=◌, ◌>>◌}
use nmfs.Uuid.{Uuid, get_prefix_from_uuid, get_postfix_from_uuid, splice_prefix_and_postfix}
use nmfs.Codec.{c_string}
use nmfs.Inode.{MetaLocation, new_inode}
use nmfs.Inode.Setters.{set_size}
use nmfs.Inode.Message.{inode_to_rename_dst_request, rename_src_response_to_inode}
use nmfs.Dentry.{Dentry, new_dentry}
use nmfs.DentryTable.Inodes.{blank}
use nmfs.LocalOps.{log_mkself}
use nmfs.LocalOps.Attributes.{room}
use nmfs.LocalOps.Directories.{s_ifdir, dir_inode_size}
use nmfs.RpcMessages.{NameRespond, MkdirRespond, RenameNotSameParentSrcRespond}
use nmfs.RpcClient.Attributes.{status_of}
use nmfs.World.{World, Outside, RemoteInode, ask, get_inode, set_inode, make_inode}

-- The loop over the messages of readdir(): the names that the filler gets, and the number in the
-- last message that is read, which is 0 if there is none.
unfoldable pub read_names : List NameRespond → List Bytes × Code
read_names [] = ([], success)
read_names (output ∷ more) =
    let rest = read_names more in
    elim output.ret [
      | Code.success ↦ (c_string output.filename ∷ rest.0, rest.1)
      | _ ↦ ([], output.ret)
    ]

module _ {State : Type 0} (out : Outside) (r : RemoteInode) where
  unfoldable pub readdir : Exec (World State) (Code × List Bytes)
  unfolding read_names
  readdir = do
    stub ← ask out.stub
    let output = stub.rpc_readdir r.leader_ip (record {
      dentry_table_ino_prefix = get_prefix_from_uuid r.dentry_table_ino;
      dentry_table_ino_postfix = get_postfix_from_uuid r.dentry_table_ino;
    })
    let names = read_names output.0
    pure (if output.1 then names.1 else eneedrecov, names.0)

  unfoldable pub rmdir_top : Uuid → Exec (World State) Code
  rmdir_top target_ino = do
    stub ← ask out.stub
    let output = stub.rpc_rmdir_top r.leader_ip (record {
      dentry_table_ino_prefix = get_prefix_from_uuid target_ino;
      dentry_table_ino_postfix = get_postfix_from_uuid target_ino;
      target_name = [];
      target_ino_prefix = get_prefix_from_uuid target_ino;
      target_ino_postfix = get_postfix_from_uuid target_ino;
    })
    pure (status_of output)

  unfoldable pub rmdir_down : Uuid → Bytes → Exec (World State) Code
  rmdir_down target_ino target_name = do
    stub ← ask out.stub
    let output = stub.rpc_rmdir_down r.leader_ip (record {
      dentry_table_ino_prefix = get_prefix_from_uuid r.dentry_table_ino;
      dentry_table_ino_postfix = get_postfix_from_uuid r.dentry_table_ino;
      target_name = target_name;
      target_ino_prefix = get_prefix_from_uuid target_ino;
      target_ino_postfix = get_postfix_from_uuid target_ino;
    })
    pure (status_of output)

  unfoldable pub symlink : Bytes → Bytes → Exec (World State) Code
  symlink src dst = do
    stub ← ask out.stub
    let output = stub.rpc_symlink r.leader_ip (record {
      dentry_table_ino_prefix = get_prefix_from_uuid r.dentry_table_ino;
      dentry_table_ino_postfix = get_postfix_from_uuid r.dentry_table_ino;
      filename = r.file_name;
      src = src;
      dst = dst;
    })
    pure (status_of output)

  -- What is written to the buffer of `size` bytes.
  filled_link : Option NameRespond → ℕ → Exec (World State) (Code × Bytes)
  filled_link none size = pure (eneedrecov, [])
  filled_link (some output) size = elim output.ret [
    | Code.success ↦
        pure (success, take (min (length output.filename) (room size)) output.filename ++ 0 ∷ [])
    | _ ↦ pure (output.ret, [])
  ]

  unfoldable pub readlink : ℕ → Exec (World State) (Code × Bytes)
  unfolding filled_link
  readlink size = do
    stub ← ask out.stub
    let output = stub.rpc_readlink r.leader_ip (record {
      dentry_table_ino_prefix = get_prefix_from_uuid r.dentry_table_ino;
      dentry_table_ino_postfix = get_postfix_from_uuid r.dentry_table_ino;
      filename = r.file_name;
      size = size;
    })
    filled_link output size

  unfoldable pub rename_same_parent : Bytes → Bytes → ℕ → Exec (World State) Code
  rename_same_parent old_path new_path flags = do
    stub ← ask out.stub
    let output = stub.rpc_rename_same_parent r.leader_ip (record {
      dentry_table_ino_prefix = get_prefix_from_uuid r.dentry_table_ino;
      dentry_table_ino_postfix = get_postfix_from_uuid r.dentry_table_ino;
      old_path = old_path;
      new_path = new_path;
      flags = flags;
    })
    pure (status_of output)

  -- The result, and target_inode, with `none` for a null pointer.
  moved_here :
      Option RenameNotSameParentSrcRespond → Option ℕ → Exec (World State) (Code × Option ℕ)
  moved_here none target_inode = pure (eneedrecov, none)
  moved_here (some output) target_inode = elim output.ret [
    | Code.enotleader ↦ pure (enotleader, none)
    | Code.enosys ↦ raise runtime_error
    | Code.success ↦ do
      i ←
          make_inode
            (rename_src_response_to_inode output.target
              (record blank { loc = some MetaLocation.nobody }))
            none
      pure (success, some i)
    | _ ↦ pure (output.ret, target_inode)
  ]

  unfoldable pub rename_not_same_parent_src :
      Bytes → ℕ → Option ℕ → Exec (World State) (Code × Option ℕ)
  unfolding moved_here
  rename_not_same_parent_src old_path flags target_inode = do
    stub ← ask out.stub
    let output = stub.rpc_rename_not_same_parent_src r.leader_ip (record {
      dentry_table_ino_prefix = get_prefix_from_uuid r.dentry_table_ino;
      dentry_table_ino_postfix = get_postfix_from_uuid r.dentry_table_ino;
      old_path = old_path;
      flags = flags;
    })
    moved_here output target_inode

  unfoldable pub rename_not_same_parent_dst : ℕ → Uuid → Bytes → ℕ → Exec (World State) Code
  rename_not_same_parent_dst target_inode check_dst_ino new_path flags = do
    target ← get_inode target_inode
    stub ← ask out.stub
    let output = stub.rpc_rename_not_same_parent_dst r.leader_ip (record {
      dentry_table_ino_prefix = get_prefix_from_uuid r.dentry_table_ino;
      dentry_table_ino_postfix = get_postfix_from_uuid r.dentry_table_ino;
      target = inode_to_rename_dst_request target;
      check_dst_ino_prefix = get_prefix_from_uuid check_dst_ino;
      check_dst_ino_postfix = get_postfix_from_uuid check_dst_ino;
      new_path = new_path;
      flags = flags;
    })
    pure (status_of output)

  unfoldable pub unlink : Bytes → Exec (World State) Code
  unlink child_name = do
    stub ← ask out.stub
    let output = stub.rpc_unlink r.leader_ip (record {
      dentry_table_ino_prefix = get_prefix_from_uuid r.dentry_table_ino;
      dentry_table_ino_postfix = get_postfix_from_uuid r.dentry_table_ino;
      filename = child_name;
    })
    pure (status_of output)

module _ {State : Type 0} (out : Outside) (r : RemoteInode) (parent_i : ℕ) where
  -- std::make_shared<inode>(parent_i->get_ino(), client_uid, client_gid, mode | S_IFDIR, ino)
  new_directory : ℕ → Uuid → Exec (World State) ℕ
  new_directory mode ino = do
    parent ← get_inode parent_i
    ts ← ask out.time
    i ← (λ w.
        pure (new_inode parent.core.i_ino w.client_uid w.client_gid (bit_or mode s_ifdir) ino ts) w)
    make_inode i none

  -- The result, new_dir_inode and new_dir_dentry, with `none` for what they were before.
  made_directory : Option MkdirRespond → ℕ → Exec (World State) (Code × Option (ℕ × Dentry))
  unfolding new_directory
  made_directory none mode = pure (eneedrecov, none)
  made_directory (some output) mode = elim output.ret [
    | Code.success ↦ do
      let ino = splice_prefix_and_postfix output.new_dir_ino_prefix output.new_dir_ino_postfix
      new_i ← new_directory mode ino
      set_inode new_i (set_size dir_inode_size)
      log_mkself out new_i
      pure (success, some (new_i, new_dentry ino))
    | _ ↦ pure (output.ret, none)
  ]

  unfoldable pub mkdir : Bytes → ℕ → Exec (World State) (Code × Option (ℕ × Dentry))
  unfolding made_directory
  mkdir new_child_name mode = do
    (uid, gid) ← (λ w. pure (w.client_uid, w.client_gid) w)
    stub ← ask out.stub
    let output = stub.rpc_mkdir r.leader_ip (record {
      dentry_table_ino_prefix = get_prefix_from_uuid r.dentry_table_ino;
      dentry_table_ino_postfix = get_postfix_from_uuid r.dentry_table_ino;
      new_dir_name = new_child_name;
      new_mode = mode;
      uid = uid;
      gid = gid;
    })
    made_directory output mode
