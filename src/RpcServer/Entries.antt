-- ===== src/RpcServer/Entries.antt =====
-- The calls of client/rpc/rpc_server.cpp on the entries of a directory.
use Prim.Native.Nat.{bit_or}
use nmfs.Prelude.{ℕ, Bytes, List, [], ◌∷◌, map, length, none, some, ltb, ◌==◌, if◌then◌else◌}
use nmfs.Prelude.Tests.{◌==◌ as nat_eq}
use nmfs.Exec.{
  Exec, Code, success, enotempty, eexist, einval, enosys, enotleader, pure, ◌>>=◌, ◌>>◌,
}
use nmfs.Uuid.{
  Uuid, nil_uuid, get_prefix_from_uuid, get_postfix_from_uuid, splice_prefix_and_postfix,
}
use nmfs.Codec.{c_string}
use nmfs.Inode.{MetaLocation, new_inode, s_islnk}
use nmfs.Inode.Setters.{set_size, set_p_ino}
use nmfs.Inode.Message.{TargetFields, inode_to_rename_src_response, rename_dst_request_to_inode}
use nmfs.Path.{get_filename_from_path}
use nmfs.Rados.Store.{IoCtx}
use nmfs.DentryTable.{create_child_inode, delete_child_inode, child_num}
use nmfs.DentryTable.Inodes.{blank, check_child_inode, get_mode}
use nmfs.DirectoryTable.{delete_dentry_table}
use nmfs.RpcMessages.{
  ReaddirRequest, NameRespond, MkdirRequest, MkdirRespond, RmdirRequest, CommonRespond,
  SymlinkRequest, ReadlinkRequest, RenameSameParentRequest, RenameNotSameParentSrcRequest,
  RenameNotSameParentSrcRespond, RenameNotSameParentDstRequest, CreateRequest, CreateRespond,
  UnlinkRequest,
}
use nmfs.LocalOps.{touch, create_inode, log_mkdir, log_rmself, log_rmdir, log_mkreg, log_rmreg}
use nmfs.LocalOps.Directories.{s_ifdir, dir_inode_size, create_symlink}
use nmfs.LocalOps.Files.{s_ifreg, drop_link}
use nmfs.LocalOps.Rename.{replace_child, move_child}
use nmfs.RpcServer.{with_table, child_of, this_dir_of}
use nmfs.RpcServer.Inodes.{common}
use nmfs.World.{World, Outside, ask, yield, get_table, get_inode, set_inode, make_inode, at_table}

abbrev name_respond : Bytes → Code → NameRespond
name_respond filename ret = record { filename = filename; ret = ret }

abbrev pub no_target : TargetFields
no_target = record {
  target_i_mode = 0;
  target_i_uid = 0;
  target_i_gid = 0;
  target_i_ino_prefix = 0;
  target_i_ino_postfix = 0;
  target_i_nlink = 0;
  target_i_size = 0;
  target_a = record { tv_sec = 0; tv_nsec = 0 };
  target_m = record { tv_sec = 0; tv_nsec = 0 };
  target_c = record { tv_sec = 0; tv_nsec = 0 };
  target_i_link_target_len = 0;
  target_i_link_target_name = [];
}

module _ (io : IoCtx) (out : Outside) where
  open io use {State}

  -- What is written to the caller. The refusal is set in a response that is not written.
  unfoldable pub rpc_readdir : ReaddirRequest → Exec (World State) (List NameRespond)
  rpc_readdir request =
      with_table io out
        (splice_prefix_and_postfix request.dentry_table_ino_prefix request.dentry_table_ino_postfix)
        []
        (λ table. do
          t ← get_table table
          pure (
              name_respond (b'.' ∷ []) success
              ∷ name_respond (b'.' ∷ b'.' ∷ []) success
              ∷ map (λ (child : Bytes × ℕ). name_respond child.0 success) t.child_inodes))

  -- std::make_shared<inode>(dentry_table_ino, uid, gid, new_mode | S_IFDIR)
  create_directory : Uuid → ℕ → ℕ → ℕ → Exec (World State) ℕ
  create_directory parent_ino uid gid mode = do
    ts ← ask out.time
    ino ← ask out.fresh_ino
    make_inode (new_inode parent_ino uid gid (bit_or mode s_ifdir) ino ts) none

  unfoldable pub rpc_mkdir : MkdirRequest → Exec (World State) MkdirRespond
  unfolding create_directory
  rpc_mkdir request =
      let ino =
        splice_prefix_and_postfix request.dentry_table_ino_prefix
          request.dentry_table_ino_postfix in
      with_table io out ino
        (record { new_dir_ino_prefix = 0; new_dir_ino_postfix = 0; ret = enotleader })
        (λ table. do
          parent_i ← this_dir_of io out table
          i ← create_directory ino request.uid request.gid request.new_mode
          new ← get_inode i
          _ ← at_table table (create_child_inode request.new_dir_name i new.core.i_ino)
          set_inode i (set_size dir_inode_size)
          touch out parent_i
          log_mkdir out parent_i request.new_dir_name new.core.i_ino
          pure (record {
            new_dir_ino_prefix = get_prefix_from_uuid new.core.i_ino;
            new_dir_ino_postfix = get_postfix_from_uuid new.core.i_ino;
            ret = success;
          }))

  unfoldable pub rpc_rmdir_top : RmdirRequest → Exec (World State) CommonRespond
  rpc_rmdir_top request =
      with_table io out
        (splice_prefix_and_postfix request.dentry_table_ino_prefix request.dentry_table_ino_postfix)
        (common enotleader)
        (λ table. do
          let target_ino =
              splice_prefix_and_postfix request.target_ino_prefix request.target_ino_postfix
          n ← at_table table child_num
          if ltb 0 n then pure (common enotempty) else (do
            log_rmself out target_ino
            _ ← delete_dentry_table target_ino
            pure (common success)))

  unfoldable pub rpc_rmdir_down : RmdirRequest → Exec (World State) CommonRespond
  rpc_rmdir_down request =
      with_table io out
        (splice_prefix_and_postfix request.dentry_table_ino_prefix request.dentry_table_ino_postfix)
        (common enotleader)
        (λ table. do
          let target_ino =
              splice_prefix_and_postfix request.target_ino_prefix request.target_ino_postfix
          parent_i ← this_dir_of io out table
          _ ← at_table table (delete_child_inode request.target_name)
          touch out parent_i
          log_rmdir out parent_i request.target_name target_ino
          _ ← delete_dentry_table target_ino
          pure (common success))

  -- The time that is read is not used. The target is taken as a C string, and its size from the whole.
  unfoldable pub rpc_symlink : SymlinkRequest → Exec (World State) CommonRespond
  rpc_symlink request =
      let ino =
        splice_prefix_and_postfix request.dentry_table_ino_prefix
          request.dentry_table_ino_postfix in
      with_table io out ino (common enotleader) (λ table. do
        symlink_name ← yield (get_filename_from_path request.dst)
        found ← check_child_inode io out table symlink_name
        if found == nil_uuid
            then (do
              dst_parent_i ← this_dir_of io out table
              symlink_i ← create_symlink io out ino (c_string request.src)
              set_inode symlink_i (set_size (length request.src))
              link ← get_inode symlink_i
              _ ← at_table table (create_child_inode symlink_name symlink_i link.core.i_ino)
              _ ← ask out.time
              log_mkreg out dst_parent_i symlink_name symlink_i
              pure (common success))
            else pure (common eexist))

  unfoldable pub rpc_readlink : ReadlinkRequest → Exec (World State) NameRespond
  rpc_readlink request =
      with_table io out
        (splice_prefix_and_postfix request.dentry_table_ino_prefix request.dentry_table_ino_postfix)
        (name_respond [] enotleader)
        (λ table. do
          i ← child_of io out table request.filename
          mode ← get_mode io out i
          inode ← get_inode i
          pure (
              if s_islnk mode
              then name_respond (c_string inode.link_target_name) success
              else name_respond [] einval))

  unfoldable pub rpc_rename_same_parent : RenameSameParentRequest → Exec (World State) CommonRespond
  rpc_rename_same_parent request = do
    old_name ← yield (get_filename_from_path request.old_path)
    new_name ← yield (get_filename_from_path request.new_path)
    with_table io out
        (splice_prefix_and_postfix request.dentry_table_ino_prefix request.dentry_table_ino_postfix)
        (common enotleader)
        (λ table. do
          target_i ← child_of io out table old_name
          parent_i ← this_dir_of io out table
          check_dst_ino ← check_child_inode io out table new_name
          if nat_eq request.flags 0
              then (do
                replace_child io out parent_i table new_name check_dst_ino
                move_child io out parent_i table old_name new_name target_i
                pure (common success))
              else pure (common enosys))

  unfoldable pub rpc_rename_not_same_parent_src :
      RenameNotSameParentSrcRequest → Exec (World State) RenameNotSameParentSrcRespond
  rpc_rename_not_same_parent_src request = do
    old_name ← yield (get_filename_from_path request.old_path)
    with_table io out
        (splice_prefix_and_postfix request.dentry_table_ino_prefix request.dentry_table_ino_postfix)
        (record { target = no_target; ret = enotleader })
        (λ table. do
          target_i ← child_of io out table old_name
          src_parent_i ← this_dir_of io out table
          if nat_eq request.flags 0
              then (do
                _ ← at_table table (delete_child_inode old_name)
                log_rmreg out src_parent_i old_name target_i
                target ← get_inode target_i
                pure (record { target = inode_to_rename_src_response target; ret = success }))
              else pure (record { target = no_target; ret = enosys }))

  -- `blank` is inode(LOCAL) with its location.
  unfoldable pub rpc_rename_not_same_parent_dst :
      RenameNotSameParentDstRequest → Exec (World State) CommonRespond
  rpc_rename_not_same_parent_dst request = do
    new_name ← yield (get_filename_from_path request.new_path)
    let ino =
        splice_prefix_and_postfix request.dentry_table_ino_prefix request.dentry_table_ino_postfix
    let check_dst_ino =
        splice_prefix_and_postfix request.check_dst_ino_prefix request.check_dst_ino_postfix
    with_table io out ino (common enotleader) (λ table. do
      let target =
          rename_dst_request_to_inode request.target
            (record blank { loc = some MetaLocation.local })
      target_i ← make_inode (set_p_ino ino target) none
      dst_parent_i ← this_dir_of io out table
      if nat_eq request.flags 0
          then (do
            replace_child io out dst_parent_i table new_name check_dst_ino
            target ← get_inode target_i
            _ ← at_table table (create_child_inode new_name target_i target.core.i_ino)
            log_mkreg out dst_parent_i new_name target_i
            pure (common success))
          else pure (common enosys))

  -- The new file is the leader's user's: the request names none.
  unfoldable pub rpc_create : CreateRequest → Exec (World State) CreateRespond
  rpc_create request =
      let ino =
        splice_prefix_and_postfix request.dentry_table_ino_prefix
          request.dentry_table_ino_postfix in
      with_table io out ino (record { new_ino_prefix = 0; new_ino_postfix = 0; ret = enotleader })
        (λ table. do
          parent_i ← this_dir_of io out table
          i ← create_inode out ino (bit_or request.new_mode s_ifreg)
          new ← get_inode i
          _ ← at_table table (create_child_inode request.new_file_name i new.core.i_ino)
          touch out parent_i
          log_mkreg out parent_i request.new_file_name i
          pure (record {
            new_ino_prefix = get_prefix_from_uuid new.core.i_ino;
            new_ino_postfix = get_postfix_from_uuid new.core.i_ino;
            ret = success;
          }))

  unfoldable pub rpc_unlink : UnlinkRequest → Exec (World State) CommonRespond
  rpc_unlink request =
      with_table io out
        (splice_prefix_and_postfix request.dentry_table_ino_prefix request.dentry_table_ino_postfix)
        (common enotleader)
        (λ table. do
          parent_i ← this_dir_of io out table
          target_i ← child_of io out table request.filename
          drop_link io out parent_i table request.filename target_i
          pure (common success))
