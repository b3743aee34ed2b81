-- ===== src/RpcMessages.antt =====
-- client/proto/rpc.proto: the messages between a client and the one that leads a directory. A field
-- that is not set is zero or empty. The two numbers of a time are one field here, and the fields
-- that describe the target of a move are those of nmfs.Inode.Message.
pub mod Calls
use nmfs.Prelude.{ℕ, Bytes, Bool}
use nmfs.Exec.{Code}
use nmfs.Inode.{Timespec}
use nmfs.Inode.Message.{TargetFields}

-- rpc_dentry_table_request
pub record DentryTableRequest : Type 0 where
  pub dentry_table_ino_prefix : ℕ
  pub dentry_table_ino_postfix : ℕ
  pub filename : Bytes

-- rpc_dentry_table_respond
pub record DentryTableRespond : Type 0 where
  pub checked_ino_prefix : ℕ
  pub checked_ino_postfix : ℕ
  pub ret : Code

-- rpc_inode_request
pub record InodeRequest : Type 0 where
  pub dentry_table_ino_prefix : ℕ
  pub dentry_table_ino_postfix : ℕ
  pub filename : Bytes
  pub mask : ℕ
  pub target_is_parent : Bool

-- rpc_inode_respond
pub record InodeRespond : Type 0 where
  pub i_mode : ℕ
  pub ret : Code

-- rpc_getattr_request
pub record GetattrRequest : Type 0 where
  pub dentry_table_ino_prefix : ℕ
  pub dentry_table_ino_postfix : ℕ
  pub filename : Bytes
  pub target_is_parent : Bool

-- rpc_access_request
pub record AccessRequest : Type 0 where
  pub dentry_table_ino_prefix : ℕ
  pub dentry_table_ino_postfix : ℕ
  pub filename : Bytes
  pub mask : ℕ
  pub target_is_parent : Bool

-- rpc_readdir_request
pub record ReaddirRequest : Type 0 where
  pub dentry_table_ino_prefix : ℕ
  pub dentry_table_ino_postfix : ℕ

-- rpc_mkdir_request
pub record MkdirRequest : Type 0 where
  pub dentry_table_ino_prefix : ℕ
  pub dentry_table_ino_postfix : ℕ
  pub new_dir_name : Bytes
  pub new_mode : ℕ
  pub uid : ℕ
  pub gid : ℕ

-- rpc_rmdir_request
pub record RmdirRequest : Type 0 where
  pub dentry_table_ino_prefix : ℕ
  pub dentry_table_ino_postfix : ℕ
  pub target_name : Bytes
  pub target_ino_prefix : ℕ
  pub target_ino_postfix : ℕ

-- rpc_symlink_request
pub record SymlinkRequest : Type 0 where
  pub dentry_table_ino_prefix : ℕ
  pub dentry_table_ino_postfix : ℕ
  pub filename : Bytes
  pub src : Bytes
  pub dst : Bytes

-- rpc_readlink_request
pub record ReadlinkRequest : Type 0 where
  pub dentry_table_ino_prefix : ℕ
  pub dentry_table_ino_postfix : ℕ
  pub filename : Bytes
  pub size : ℕ

-- rpc_rename_same_parent_request
pub record RenameSameParentRequest : Type 0 where
  pub dentry_table_ino_prefix : ℕ
  pub dentry_table_ino_postfix : ℕ
  pub old_path : Bytes
  pub new_path : Bytes
  pub flags : ℕ

-- rpc_rename_not_same_parent_src_request
pub record RenameNotSameParentSrcRequest : Type 0 where
  pub dentry_table_ino_prefix : ℕ
  pub dentry_table_ino_postfix : ℕ
  pub old_path : Bytes
  pub flags : ℕ

-- rpc_rename_not_same_parent_dst_request
pub record RenameNotSameParentDstRequest : Type 0 where
  pub dentry_table_ino_prefix : ℕ
  pub dentry_table_ino_postfix : ℕ
  pub target : TargetFields
  pub check_dst_ino_prefix : ℕ
  pub check_dst_ino_postfix : ℕ
  pub new_path : Bytes
  pub flags : ℕ

-- rpc_create_request
pub record CreateRequest : Type 0 where
  pub dentry_table_ino_prefix : ℕ
  pub dentry_table_ino_postfix : ℕ
  pub new_file_name : Bytes
  pub new_mode : ℕ

-- rpc_unlink_request
pub record UnlinkRequest : Type 0 where
  pub dentry_table_ino_prefix : ℕ
  pub dentry_table_ino_postfix : ℕ
  pub filename : Bytes

-- rpc_write_request
pub record WriteRequest : Type 0 where
  pub dentry_table_ino_prefix : ℕ
  pub dentry_table_ino_postfix : ℕ
  pub filename : Bytes
  pub size : ℕ
  pub offset : ℕ
  pub flags : ℕ

-- rpc_open_opendir_request
pub record OpenOpendirRequest : Type 0 where
  pub dentry_table_ino_prefix : ℕ
  pub dentry_table_ino_postfix : ℕ
  pub filename : Bytes
  pub flags : ℕ
  pub target_is_parent : Bool

-- rpc_chmod_request
pub record ChmodRequest : Type 0 where
  pub dentry_table_ino_prefix : ℕ
  pub dentry_table_ino_postfix : ℕ
  pub filename : Bytes
  pub mode : ℕ
  pub target_is_parent : Bool

-- rpc_chown_request
pub record ChownRequest : Type 0 where
  pub dentry_table_ino_prefix : ℕ
  pub dentry_table_ino_postfix : ℕ
  pub filename : Bytes
  pub uid : ℕ
  pub gid : ℕ
  pub target_is_parent : Bool

-- rpc_utimens_request
pub record UtimensRequest : Type 0 where
  pub dentry_table_ino_prefix : ℕ
  pub dentry_table_ino_postfix : ℕ
  pub filename : Bytes
  pub atime : Timespec
  pub mtime : Timespec
  pub target_is_parent : Bool

-- rpc_truncate_request
pub record TruncateRequest : Type 0 where
  pub dentry_table_ino_prefix : ℕ
  pub dentry_table_ino_postfix : ℕ
  pub filename : Bytes
  pub offset : ℕ
  pub target_is_parent : Bool

-- rpc_common_respond
pub record CommonRespond : Type 0 where
  pub ret : Code

-- rpc_getattr_respond
pub record GetattrRespond : Type 0 where
  pub i_mode : ℕ
  pub i_uid : ℕ
  pub i_gid : ℕ
  pub i_ino_prefix : ℕ
  pub i_ino_postfix : ℕ
  pub i_nlink : ℕ
  pub i_size : ℕ
  pub atime : Timespec
  pub mtime : Timespec
  pub ctime : Timespec
  pub ret : Code

-- rpc_name_respond
pub record NameRespond : Type 0 where
  pub filename : Bytes
  pub ret : Code

-- rpc_create_respond
pub record CreateRespond : Type 0 where
  pub new_ino_prefix : ℕ
  pub new_ino_postfix : ℕ
  pub ret : Code

-- rpc_mkdir_respond
pub record MkdirRespond : Type 0 where
  pub new_dir_ino_prefix : ℕ
  pub new_dir_ino_postfix : ℕ
  pub ret : Code

-- rpc_rename_not_same_parent_src_respond
pub record RenameNotSameParentSrcRespond : Type 0 where
  pub target : TargetFields
  pub ret : Code

-- rpc_write_respond
pub record WriteRespond : Type 0 where
  pub size : ℕ
  pub offset : ℕ
  pub ret : Code
