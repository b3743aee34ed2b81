-- ===== src/RpcMessages/Calls.antt =====
-- The calls of the service in client/proto/rpc.proto, as the stub has them that gRPC generates.
use nmfs.Prelude.{Bytes, Bool, false, Option, none, List, []}
use nmfs.RpcMessages.{
  AccessRequest, ChmodRequest, ChownRequest, CommonRespond, CreateRequest, CreateRespond,
  DentryTableRequest, DentryTableRespond, GetattrRequest, GetattrRespond, InodeRequest,
  InodeRespond, MkdirRequest, MkdirRespond, NameRespond, OpenOpendirRequest, ReaddirRequest,
  ReadlinkRequest, RenameNotSameParentDstRequest, RenameNotSameParentSrcRequest,
  RenameNotSameParentSrcRespond, RenameSameParentRequest, RmdirRequest, SymlinkRequest,
  TruncateRequest, UnlinkRequest, UtimensRequest, WriteRequest, WriteRespond,
}

-- The generated stub of a client, each call with the address of its channel: the answer, or `none` where
-- the status is not ok. rpc_readdir() gives what it reads, and whether the status is ok at the end.
pub record Stub : Type 0 where
  pub rpc_check_child_inode : Bytes → DentryTableRequest → Option DentryTableRespond
  pub rpc_get_mode : Bytes → InodeRequest → Option InodeRespond
  pub rpc_permission_check : Bytes → InodeRequest → Option InodeRespond
  pub rpc_getattr : Bytes → GetattrRequest → Option GetattrRespond
  pub rpc_access : Bytes → AccessRequest → Option CommonRespond
  pub rpc_opendir : Bytes → OpenOpendirRequest → Option CommonRespond
  pub rpc_readdir : Bytes → ReaddirRequest → List NameRespond × Bool
  pub rpc_mkdir : Bytes → MkdirRequest → Option MkdirRespond
  pub rpc_rmdir_top : Bytes → RmdirRequest → Option CommonRespond
  pub rpc_rmdir_down : Bytes → RmdirRequest → Option CommonRespond
  pub rpc_symlink : Bytes → SymlinkRequest → Option CommonRespond
  pub rpc_readlink : Bytes → ReadlinkRequest → Option NameRespond
  pub rpc_rename_same_parent : Bytes → RenameSameParentRequest → Option CommonRespond
  pub rpc_rename_not_same_parent_src :
      Bytes → RenameNotSameParentSrcRequest → Option RenameNotSameParentSrcRespond
  pub rpc_rename_not_same_parent_dst : Bytes → RenameNotSameParentDstRequest → Option CommonRespond
  pub rpc_open : Bytes → OpenOpendirRequest → Option CommonRespond
  pub rpc_create : Bytes → CreateRequest → Option CreateRespond
  pub rpc_unlink : Bytes → UnlinkRequest → Option CommonRespond
  pub rpc_write : Bytes → WriteRequest → Option WriteRespond
  pub rpc_chmod : Bytes → ChmodRequest → Option CommonRespond
  pub rpc_chown : Bytes → ChownRequest → Option CommonRespond
  pub rpc_utimens : Bytes → UtimensRequest → Option CommonRespond
  pub rpc_truncate : Bytes → TruncateRequest → Option CommonRespond

-- No other client answers.
abbrev pub silent_stub : Stub
silent_stub = record {
  rpc_check_child_inode = λ channel request. none;
  rpc_get_mode = λ channel request. none;
  rpc_permission_check = λ channel request. none;
  rpc_getattr = λ channel request. none;
  rpc_access = λ channel request. none;
  rpc_opendir = λ channel request. none;
  rpc_readdir = λ channel request. ([], false);
  rpc_mkdir = λ channel request. none;
  rpc_rmdir_top = λ channel request. none;
  rpc_rmdir_down = λ channel request. none;
  rpc_symlink = λ channel request. none;
  rpc_readlink = λ channel request. none;
  rpc_rename_same_parent = λ channel request. none;
  rpc_rename_not_same_parent_src = λ channel request. none;
  rpc_rename_not_same_parent_dst = λ channel request. none;
  rpc_open = λ channel request. none;
  rpc_create = λ channel request. none;
  rpc_unlink = λ channel request. none;
  rpc_write = λ channel request. none;
  rpc_chmod = λ channel request. none;
  rpc_chown = λ channel request. none;
  rpc_utimens = λ channel request. none;
  rpc_truncate = λ channel request. none;
}
