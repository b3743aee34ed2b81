-- ===== src/RpcClient.antt =====
-- client/rpc/rpc_client.cpp: the calls of a client on the one that leads a directory. The three here
-- are those that the tables of directories make; the children have the operations of the file
-- system. An answer is `none` where the status of the call is not ok.
pub mod Attributes
pub mod Entries
pub mod Files
use nmfs.Prelude.{ℕ, Bytes, Bool, Option, none, some}
use nmfs.Exec.{Result, ok, err, runtime_error, permission_denied, Code}
use nmfs.RpcMessages.{DentryTableRespond, InodeRespond}
use nmfs.RpcMessages.Calls.{Stub}
use nmfs.Uuid.{Uuid, get_prefix_from_uuid, get_postfix_from_uuid, splice_prefix_and_postfix}

checked : Option DentryTableRespond → Result Uuid
checked none = err runtime_error
checked (some output) = elim output.ret [
  | Code.enotleader ↦ err runtime_error
  | _ ↦ ok (splice_prefix_and_postfix output.checked_ino_prefix output.checked_ino_postfix)
]

unfoldable pub check_child_inode : Stub → Bytes → Uuid → Bytes → Result Uuid
unfolding checked
check_child_inode stub address dentry_table_ino filename = checked (
    stub.rpc_check_child_inode address (record {
      dentry_table_ino_prefix = get_prefix_from_uuid dentry_table_ino;
      dentry_table_ino_postfix = get_postfix_from_uuid dentry_table_ino;
      filename = filename;
    }))

mode_of : Option InodeRespond → Result ℕ
mode_of none = err runtime_error
mode_of (some output) = elim output.ret [
  | Code.enotleader ↦ err runtime_error
  | _ ↦ ok output.i_mode
]

-- get_mode(dentry_table_ino, filename). The fields of the request that are not set are zero.
unfoldable pub get_mode : Stub → Bytes → Uuid → Bytes → Result ℕ
unfolding mode_of
get_mode stub address dentry_table_ino filename = mode_of (
    stub.rpc_get_mode address (record {
      dentry_table_ino_prefix = get_prefix_from_uuid dentry_table_ino;
      dentry_table_ino_postfix = get_postfix_from_uuid dentry_table_ino;
      filename = filename;
      mask = 0;
      target_is_parent = Bool.false;
    }))

permitted : Option InodeRespond → Result (Unit {0})
permitted none = err runtime_error
permitted (some output) = elim output.ret [
  | Code.enotleader ↦ err runtime_error
  | Code.eacces ↦ err permission_denied
  | _ ↦ ok tt
]

unfoldable pub permission_check : Stub → Bytes → Uuid → Bytes → ℕ → Bool → Result (Unit {0})
unfolding permitted
permission_check stub address dentry_table_ino filename mask target_is_parent = permitted (
    stub.rpc_permission_check address (record {
      dentry_table_ino_prefix = get_prefix_from_uuid dentry_table_ino;
      dentry_table_ino_postfix = get_postfix_from_uuid dentry_table_ino;
      filename = filename;
      mask = mask;
      target_is_parent = target_is_parent;
    }))
