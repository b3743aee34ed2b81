-- ===== src/RpcServer.antt =====
-- client/rpc/rpc_server.cpp: what a client answers the others for the directories that it leads. The
-- children have the calls on inodes, on the entries of a directory, and on what a file holds; here is
-- what they share. An exception that a call does not catch is gRPC's, and the call's result here.
-- Log lines are left out.
pub mod Inodes
pub mod Entries
pub mod Files
pub mod Refused
pub mod AsLocal
mod Examples
use nmfs.Prelude.{ℕ, Bytes, Bool, true, if◌then◌else◌}
use nmfs.Exec.{Exec, Result, ok, err, not_leader, undefined, pure, raise, ◌>>=◌}
use nmfs.Uuid.{Uuid, nil_uuid}
use nmfs.Inode.{s_isdir}
use nmfs.Rados.Store.{IoCtx}
use nmfs.DentryTable.Inodes.{deref, get_child_inode, get_this_dir_inode, get_mode}
use nmfs.DirectoryTable.{get_dentry_table}
use nmfs.LocalOps.{log_chself, log_chreg}
use nmfs.World.{World, Outside}

module _ (io : IoCtx) (out : Outside) where
  open io use {State}

  -- catch (dentry_table::not_leader), with the response that refuses the call
  unfoldable pub served :
      {A : Type 0}
      → A
      → Result ℕ × World State
      → (ℕ → Exec (World State) A)
      → Result A × World State
  served refusal (ok a, w) f = f a w
  served refusal (err not_leader, w) f = (ok refusal, w)
  served refusal (err e, w) f = (err e, w)

  -- get_dentry_table(dentry_table_ino, true) and what follows it
  unfoldable pub with_table :
      {A : Type 0} → Uuid → A → (ℕ → Exec (World State) A) → Exec (World State) A
  unfolding served
  with_table dentry_table_ino refusal f w =
      served refusal (get_dentry_table io out dentry_table_ino true w) f

  -- get_child_inode(filename), which is followed
  unfoldable pub child_of : ℕ → Bytes → Exec (World State) ℕ
  child_of table filename = do child ← get_child_inode io out table filename nil_uuid; deref child

  unfoldable pub this_dir_of : ℕ → Exec (World State) ℕ
  this_dir_of table = do this_dir ← get_this_dir_inode io out table; deref this_dir

  -- The directory itself, or a child of it.
  unfoldable pub target_of : ℕ → Bool → Bytes → Exec (World State) ℕ
  unfolding child_of this_dir_of
  target_of table target_is_parent filename =
      if target_is_parent then this_dir_of table else child_of table filename

  -- if (S_ISDIR(i->get_mode())) chself(i) else chreg(i->get_p_ino(), i)
  unfoldable pub log_changed : ℕ → Exec (World State) Unit
  log_changed i = do
    mode ← get_mode io out i
    if s_isdir mode then log_chself out i else log_chreg out i
