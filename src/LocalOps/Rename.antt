-- ===== src/LocalOps/Rename.antt =====
-- rename in client/fs_ops/local_ops.cpp: within a directory, and the two halves of a move from one
-- directory to another.
use nmfs.Prelude.{
  ℕ, Bytes, Bool, true, false, Option, none, some, [], ◌∷◌, ◌&&◌, ◌==◌, length, get_elem?,
  if◌then◌else◌,
}
use nmfs.Prelude.Tests.{◌==◌ as nat_eq}
use nmfs.Exec.{
  Exec, Result, ok, err, runtime_error, out_of_range, Code, success, einval, enosys, pure, raise,
  ◌>>=◌, ◌>>◌,
}
use nmfs.Uuid.{Uuid, nil_uuid}
use nmfs.Inode.{MetaLocation}
use nmfs.Inode.Setters.{set_loc, set_p_ino}
use nmfs.Path.{get_filename_from_path}
use nmfs.Rados.Store.{IoCtx}
use nmfs.DentryTable.{create_child_inode, delete_child_inode}
use nmfs.DentryTable.Inodes.{deref, get_child_inode, check_child_inode}
use nmfs.DirectoryTable.{get_dentry_table}
use nmfs.LocalOps.{touch, log_mkreg, log_rmreg}
use nmfs.World.{World, Outside, yield, get_inode, set_inode, at_table}

-- std::string(new_path).find(old_path) == 0
unfoldable pub starts_with : Bytes → Bytes → Bool
starts_with new_path [] = true
starts_with [] (c ∷ old_path) = false
starts_with (d ∷ new_path) (c ∷ old_path) = nat_eq d c && starts_with new_path old_path

-- at(), which throws past the end
unfoldable pub char_at : Option ℕ → Result Bool
char_at none = err out_of_range
char_at (some c) = ok (nat_eq c b'/')

-- The test for a move of a directory into itself.
unfoldable pub is_paradox : Bytes → Bytes → Result Bool
unfolding char_at
is_paradox old_path new_path =
    if starts_with new_path old_path
    then char_at (get_elem? new_path (length old_path))
    else ok false

module _ (io : IoCtx) (out : Outside) where
  open io use {State}

  -- The child that a rename replaces is taken out of the directory.
  unfoldable pub replace_child : ℕ → ℕ → Bytes → Uuid → Exec (World State) Unit
  replace_child parent_i table new_name check_dst_ino =
      if check_dst_ino == nil_uuid then pure tt else (do
        child ← get_child_inode io out table new_name nil_uuid
        _ ← at_table table (delete_child_inode new_name)
        check_dst_inode ← deref child
        log_rmreg out parent_i new_name check_dst_inode)

  -- The entry goes from the old name to the new one.
  unfoldable pub move_child : ℕ → ℕ → Bytes → Bytes → ℕ → Exec (World State) Unit
  move_child parent_i table old_name new_name target_i = do
    _ ← at_table table (delete_child_inode old_name)
    log_rmreg out parent_i old_name target_i
    target ← get_inode target_i
    _ ← at_table table (create_child_inode new_name target_i target.core.i_ino)
    log_mkreg out parent_i new_name target_i

  unfoldable pub rename_names : ℕ → Bytes → Bytes → ℕ → Exec (World State) Code
  unfolding replace_child move_child
  rename_names parent_i old_name new_name flags = do
    parent ← get_inode parent_i
    table ← get_dentry_table io out parent.core.i_ino false
    child ← get_child_inode io out table old_name nil_uuid
    target_i ← deref child
    check_dst_ino ← check_child_inode io out table new_name
    touch out parent_i
    if nat_eq flags 0
        then (do
          replace_child parent_i table new_name check_dst_ino
          move_child parent_i table old_name new_name target_i
          pure success)
        else pure enosys

  unfoldable pub local_rename_same_parent : ℕ → Bytes → Bytes → ℕ → Exec (World State) Code
  unfolding rename_names
  local_rename_same_parent parent_i old_path new_path flags = do
    paradox ← yield (is_paradox old_path new_path)
    if paradox then pure einval else (do
      old_name ← yield (get_filename_from_path old_path)
      new_name ← yield (get_filename_from_path new_path)
      rename_names parent_i old_name new_name flags)

  -- The inode that is taken out of the old directory.
  unfoldable pub local_rename_not_same_parent_src : ℕ → Bytes → ℕ → Exec (World State) ℕ
  local_rename_not_same_parent_src src_parent_i old_path flags = do
    old_name ← yield (get_filename_from_path old_path)
    parent ← get_inode src_parent_i
    table ← get_dentry_table io out parent.core.i_ino false
    child ← get_child_inode io out table old_name nil_uuid
    target_i ← deref child
    if nat_eq flags 0
        then (do
          _ ← at_table table (delete_child_inode old_name)
          log_rmreg out src_parent_i old_name target_i
          pure target_i)
        else raise runtime_error

  -- The inode is put into the new directory, in place of the child `check_dst_ino` if there is one.
  unfoldable pub local_rename_not_same_parent_dst :
      ℕ → ℕ → Uuid → Bytes → ℕ → Exec (World State) Code
  unfolding replace_child
  local_rename_not_same_parent_dst dst_parent_i target_i check_dst_ino new_path flags = do
    new_name ← yield (get_filename_from_path new_path)
    parent ← get_inode dst_parent_i
    table ← get_dentry_table io out parent.core.i_ino false
    set_inode target_i (set_loc MetaLocation.local)
    set_inode target_i (set_p_ino parent.core.i_ino)
    if nat_eq flags 0
        then (do
          replace_child dst_parent_i table new_name check_dst_ino
          target ← get_inode target_i
          _ ← at_table table (create_child_inode new_name target_i target.core.i_ino)
          log_mkreg out dst_parent_i new_name target_i
          pure success)
        else raise runtime_error
