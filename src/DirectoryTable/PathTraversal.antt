-- ===== src/DirectoryTable/PathTraversal.antt =====
-- directory_table::path_traversal(), its parsing of the path, the constructor and
-- find_remote_dentry_table_again() of client/in_memory/directory_table.cpp.
pub mod Names
mod Examples
use nmfs.Prelude.{
  ℕ, zero, suc, ◌+◌, ◌-◌, Bytes, Bool, true, false, Option, none, some, length, take, drop, leb,
  ◌==◌, if◌then◌else◌,
}
use nmfs.Exec.{Exec, runtime_error, no_entry, fuel_exhausted, pure, raise, ok, ◌>>=◌, ◌>>◌}
use nmfs.Uuid.{Uuid, nil_uuid, get_root_ino}
use nmfs.Inode.{s_isdir}
use nmfs.Path.{is_delimiter}
use nmfs.Rados.Store.{IoCtx}
use nmfs.DentryTable.Inodes.{
  deref, check_child_inode, get_child_inode, get_this_dir_inode, get_mode, permission_check,
}
use nmfs.DirectoryTable.{get_dentry_table}
use nmfs.Journal.{store}
use nmfs.World.{World, Outside, RemoteInode, get_table}

-- The loop of set_name_bound(): the first delimiter from position `i` on, or the end of the path,
-- with `n` positions left to look at.
unfoldable pub bound_loop : Bytes → ℕ → ℕ → ℕ
bound_loop path i zero = i
bound_loop path i (suc n) =
    let later = bound_loop path (i + 1) n in if is_delimiter path i then i else later

-- set_name_bound(start_name, end_name, path, path_len): `start_name` and the new `end_name + 1`, or
-- `none` for -1. `stop` is the old `end_name + 1`, zero at first.
unfoldable pub set_name_bound : Bytes → ℕ → Option (ℕ × ℕ)
unfolding bound_loop
set_name_bound path stop =
    if leb (length path) (stop + 1)
    then none
    else some (stop + 1, bound_loop path (stop + 1) (length path - (stop + 1)))

-- path.substr(start_name, end_name - start_name + 1)
abbrev pub substr : Bytes → ℕ → ℕ → Bytes
substr path start stop = take (stop - start) (drop start path)

-- X_OK
abbrev x_ok_mask : ℕ
x_ok_mask = 1

module _ (io : IoCtx) (out : Outside) where
  open io use {State}

  -- if (S_ISDIR(target_inode->get_mode())): the table and the inode of the next round
  enter : Uuid → ℕ → ℕ → ℕ → Exec (World State) (ℕ × ℕ)
  enter ino parent target mode =
      if s_isdir mode
      then (do
        table ← get_dentry_table io out ino false
        this_dir ← get_this_dir_inode io out table
        target ← deref this_dir
        permission_check io out x_ok_mask target
        pure (table, target))
      else pure (parent, target)

  or_failed : Option ℕ → Exec (World State) ℕ
  or_failed none = raise runtime_error
  or_failed (some target) = pure target

  -- A round of the loop of path_traversal(), with the name that it looks up.
  unfoldable pub step_into : Bytes → ℕ → Exec (World State) (ℕ × ℕ)
  unfolding enter or_failed
  step_into name parent = do
    ino ← check_child_inode io out parent name
    if ino == nil_uuid then raise no_entry else (do
      child ← get_child_inode io out parent name ino
      target ← or_failed child
      mode ← get_mode io out target
      enter ino parent target mode)

  -- The loop of path_traversal(), from the directory of the table at `parent`.
  unfoldable pub path_loop : ℕ → Bytes → ℕ → ℕ → ℕ → Exec (World State) ℕ
  path_loop zero path stop parent target = raise fuel_exhausted
  path_loop (suc fuel) path stop parent target = elim (set_name_bound path stop) [
    | none ↦ pure target
    | some (start, stop') ↦ do
      next ← step_into (substr path start stop') parent
      path_loop fuel path stop' next.0 next.1
  ]

  -- path_traversal(path). Each round goes on by a byte at least.
  unfoldable pub path_traversal : Bytes → Exec (World State) ℕ
  unfolding path_loop
  path_traversal path = do
    parent ← get_dentry_table io out get_root_ino false
    this_dir ← get_this_dir_inode io out parent
    target ← deref this_dir
    path_loop (length path + 1) path 0 parent target

  -- directory_table(), which looks up the root
  unfoldable pub new_directory_table : Exec (World State) Unit
  new_directory_table = do _ ← get_dentry_table io out get_root_ino false; pure tt

  -- remote_i->set_leader_ip(leader_ip)
  abbrev set_remote_leader : ℕ → RemoteInode → Bytes → Exec (World State) Unit
  set_remote_leader i remote_i ip w =
      (ok tt, record w { remotes = store i (some (record remote_i { leader_ip = ip })) w.remotes })

  -- find_remote_dentry_table_again(remote_i), of the remote_inode at `i`
  unfoldable pub find_remote_dentry_table_again : ℕ → Exec (World State) Unit
  find_remote_dentry_table_again i = do
    remote_i ← (λ w. deref (w.remotes i) w)
    a ← get_dentry_table io out remote_i.dentry_table_ino false
    t ← get_table a
    set_remote_leader i remote_i t.leader_ip
