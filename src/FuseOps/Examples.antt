-- ===== src/FuseOps/Examples.antt =====
-- The theorems on client/fs_ops/fuse_ops.cpp at a client that leads the root.
use nmfs.Prelude.{ℕ, ◌==◌, ◌≡◌, refl, true, some, ◌∷◌}
use nmfs.Exec.{Gives, ok, success}
use nmfs.Map.{find, put}
use nmfs.Rados.Memory.{memory}
use nmfs.Uuid.{get_root_ino}
use nmfs.Path.{get_parent_dir_path, get_filename_from_path, parent_loop, filename_loop}
use nmfs.Lease.Client.{is_valid}
use nmfs.Transaction.{new_transaction}
use nmfs.Journal.{new_journal, get_entry, make_entry}
use nmfs.Journal.OpenEntry.{open_tx}
use nmfs.DentryTable.Inodes.{get_this_dir_inode}
use nmfs.DirectoryTable.{get_dentry_table}
use nmfs.DirectoryTable.PathTraversal.{path_traversal, path_loop, set_name_bound}
use nmfs.LocalOps.Ready.{opened}
use nmfs.LocalOps.NameChange.{HasName}
use nmfs.LocalOps.Examples.{base, dir_ino, new_name, new_name_free, out, world, world-IsReady}
use nmfs.FuseOps.{parent_of_path}
use nmfs.FuseOps.Files.{create}
use nmfs.FuseOps.Local.{create-HasName, later-IsReady}
use nmfs.World.{World}

-- The world once the path of the parent has been followed.
abbrev followed : World memory.State
followed = record world { asked = 1 }

followed_parent : parent_of_path memory out (b'/' ∷ new_name) world ≡ (ok 0, followed)
unfolding parent_of_path get_parent_dir_path parent_loop path_traversal path_loop set_name_bound
    get_dentry_table find get_root_ino get_this_dir_inode is_valid ◌==◌
followed_parent = refl

lease_at_1 : is_valid dir_ino (out.now 1) world.leases ≡ true
unfolding is_valid find ◌==◌
lease_at_1 = refl

lease_at_2 : is_valid dir_ino (out.now 2) followed.leases ≡ true
unfolding is_valid find ◌==◌
lease_at_2 = refl

create_named : get_filename_from_path (b'/' ∷ new_name) ≡ ok new_name
unfolding get_filename_from_path filename_loop
create_named = refl

create-HasName_example : Gives (create memory out (b'/' ∷ new_name) 33188 0 world) (λ got w'.
    (got.0 ≡ success)
    × ((n : ℕ) × (i : ℕ) × HasName base dir_ino 2 new_name (some (out.fresh_ino n)) followed w'
        × (opened got.1 w' ≡ some i)
        × ((w'.inodes i).core.i_ino ≡ out.fresh_ino n)))
unfolding open_tx get_entry make_entry new_journal new_transaction find put
create-HasName_example =
    create-HasName (later-IsReady world-IsReady lease_at_1) lease_at_2 (b'/' ∷ new_name) new_name
      33188 0 world create_named followed_parent refl new_name_free (λ n. refl) (λ n. refl)
