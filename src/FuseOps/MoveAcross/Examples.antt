-- ===== src/FuseOps/MoveAcross/Examples.antt =====
-- The theorems on rename() of client/fs_ops/fuse_ops.cpp at a client that leads the root, and in it a
-- directory "a" without entries beside a file "f".
use nmfs.Prelude.{
  ℕ, zero, suc, Bytes, ◌==◌, ◌≡◌, refl, true, none, some, [], ◌∷◌, ◌++◌, replicate, arith,
}
use nmfs.Exec.{Gives, ok, success}
use nmfs.Map.{find, put}
use nmfs.Rados.Memory.{memory}
use nmfs.Uuid.{Uuid, get_root_ino, nil_uuid}
use nmfs.Inode.{Inode, MetaLocation, target_mode}
use nmfs.Inode as Inode
use nmfs.DentryTable.Inodes as Inodes
use nmfs.Inode.Setters.{set_loc}
use nmfs.Dentry.{get_child_ino}
use nmfs.DentryTable.{DentryTable}
use nmfs.Path.{get_parent_dir_path, get_filename_from_path, parent_loop, filename_loop}
use nmfs.Lease.Client.{is_valid}
use nmfs.Transaction.{new_transaction}
use nmfs.Transaction.Effect.{Names, overlay}
use nmfs.Journal.{new_journal, get_entry, make_entry, store}
use nmfs.Journal.Steps.{start}
use nmfs.Journal.OpenEntry.{open_tx}
use nmfs.DentryTable.Inodes.{
  get_this_dir_inode, check_child_inode, check_at, get_child_inode, child_at, get_mode,
}
use nmfs.DirectoryTable.{get_dentry_table}
use nmfs.DirectoryTable.PathTraversal.{path_traversal, path_loop, set_name_bound, step_into}
use nmfs.LocalOps.Rename.{is_paradox}
use nmfs.LocalOps.Ready.{IsReady}
use nmfs.LocalOps.NameChange.{HasName}
use nmfs.LocalOps.Examples.{dir_ino, out, world as one_file}
use nmfs.FuseOps.{table_of}
use nmfs.FuseOps.Rename.{rename}
use nmfs.FuseOps.MoveAcross.{rename-HasName, rename_into_itself}
use nmfs.World.{World}

abbrev a_ino : Uuid
a_ino = replicate 16 5

abbrev f_ino : Uuid
f_ino = replicate 16 6

abbrev inodes : ℕ → Inode
inodes zero = one_file.inodes 0
inodes (suc zero) = let i = one_file.inodes 0 in record i { core = record i.core { i_ino = a_ino } }
inodes (suc (suc n)) =
    let i = one_file.inodes 1 in record i { core = record i.core { i_ino = f_ino } }

abbrev root_table : DentryTable
root_table = record {
  dir_ino = dir_ino;
  this_dir_inode = some 0;
  dentries =
      some
        (record { this_ino = dir_ino; child_list = (b'a' ∷ [], a_ino) ∷ (b'f' ∷ [], f_ino) ∷ [] });
  child_inodes = (b'a' ∷ [], 1) ∷ (b'f' ∷ [], 2) ∷ [];
  loc = MetaLocation.local;
  leader_ip = [];
}

abbrev a_table : DentryTable
a_table = record {
  dir_ino = a_ino;
  this_dir_inode = some 1;
  dentries = some (record { this_ino = a_ino; child_list = [] });
  child_inodes = [];
  loc = MetaLocation.local;
  leader_ip = [];
}

abbrev tables : ℕ → DentryTable
tables zero = root_table
tables (suc n) = a_table

abbrev world : World memory.State
world = record one_file {
  inodes = inodes;
  tables = tables;
  dentry_tables = (dir_ino, 0) ∷ (a_ino, 1) ∷ [];
  leases =
      (dir_ino, record { due = 20; leader = true })
      ∷ (a_ino, record { due = 20; leader = true })
      ∷ [];
}

-- The world at each reading of the clock, and once "/a" has been followed.
abbrev at_clock : ℕ → World memory.State
at_clock n = record world { asked = n }

abbrev followed : World memory.State
followed = record world {
  asked = 4;
  inodes = store 1 (set_loc MetaLocation.local (inodes 1)) inodes;
}

abbrev root : Bytes
root = b'/' ∷ []

abbrev dir_path : Bytes
dir_path = b'/' ∷ b'a' ∷ []

to_root : path_traversal memory out root world ≡ (ok 0, at_clock 1)
unfolding path_traversal path_loop set_name_bound get_dentry_table find get_root_ino
    get_this_dir_inode is_valid ◌==◌
to_root = refl

root_found : table_of memory out 0 (at_clock 1) ≡ (ok root_table, at_clock 2)
unfolding table_of get_dentry_table find is_valid ◌==◌
root_found = refl

to_dir : path_traversal memory out dir_path (at_clock 2) ≡ (ok 1, followed)
unfolding path_traversal path_loop set_name_bound get_dentry_table find get_root_ino
    get_this_dir_inode is_valid ◌==◌ step_into check_child_inode check_at get_child_inode child_at
    get_child_ino nil_uuid get_mode Inodes.permission_check Inode.permission_check target_mode
to_dir = refl

abbrev root_base : Names
root_base n = find n ((b'a' ∷ [], a_ino) ∷ (b'f' ∷ [], f_ino) ∷ [])

abbrev a_base : Names
a_base n = find n []

root_IsReady : IsReady memory out root_base dir_ino 0 0 followed
unfolding find ◌==◌ is_valid open_tx get_entry make_entry new_journal new_transaction overlay put
root_IsReady = record {
  filed = refl;
  valid = refl;
  number = refl;
  low = omega arith;
  reached = start;
  fuel = 2;
  rounds = refl;
  mirror = record {
    is_local = refl;
    listing = record {
      this_ino = dir_ino;
      child_list = (b'a' ∷ [], a_ino) ∷ (b'f' ∷ [], f_ino) ∷ [];
    };
    listed = refl;
    keyed = λ n. ground arith;
    recorded = λ n. refl;
  };
}

a_IsReady : IsReady memory out a_base a_ino 1 1 followed
unfolding find ◌==◌ is_valid open_tx get_entry make_entry new_journal new_transaction overlay put
a_IsReady = record {
  filed = refl;
  valid = refl;
  number = refl;
  low = omega arith;
  reached = start;
  fuel = 2;
  rounds = refl;
  mirror = record {
    is_local = refl;
    listing = record { this_ino = a_ino; child_list = [] };
    listed = refl;
    keyed = λ n. refl;
    recorded = λ n. refl;
  };
}

-- "/f" becomes "/a/f".
rename-HasName_example :
    Gives (rename memory out (b'/' ∷ b'f' ∷ []) (dir_path ++ b'/' ∷ b'f' ∷ []) 0 world) (λ code w'.
      (code ≡ success)
      × HasName root_base dir_ino 0 (b'f' ∷ []) none followed w'
      × HasName a_base a_ino 1 (b'f' ∷ []) (some f_ino) followed w')
unfolding find ◌==◌ is_valid open_tx get_entry make_entry new_journal new_transaction put
    get_parent_dir_path get_filename_from_path parent_loop filename_loop
rename-HasName_example =
    rename-HasName root_IsReady a_IsReady refl refl refl refl refl refl (b'f' ∷ []) (b'f' ∷ []) 2
      refl refl refl refl root_table world (at_clock 1) (at_clock 2) root dir_path to_root
      root_found refl to_dir refl refl (b'/' ∷ b'f' ∷ []) (dir_path ++ b'/' ∷ b'f' ∷ []) refl refl
      refl refl refl refl

-- "/a" becomes "/a/b".
rename_into_itself_example :
    (is_paradox dir_path (dir_path ++ b'/' ∷ b'b' ∷ []) ≡ ok true)
    × Gives (rename memory out dir_path (dir_path ++ b'/' ∷ b'b' ∷ []) 0 world) (λ code w'.
      (code ≡ success)
      × HasName root_base dir_ino 0 (b'a' ∷ []) none followed w'
      × HasName a_base a_ino 1 (b'b' ∷ []) (some a_ino) followed w')
unfolding find ◌==◌ is_valid open_tx get_entry make_entry new_journal new_transaction put
    get_parent_dir_path get_filename_from_path parent_loop filename_loop
rename_into_itself_example =
    rename_into_itself root_IsReady a_IsReady refl refl refl refl refl refl (b'a' ∷ []) (b'b' ∷ [])
      1 refl refl refl refl root_table world (at_clock 1) (at_clock 2) root dir_path to_root
      root_found refl to_dir refl refl dir_path (dir_path ++ b'/' ∷ b'b' ∷ []) refl refl (b'b' ∷ [])
      refl refl refl refl refl refl
