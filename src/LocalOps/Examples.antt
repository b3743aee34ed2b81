-- ===== src/LocalOps/Examples.antt =====
-- The theorems on client/fs_ops/local_ops.cpp at a client that leads the root, which has one file.
use nmfs.Prelude.{
  ap, ◌∙◌, ◌<◌, ◌≤◌, ◌^◌, ◌/◌, ◌%◌, if◌then◌else◌, ◌==◌, zero, suc, ℕ, Bytes, ◌≡◌, refl, true,
  false, none, some, [], ◌∷◌, ◌++◌, replicate, arith,
}
use nmfs.Exec.{Gives, ok, err, success, einval, out_of_range}
use nmfs.Map.{find, put, erase}
use nmfs.Uuid.{Uuid}
use nmfs.Rados.Memory.{memory, memory_store}
use nmfs.Inode.{Inode, MetaLocation, new_inode, new_symlink}
use nmfs.DentryTable.{DentryTable}
use nmfs.Transaction.{new_transaction}
use nmfs.Transaction.Effect.{Names, overlay}
use nmfs.Lease.Client.{is_valid}
use nmfs.Journal.{new_journal, get_entry, make_entry}
use nmfs.Journal.Steps.{start}
use nmfs.Journal.OpenEntry.{open_tx}
use nmfs.Rados.Key as Key
use nmfs.Rados.Key.{obj_key}
use nmfs.Rados.{remove, exist}
use nmfs.Rados.Remove.{HasObjects, IsRemoved, remove-IsRemoved}
use nmfs.Map.{Map, find-put_self}
use nmfs.Rados.Hole.{IsCapped}
use nmfs.Map.{find-empty}
use nmfs.Dentry.{new_dentry}
use nmfs.Journal.OpenEntry.{logged}
use nmfs.Transaction.Calls.{changes_reg}
use nmfs.LocalOps.Attributes.{local_chmod, local_readlink}
use nmfs.LocalOps.Files.{local_create, local_unlink, local_write, local_read}
use nmfs.LocalOps.Directories.{local_mkdir, local_rmdir_down}
use nmfs.LocalOps.Rename.{local_rename_same_parent}
use nmfs.LocalOps.Mirror.{Mirrors, names_in}
use nmfs.LocalOps.Ready.{IsReady, opened}
use nmfs.LocalOps.NameChange.{HasName}
use nmfs.LocalOps.Create.{local_create-HasName, local_mkdir-HasName}
use nmfs.LocalOps.Remove.{local_unlink-HasName, local_rmdir_down-HasName}
use nmfs.LocalOps.RenameNames.{local_rename_same_parent-Moved, rename_refused}
use nmfs.LocalOps.WriteRead.{local_write-local_read}
use nmfs.LocalOps.Modes.{local_chmod-type, readlink_bounds, change_logged}
use nmfs.RpcMessages.Calls.{silent_stub}
use nmfs.World.{World, Outside}

abbrev pub dir_ino : Uuid
dir_ino = replicate 15 0 ++ 1 ∷ []

abbrev pub file_ino : Uuid
file_ino = replicate 16 2

abbrev fresh_ino : Uuid
fresh_ino = replicate 16 3

abbrev pub old_name : Bytes
old_name = b'a' ∷ []

abbrev pub new_name : Bytes
new_name = b'b' ∷ []

abbrev pub out : Outside
out = record {
  now = λ n. n;
  time = λ n. record { tv_sec = n; tv_nsec = 0 };
  fresh_ino = λ n. fresh_ino;
  fresh_handle = λ n. n;
  grant = λ n request. none;
  stub = λ n. silent_stub;
  to_string = λ ino. ino;
  self_remote = [];
  fuel = 3;
}

-- A directory and a file of it, both of user 3 in group 4.
abbrev an_inode : Uuid → ℕ → Inode
an_inode ino mode = record {
  p_ino = some dir_ino;
  core = record {
    i_mode = mode;
    i_uid = 3;
    i_gid = 4;
    i_ino = ino;
    i_nlink = 1;
    i_size = 0;
    i_atime = record { tv_sec = 5; tv_nsec = 6 };
    i_mtime = record { tv_sec = 5; tv_nsec = 6 };
    i_ctime = record { tv_sec = 5; tv_nsec = 6 };
    link_target_len = 0;
  };
  loc = some MetaLocation.local;
  link_target_name = [];
}

abbrev inodes : ℕ → Inode
inodes zero = an_inode dir_ino 16877
inodes (suc n) = an_inode file_ino 33188

abbrev pub table : DentryTable
table = record {
  dir_ino = dir_ino;
  this_dir_inode = some 0;
  dentries = some (record { this_ino = dir_ino; child_list = (old_name, file_ino) ∷ [] });
  child_inodes = (old_name, 1) ∷ [];
  loc = MetaLocation.local;
  leader_ip = [];
}

abbrev file_object : Map Bytes
file_object = put (obj_key Key.file_data file_ino 0) (7 ∷ []) []

abbrev pub world : World memory.State
world = record {
  next = 10;
  inodes = inodes;
  remotes = λ i. none;
  tables = λ a. table;
  dentry_tables = (dir_ino, 2) ∷ [];
  leases = (dir_ino, record { due = 20; leader = true }) ∷ [];
  journal = new_journal;
  open_context = λ fh. none;
  client_uid = 3;
  client_gid = 4;
  meta_pool = [];
  data_pool = file_object;
  asked = 0;
}

abbrev pub base : Names
base n = find n ((old_name, file_ino) ∷ [])

pub world-IsReady : IsReady memory out base dir_ino 2 0 world
unfolding find ◌==◌ is_valid open_tx get_entry make_entry new_journal new_transaction overlay put
world-IsReady = record {
  filed = refl;
  valid = refl;
  number = refl;
  low = omega arith;
  reached = start;
  fuel = 2;
  rounds = refl;
  mirror = record {
    is_local = refl;
    listing = record { this_ino = dir_ino; child_list = (old_name, file_ino) ∷ [] };
    listed = refl;
    keyed = λ n. ground arith;
    recorded = λ n. refl;
  };
}

pub new_name_free : names_in table new_name ≡ none
unfolding find ◌==◌
new_name_free = refl

old_name_there : names_in table old_name ≡ some file_ino
unfolding find ◌==◌
old_name_there = refl

local_create-HasName_example : Gives (local_create memory out 0 new_name 33188 world) (λ fh w'.
    (n : ℕ) × (i : ℕ) × HasName base dir_ino 2 new_name (some (out.fresh_ino n)) world w'
    × (opened fh w' ≡ some i)
    × ((w'.inodes i).core.i_ino ≡ out.fresh_ino n))
unfolding open_tx get_entry make_entry new_journal new_transaction find put
local_create-HasName_example =
    local_create-HasName world-IsReady new_name new_name_free 33188 (λ n. refl) (λ n. refl)

local_mkdir-HasName_example : Gives (local_mkdir memory out 0 new_name 16877 world) (λ made w'.
    (n : ℕ) × HasName base dir_ino 2 new_name (some (out.fresh_ino n)) world w'
    × (made.1 ≡ new_dentry (out.fresh_ino n))
    × ((w'.inodes made.0).core.i_ino ≡ out.fresh_ino n))
unfolding ◌==◌
local_mkdir-HasName_example =
    local_mkdir-HasName world-IsReady new_name new_name_free 16877 (λ n. refl)

old_name_child : find old_name table.child_inodes ≡ some 1
unfolding find ◌==◌
old_name_child = refl

file_object-HasObjects : HasObjects memory_store Key.file_data file_ino file_object 0 1
unfolding put find obj_key ◌==◌ erase
file_object-HasObjects = record {
  there = λ k low high. (
    7 ∷ [],
    ap (λ k. find (obj_key Key.file_data file_ino k) file_object) (let e : k ≡ 0 = omega arith in e)
        ∙ find-put_self (obj_key Key.file_data file_ino 0) (7 ∷ []) [],
  );
  at_end = refl;
}

abbrev file_removed :
    (s' : Map Bytes) × (remove memory 3 Key.file_data file_ino file_object ≡ (ok tt, s'))
    × IsRemoved memory_store Key.file_data file_ino file_object s' 0 1
    × (exist memory Key.file_data file_ino s' ≡ (ok false, s'))
file_removed =
    remove-IsRemoved memory_store Key.file_data file_ino 1 3 file_object (omega arith)
      file_object-HasObjects

local_unlink-HasName_example :
    Gives
      (local_unlink memory out 0 old_name world)
      (λ _ w'. HasName base dir_ino 2 old_name none world w')
unfolding open_tx get_entry make_entry new_journal new_transaction find put
local_unlink-HasName_example =
    local_unlink-HasName world-IsReady old_name old_name_there old_name_child (omega arith) refl
      refl file_removed.1

local_rmdir_down-HasName_example :
    Gives
      (local_rmdir_down memory out 0 file_ino old_name world)
      (λ _ w'. HasName base dir_ino 2 old_name none world w')
local_rmdir_down-HasName_example =
    local_rmdir_down-HasName world-IsReady old_name old_name_there file_ino

local_rename_same_parent-Moved_example :
    Gives
      (local_rename_same_parent memory out 0
        (b'/' ∷ b'd' ∷ b'/' ∷ old_name)
        (b'/' ∷ b'd' ∷ b'/' ∷ new_name)
        0
        world)
      (λ code w'.
        (code ≡ success)
        × (Mirrors base dir_ino (w'.tables 2) w'.journal
            × ((n : Bytes)
                → names_in (w'.tables 2) n ≡ (
                    if new_name == n
                    then some file_ino
                    else if old_name == n
                    then none
                    else names_in table n))))
unfolding open_tx get_entry make_entry new_journal new_transaction find put
local_rename_same_parent-Moved_example =
    local_rename_same_parent-Moved world-IsReady (b'/' ∷ b'd' ∷ []) b'a' b'b' [] []
      (omega arith, tt) (omega arith, tt) old_name_there new_name_free old_name_child (omega arith)
      refl

rename_refused_example :
    (local_rename_same_parent memory out 0 (b'/' ∷ old_name) (b'/' ∷ old_name) 0 world
      ≡ (err out_of_range, world))
    × ((rest : Bytes)
        → local_rename_same_parent memory out 0
            (b'/' ∷ old_name)
            ((b'/' ∷ old_name) ++ b'/' ∷ rest)
            0
            world
          ≡ (ok einval, world))
rename_refused_example = rename_refused memory out 0 0 (b'/' ∷ old_name) world

empty-IsCapped : IsCapped memory_store Key.file_data file_ino []
empty-IsCapped n = rw (find-empty {V = Bytes}) (omega arith)

abbrev empty_file : World memory.State
empty_file = record world { data_pool = [] }

-- Open for appending, so that the offset does not count.
local_write-local_read_example :
    Gives (local_write memory out 1 (7 ∷ 8 ∷ []) 5 1024 empty_file) (λ n w'.
      (n ≡ 2)
      × (local_read memory out 1 2 0 w' ≡ (ok (7 ∷ 8 ∷ []), w'))
      × ((w'.inodes 1).core.i_size ≡ 2)
      × (w'.journal ≡ logged (changes_reg (w'.inodes 1)) dir_ino new_journal))
local_write-local_read_example =
    local_write-local_read memory_store out empty_file 1 refl start refl (7 ∷ 8 ∷ []) 5 1024
      empty-IsCapped

local_chmod-type_example : Gives (local_chmod out 1 384 world) (λ _ w'.
    ((w'.inodes 1).core.i_mode / 4096 % 16 ≡ 8)
    × ((w'.inodes 1).core.i_mode % 4096 ≡ 384)
    × (w'.journal ≡ change_logged (w'.inodes 1) dir_ino new_journal))
local_chmod-type_example = local_chmod-type memory out 1 world refl start refl 384 (omega arith)

-- A link to "xyz" in the place of the file.
abbrev linked : World memory.State
linked = record world {
  inodes = λ i.
      new_symlink dir_ino 3 4 41471 (b'x' ∷ b'y' ∷ b'z' ∷ []) file_ino
        (record { tv_sec = 5; tv_nsec = 6 });
}

readlink_bounds_example :
    ((true ≡ true)
      → 0 < 3
      → 3 < 2 ^ 64
      → (local_readlink 1 3 linked ≡ (ok (success, b'x' ∷ b'y' ∷ 0 ∷ []), linked)) × (3 ≤ 3))
    × ((true ≡ false) → local_readlink 1 3 linked ≡ (ok (einval, []), linked))
unfolding new_symlink new_inode
readlink_bounds_example = readlink_bounds 1 linked refl 3
