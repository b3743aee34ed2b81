-- ===== src/Transaction/Examples.antt =====
-- The theorems on client/journal/transaction.cpp at a directory in which a file is made, moved and
-- removed.
use nmfs.Prelude.{
  ℕ, ◌+◌, ◌≤◌, Bytes, ◌==◌, ◌≡◌, refl, true, false, none, some, List, [], ◌∷◌, ◌++◌, replicate,
  length, arith,
}
use nmfs.Map.{find-empty, Map, find, put, erase}
use nmfs.Codec.{le_bytes}
use nmfs.Uuid.{Uuid}
use nmfs.Inode.{Inode, copy_inode}
use nmfs.Inode.Layout.RoundTrip.{CoreFits, length-serialize_inode}
use nmfs.Dentry.{Dentry}
use nmfs.Exec.{ok}
use nmfs.Rados.Memory.{memory, memory_store}
use nmfs.Rados.Key as Key
use nmfs.Rados.WriteLoop.{byte_at}
use nmfs.Rados.Hole.{IsCapped}
use nmfs.Transaction.{Transaction, accepted, refused, new_transaction, mkreg, mvreg}
use nmfs.Transaction.Calls.{
  Call, makes_reg, moves_reg, removes_reg, apply, apply_committed, IsWellFormed,
}
use nmfs.Transaction.Conflict.{is_thrown, conflicts, is_thrown_iff}
use nmfs.Transaction.Effect.{
  overlay, name_effect, apply-name_effect, file_effect, apply-file_effect,
}
use nmfs.Transaction.Serial.{
  dentry_bytes, f_inode_bytes, sized, Reader, parsed, broken, serialize, deserialize,
}
use nmfs.Transaction.Serial.Files.{AreFiles}
use nmfs.Transaction.Serial.RoundTrip.{IsReloaded, deserialize-serialize_transaction}
use nmfs.Transaction.Serial.SelfInode.{deserialize-serialize_self}
use nmfs.Transaction.Sync.{apply_entries, clear_mark}
use nmfs.Transaction.Sync.Directory.{
  run, effects, names_of, apply_entries-overlay, run-apply_entries,
}
use nmfs.Transaction.Sync.Mark.{clear_mark_misses}

abbrev node : Uuid → ℕ → Inode
node ino mode = record {
  p_ino = none;
  core = record {
    i_mode = mode;
    i_uid = 3;
    i_gid = 4;
    i_ino = ino;
    i_nlink = 1;
    i_size = 0;
    i_atime = record { tv_sec = 5; tv_nsec = 6 };
    i_mtime = record { tv_sec = 5; tv_nsec = 6 };
    i_ctime = record { tv_sec = 5; tv_nsec = 6 };
    link_target_len = 0;
  };
  loc = none;
  link_target_name = [];
}

abbrev dir_ino : Uuid
dir_ino = replicate 16 1

abbrev file_ino : Uuid
file_ino = replicate 16 2

abbrev dir : Inode
dir = node dir_ino 16877

abbrev file : Inode
file = node file_ino 33188

dir-CoreFits : CoreFits dir.core
dir-CoreFits = record {
  mode = omega arith;
  uid = omega arith;
  gid = omega arith;
  ino = refl;
  nlink = omega arith;
  size = omega arith;
  atime = record { sec = omega arith; nsec = omega arith };
  mtime = record { sec = omega arith; nsec = omega arith };
  ctime = record { sec = omega arith; nsec = omega arith };
  len = omega arith;
}

file-CoreFits : CoreFits file.core
file-CoreFits = record {
  mode = omega arith;
  uid = omega arith;
  gid = omega arith;
  ino = refl;
  nlink = omega arith;
  size = omega arith;
  atime = record { sec = omega arith; nsec = omega arith };
  mtime = record { sec = omega arith; nsec = omega arith };
  ctime = record { sec = omega arith; nsec = omega arith };
  len = omega arith;
}

abbrev a : Bytes
a = b'a' ∷ []

abbrev b : Bytes
b = b'b' ∷ []

-- The transaction once the file has been made under the name "a".
abbrev made : Transaction
made = record (new_transaction dir_ino) {
  s_inode = some (copy_inode dir);
  dentries = (a, (true, file_ino)) ∷ [];
  f_inodes = (file_ino, some (copy_inode file)) ∷ [];
}

made_lem : apply (makes_reg dir a file) (new_transaction dir_ino) ≡ accepted made
unfolding apply mkreg new_transaction find put erase copy_inode
made_lem = refl

apply-name_effect_example :
    overlay made.dentries (λ n. none) a
    ≡ name_effect (makes_reg dir a file) (overlay (new_transaction dir_ino).dentries (λ n. none)) a
apply-name_effect_example =
    apply-name_effect (makes_reg dir a file) (new_transaction dir_ino) made (λ n. none) a made_lem

apply-file_effect_example :
    find file_ino made.f_inodes
    ≡ file_effect (makes_reg dir a file) (λ i. find i (new_transaction dir_ino).f_inodes) file_ino
apply-file_effect_example =
    apply-file_effect (makes_reg dir a file) (new_transaction dir_ino) made file_ino made_lem

is_thrown_iff_example :
    is_thrown (apply (makes_reg dir a file) made) ≡ conflicts (makes_reg dir a file) made
unfolding new_transaction
is_thrown_iff_example = is_thrown_iff (makes_reg dir a file) made refl

abbrev closed : Transaction
closed = record made { committed = true }

apply_committed_example : apply (removes_reg dir a file) closed ≡ refused closed
apply_committed_example = apply_committed (removes_reg dir a file) closed refl

made-IsWellFormed : IsWellFormed made
unfolding find
made-IsWellFormed = record { names = (refl, tt); files = (refl, tt) }

abbrev home : Dentry
home = record { this_ino = dir_ino; child_list = (b, replicate 16 9) ∷ [] }

abbrev calls : List Call
calls = makes_reg dir a file ∷ moves_reg dir a file_ino b (replicate 16 9) ∷ []

abbrev moved : Transaction
moved = record made {
  dentries = (b, (true, file_ino)) ∷ (a, (false, file_ino)) ∷ [];
  f_inodes = (replicate 16 9, none) ∷ (file_ino, some (copy_inode file)) ∷ [];
}

moved_lem : run calls (new_transaction dir_ino) ≡ accepted moved
unfolding run apply mkreg mvreg new_transaction find put erase copy_inode ◌==◌
moved_lem = refl

run-apply_entries_example :
    find b (apply_entries moved.dentries home).child_list
    ≡ effects calls (λ k. find k home.child_list) b
run-apply_entries_example = run-apply_entries calls dir_ino moved home b moved_lem

apply_entries-overlay_example :
    names_of (apply_entries made.dentries home) b ≡ overlay made.dentries (names_of home) b
apply_entries-overlay_example = apply_entries-overlay made.dentries home b made-IsWellFormed.names

-- The same transaction with no inode of the directory.
abbrev no_self : Transaction
no_self = record made { s_inode = none }

no_self-IsWellFormed : IsWellFormed no_self
unfolding find
no_self-IsWellFormed = record { names = (refl, tt); files = (refl, tt) }

made-AreFiles : AreFiles made.f_inodes
unfolding copy_inode
made-AreFiles = (
  record {
    number = refl;
    fits = file-CoreFits;
    no_link = refl;
    short =
        omega
          (arith, length-serialize_inode (copy_inode file) refl (record { target = λ l. refl }));
  },
  tt,
)

abbrev no_pool : Reader
no_pool ino len = none

deserialize-serialize_transaction_example :
    (tx' : Transaction) × (deserialize no_pool (serialize no_self) (new_transaction dir_ino)
      ≡ parsed tx')
    × IsReloaded no_self tx'
deserialize-serialize_transaction_example =
    deserialize-serialize_transaction no_pool no_self dir_ino no_self-IsWellFormed
      (omega arith, refl, tt) made-AreFiles refl

-- A transaction in which a directory has been made under the name "a".
abbrev dir_made : Transaction
dir_made = record (new_transaction dir_ino) {
  s_inode = some dir;
  dentries = (a, (true, file_ino)) ∷ [];
}

short : length (dentry_bytes dir_made.dentries ++ f_inode_bytes dir_made.f_inodes) ≤ 88
unfolding dentry_bytes f_inode_bytes sized le_bytes new_transaction
short = omega arith

deserialize-serialize_self_example :
    deserialize no_pool (serialize dir_made) (new_transaction dir_ino) ≡ broken
unfolding new_transaction
deserialize-serialize_self_example =
    deserialize-serialize_self no_pool dir_made dir_ino dir refl dir-CoreFits refl refl short

no_journal-IsCapped : IsCapped memory_store Key.journal dir_ino []
no_journal-IsCapped n = rw (find-empty {V = Bytes}) (omega arith)

clear_mark_misses_example :
    (s' : Map Bytes) × (clear_mark memory (λ ino. ino) closed [] ≡ (ok tt, s'))
    × (byte_at memory_store Key.journal dir_ino s' closed.offset ≡ some 0)
    × (byte_at memory_store Key.journal dir_ino s' (closed.offset + 4)
        ≡ byte_at memory_store Key.journal dir_ino [] (closed.offset + 4))
unfolding new_transaction
clear_mark_misses_example =
    clear_mark_misses memory_store (λ ino. ino) closed [] no_journal-IsCapped
