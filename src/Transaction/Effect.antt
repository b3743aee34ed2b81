-- ===== src/Transaction/Effect.antt =====
-- What the calls of client/journal/transaction.cpp mean for the directory: its names and the
-- inodes of its files, as they will stand once the transaction is synchronised.
use nmfs.Prelude.{Bytes, ◌==◌, ◌≡◌, Bool, true, false, Option, none, some, arith, if◌then◌else◌}
use nmfs.Map.{Map, find, put, find-put}
use nmfs.Uuid.{Uuid, nil_uuid}
use nmfs.Inode.{Inode, copy_inode}
use nmfs.Transaction.{
  Transaction, accepted, mkself, rmself, chself, mkdir, rmdir, mvdir, mkreg, rmreg, mvreg, chreg,
}
use nmfs.Transaction.Calls.{
  Call, makes_self, removes_self, changes_self, makes_dir, removes_dir, moves_dir, makes_reg,
  removes_reg, moves_reg, changes_reg, apply,
}

-- A directory as its clients see it: the inode number under each name.
abbrev pub Names : Type 0
Names = Bytes → Option Uuid

-- The names of a directory once the listed entries are added and deleted.
abbrev pub overlay_entry : Option (Bool × Uuid) → Option Uuid → Option Uuid
overlay_entry none base = base
overlay_entry (some (true, ino)) base = some ino
overlay_entry (some (false, ino)) base = none

unfoldable pub overlay : Map (Bool × Uuid) → Names → Names
overlay entries base name = overlay_entry (find name entries) (base name)

abbrev bind_name : Bytes → Option Uuid → Names → Names
bind_name name target names n = if name == n then target else names n

-- What each call does to the names of a directory.
unfoldable pub name_effect : Call → Names → Names
name_effect (makes_dir s name ino) names = bind_name name (some ino) names
name_effect (removes_dir s name ino) names = bind_name name none names
name_effect (moves_dir s src ino dst old) names =
    bind_name dst (some ino) (bind_name src none names)
name_effect (makes_reg s name f) names = bind_name name (some f.core.i_ino) names
name_effect (removes_reg s name f) names = bind_name name none names
name_effect (moves_reg s src ino dst old) names =
    bind_name dst (some ino) (bind_name src none names)
name_effect _ names = names

-- A call that is accepted changes the names of the directory as it says, and no other name.
pub apply-name_effect :
    (c : Call) (tx tx' : Transaction) (base : Names) (n : Bytes)
    → apply c tx ≡ accepted tx'
    → overlay tx'.dentries base n ≡ name_effect c (overlay tx.dentries base) n
unfolding overlay name_effect apply mkself rmself chself mkdir rmdir mvdir mkreg rmreg mvreg chreg
apply-name_effect (makes_self i) tx tx' base n h = ground arith
apply-name_effect removes_self tx tx' base n h = ground arith
apply-name_effect (changes_self i) tx tx' base n h = ground arith
apply-name_effect (makes_dir s name ino) tx tx' base n h =
    ground (arith, find-put name n (true, ino) tx.dentries)
apply-name_effect (removes_dir s name ino) tx tx' base n h =
    ground (arith, find-put name n (false, ino) tx.dentries)
apply-name_effect (moves_dir s src ino dst old) tx tx' base n h = ground (
  arith,
  find-put dst n (true, ino) (put src (false, ino) tx.dentries),
  find-put src n (false, ino) tx.dentries,
)
apply-name_effect (makes_reg s name f) tx tx' base n h =
    ground (arith, find-put name n (true, f.core.i_ino) tx.dentries)
apply-name_effect (removes_reg s name f) tx tx' base n h =
    ground (arith, find-put name n (false, f.core.i_ino) tx.dentries)
apply-name_effect (moves_reg s src ino dst old) tx tx' base n h = ground (
  arith,
  find-put dst n (true, ino) (put src (false, ino) tx.dentries),
  find-put src n (false, ino) tx.dentries,
)
apply-name_effect (changes_reg f) tx tx' base n h = ground arith

-- What each call does to the inodes of the directory's files: `some none` marks a deleted file.
abbrev Files : Type 0
Files = Uuid → Option (Option Inode)

unfoldable pub file_effect : Call → Files → Files
unfolding nil_uuid
file_effect (makes_reg s name f) files ino =
    if f.core.i_ino == ino then some (some (copy_inode f)) else files ino
file_effect (removes_reg s name f) files ino = if f.core.i_ino == ino then some none else files ino
file_effect (moves_reg s src moved dst old) files ino =
    if old == nil_uuid then files ino else if old == ino then some none else files ino
file_effect (changes_reg f) files ino =
    if f.core.i_ino == ino then some (some (copy_inode f)) else files ino
file_effect _ files ino = files ino

-- A call that is accepted changes the inodes of the files as it says, and no other inode.
pub apply-file_effect :
    (c : Call) (tx tx' : Transaction) (ino : Uuid)
    → apply c tx ≡ accepted tx'
    → find ino tx'.f_inodes ≡ file_effect c (λ i. find i tx.f_inodes) ino
unfolding file_effect apply mkself rmself chself mkdir rmdir mvdir mkreg rmreg mvreg chreg
apply-file_effect (makes_self i) tx tx' ino h = ground arith
apply-file_effect (makes_reg s name f) tx tx' ino h =
    ground (arith, find-put f.core.i_ino ino (some (copy_inode f)) tx.f_inodes)
apply-file_effect (removes_reg s name f) tx tx' ino h =
    ground (arith, find-put f.core.i_ino ino none tx.f_inodes)
apply-file_effect (moves_reg s src moved dst old) tx tx' ino h =
    ground (arith, find-put old ino none tx.f_inodes)
apply-file_effect (changes_reg f) tx tx' ino h =
    ground (arith, find-put f.core.i_ino ino (some (copy_inode f)) tx.f_inodes)
apply-file_effect _ tx tx' ino h = ground arith
