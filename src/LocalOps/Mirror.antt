-- ===== src/LocalOps/Mirror.antt =====
-- The names of a directory in memory against its open transaction: what the calls of
-- client/fs_ops/local_ops.cpp keep in step. Every call changes the table of the directory
-- (client/in_memory/dentry_table.cpp) and the transaction (client/journal/transaction.cpp) apart.
pub mod Changes
use mathlib.Core.Path.{fun_ext}
use nmfs.Prelude.{
  ℕ, Bytes, Bool, true, false, ◌==◌, ==-refl, ◌≡◌, refl, ap, sym, ◌∙◌, Option, none, some, arith,
  if◌then◌else◌,
}
use nmfs.Exec.{ok}
use nmfs.Map.{find, put, erase, find-put, find-erase}
use nmfs.Uuid.{Uuid}
use nmfs.Inode.{Inode, MetaLocation}
use nmfs.Dentry.{Dentry, add_child, delete_child}
use nmfs.Rados.Store.{IoCtx}
use nmfs.Transaction.{Transaction, Outcome, accepted, refused, threw}
use nmfs.Transaction.Calls.{
  Call, apply, is_refused, apply_open, makes_reg, removes_reg, makes_dir, removes_dir,
}
use nmfs.Transaction.Conflict.{
  is_thrown, conflicts, is_thrown_iff, has_added, has_deleted, has_inode, has_deleted_inode,
}
use nmfs.Transaction.Effect.{Names, overlay, name_effect, apply-name_effect}
use nmfs.Journal.{Journal}
use nmfs.Journal.Steps.{Reach}
use nmfs.Journal.Sound.{Reach-IsSound}
use nmfs.Journal.Promises.{get_entry_open}
use nmfs.Journal.OpenEntry.{open_tx, logged, open_tx-logged}
use nmfs.DentryTable.{DentryTable, create_child_inode, delete_child_inode, add_child_inode}

abbrev pub is_some {ℓ} : {A : Type ℓ} → Option A → Bool
is_some none = false
is_some (some _) = true

-- The names of the directory in memory.
abbrev pub names_in : DentryTable → Names
names_in t n = elim t.dentries [ none ↦ none | some d ↦ find n d.child_list ]

-- This client leads the directory and has its children, each with an inode; and their names are
-- those that the directory had in the pool, `base`, under what its open transaction says.
pub record Mirrors (base : Names) (ino : Uuid) (t : DentryTable) (j : Journal) : Type 0 where
  pub is_local : t.loc ≡ MetaLocation.local
  pub listing : Dentry
  pub listed : t.dentries ≡ some listing
  pub keyed : (n : Bytes) → is_some (find n t.child_inodes) ≡ is_some (find n listing.child_list)
  pub recorded : (n : Bytes) → find n listing.child_list ≡ overlay (open_tx ino j).dentries base n

-- The table with a name more, or one fewer.
abbrev pub with_child : Bytes → ℕ → Uuid → Dentry → DentryTable → DentryTable
with_child name i ino d t = record t {
  child_inodes = put name i t.child_inodes;
  dentries = some (add_child name ino d);
}

abbrev pub without_child : Bytes → Dentry → DentryTable → DentryTable
without_child name d t = record t {
  child_inodes = erase name t.child_inodes;
  dentries = some (delete_child name d);
}

pub create_child_lem :
    (name : Bytes) (i : ℕ) (ino : Uuid) (d : Dentry) (t : DentryTable)
    → find name t.child_inodes ≡ none
    → t.dentries ≡ some d
    → create_child_inode name i ino t ≡ (ok true, with_child name i ino d t)
unfolding create_child_inode
create_child_lem name i ino d t e h = rw (e, add_child_inode) (rw h)

pub delete_child_lem :
    (name : Bytes) (d : Dentry) (t : DentryTable) {i : ℕ}
    → find name t.child_inodes ≡ some i
    → t.dentries ≡ some d
    → delete_child_inode name t ≡ (ok true, without_child name d t)
unfolding delete_child_inode
delete_child_lem name d t e h = rw (e, delete_child_inode) (rw h)

is_none : {A : Type 0} (o : Option A) → is_some o ≡ false → o ≡ none
is_none none h = refl
is_none (some a) h = absurd (cc h)

-- A call on an open transaction that it does not contradict is accepted.
accepts :
    (c : Call) (tx : Transaction)
    → tx.committed ≡ false
    → conflicts c tx ≡ false
    → (tx' : Transaction) × (apply c tx ≡ accepted tx')
accepts c tx o h = go (apply c tx) refl
  where
    go : (r : Outcome) → apply c tx ≡ r → (tx' : Transaction) × (apply c tx ≡ accepted tx')
    go (accepted tx') e = (tx', e)
    go (refused tx') e =
        absurd (let n = (apply_open c tx o).0 in let m = ap is_refused e in cc (n, m))
    go (threw tx') e =
        absurd (let n = is_thrown_iff c tx o in let m = ap is_thrown e in cc (n, m, h))

is_open :
    {io : IoCtx} {to_string : Uuid → Bytes} {j : Journal}
    → Reach io to_string j
    → (ino : Uuid) → (open_tx ino j).committed ≡ false
unfolding open_tx
is_open {j = j} r ino = (get_entry_open ino j (Reach-IsSound r)).0

pub names_of_listing :
    (t : DentryTable) (d : Dentry)
    → t.dentries ≡ some d
    → (n : Bytes) → names_in t n ≡ find n d.child_list
names_of_listing t d e n = rw e

module _ {io : IoCtx} {to_string : Uuid → Bytes} {j : Journal} (r : Reach io to_string j) where
  pub taken :
      (c : Call) (ino : Uuid)
      → conflicts c (open_tx ino j) ≡ false
      → (tx' : Transaction) × (apply c (open_tx ino j) ≡ accepted tx')
  taken c ino h = accepts c (open_tx ino j) (is_open r ino) h

  -- What the transaction says once it has taken a call that it does not contradict.
  pub recorded_after :
      {base : Names} {ino : Uuid} {t : DentryTable} (m : Mirrors base ino t j) (c : Call)
      → conflicts c (open_tx ino j) ≡ false
      → (n : Bytes)
      → overlay (open_tx ino (logged c ino j)).dentries base n ≡ name_effect c (names_in t) n
  recorded_after {base} {ino} {t} m c h n =
      let (tx', e) = taken c ino h in
      let before : overlay (open_tx ino j).dentries base ≡ names_in t =
        fun_ext (λ k. sym (m.recorded k) ∙ sym (names_of_listing t m.listing m.listed k)) in
      let now : open_tx ino (logged c ino j) ≡ tx' =
        open_tx-logged c ino ino j (Reach-IsSound r) ∙ rw (==-refl ino, e) refl in
      ap (λ (tx : Transaction). overlay tx.dentries base n) now
      ∙ apply-name_effect c (open_tx ino j) tx' base n e
      ∙ ap (λ f. name_effect c f n) before

-- What the transaction has not done to a name that is there, or that is not there.
pub not_added :
    {base : Names} {ino : Uuid} {t : DentryTable} {j : Journal} (m : Mirrors base ino t j)
    (name : Bytes)
    → names_in t name ≡ none
    → has_added name (open_tx ino j) ≡ false
unfolding overlay
not_added {t = t} m name h =
    let e = sym (m.recorded name) ∙ sym (names_of_listing t m.listing m.listed name) ∙ h in
    ground arith

pub not_deleted :
    {base : Names} {ino : Uuid} {t : DentryTable} {j : Journal} (m : Mirrors base ino t j)
    (name : Bytes) {x : Uuid}
    → names_in t name ≡ some x
    → has_deleted name (open_tx ino j) ≡ false
unfolding overlay
not_deleted {t = t} m name h =
    let e = sym (m.recorded name) ∙ sym (names_of_listing t m.listing m.listed name) ∙ h in
    ground arith

pub no_child :
    {base : Names} {ino : Uuid} {t : DentryTable} {j : Journal} (m : Mirrors base ino t j)
    (name : Bytes)
    → names_in t name ≡ none
    → find name t.child_inodes ≡ none
no_child {t = t} m name h =
    let e = sym (names_of_listing t m.listing m.listed name) ∙ h in
    is_none (find name t.child_inodes) (m.keyed name ∙ ap is_some e)

is_there : {A : Type 0} (o : Option A) → is_some o ≡ true → (a : A) × (o ≡ some a)
is_there none h = absurd (cc h)
is_there (some a) h = (a, refl)

pub its_child :
    {base : Names} {ino : Uuid} {t : DentryTable} {j : Journal} (m : Mirrors base ino t j)
    (name : Bytes) {x : Uuid}
    → names_in t name ≡ some x
    → (i : ℕ) × (find name t.child_inodes ≡ some i)
its_child {t = t} m name h =
    let e = sym (names_of_listing t m.listing m.listed name) ∙ h in
    is_there (find name t.child_inodes) (m.keyed name ∙ ap is_some e)
