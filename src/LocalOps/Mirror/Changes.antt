-- ===== src/LocalOps/Mirror/Changes.antt =====
-- What a call of client/fs_ops/local_ops.cpp that adds a name or takes one away leaves in step: the
-- table of the directory and its transaction.
use nmfs.Prelude.{ℕ, Bytes, false, ◌==◌, ◌≡◌, refl, sym, ◌∙◌, none, some, arith, if◌then◌else◌}
use nmfs.Map.{find-put, find-erase}
use nmfs.Uuid.{Uuid}
use nmfs.Inode.{Inode}
use nmfs.Dentry.{add_child, delete_child}
use nmfs.Rados.Store.{IoCtx}
use nmfs.Transaction.Calls.{Call, makes_reg, removes_reg, makes_dir, removes_dir}
use nmfs.Transaction.Conflict.{conflicts, has_inode, has_deleted_inode}
use nmfs.Transaction.Effect.{Names, name_effect}
use nmfs.Journal.{Journal}
use nmfs.Journal.Steps.{Reach}
use nmfs.Journal.Sound.{Reach-IsSound}
use nmfs.Journal.OpenEntry.{open_tx, logged, open_tx-logged}
use nmfs.DentryTable.{DentryTable}
use nmfs.LocalOps.Mirror.{
  Mirrors, names_in, with_child, without_child, recorded_after, not_added, not_deleted,
  names_of_listing,
}

module _ {io : IoCtx} {to_string : Uuid → Bytes} {j : Journal} (r : Reach io to_string j) where
  -- A name that both have taken.
  pub with_child-Mirrors :
      {base : Names} {ino : Uuid} {t : DentryTable} (m : Mirrors base ino t j) (c : Call)
      (name : Bytes) (i : ℕ) (new : Uuid)
      → conflicts c (open_tx ino j) ≡ false
      → ((n : Bytes)
          → name_effect c (names_in t) n ≡ (if name == n then some new else names_in t n))
      → Mirrors base ino (with_child name i new m.listing t) (logged c ino j)
  unfolding add_child
  with_child-Mirrors {base} {ino} {t} m c name i new h effect = record {
    is_local = m.is_local;
    listing = add_child name new m.listing;
    listed = refl;
    keyed = λ n. ground (
      arith,
      find-put name n i t.child_inodes,
      find-put name n new m.listing.child_list,
      m.keyed n,
    );
    recorded = λ n.
        find-put name n new m.listing.child_list
        ∙ rw (← names_of_listing t m.listing m.listed n) (sym (effect n))
        ∙ sym (recorded_after r m c h n);
  }

  -- A name that both have given up.
  pub without_child-Mirrors :
      {base : Names} {ino : Uuid} {t : DentryTable} (m : Mirrors base ino t j) (c : Call)
      (name : Bytes)
      → conflicts c (open_tx ino j) ≡ false
      → ((n : Bytes) → name_effect c (names_in t) n ≡ (if name == n then none else names_in t n))
      → Mirrors base ino (without_child name m.listing t) (logged c ino j)
  unfolding delete_child
  without_child-Mirrors {base} {ino} {t} m c name h effect = record {
    is_local = m.is_local;
    listing = delete_child name m.listing;
    listed = refl;
    keyed = λ n. ground (
      arith,
      find-erase {V = ℕ} name n t.child_inodes,
      find-erase {V = Uuid} name n m.listing.child_list,
      m.keyed n,
    );
    recorded = λ n.
        find-erase {V = Uuid} name n m.listing.child_list
        ∙ rw (← names_of_listing t m.listing m.listed n) (sym (effect n))
        ∙ sym (recorded_after r m c h n);
  }

pub names_in-with_child :
    {base : Names} {ino : Uuid} {t : DentryTable} {j : Journal} (m : Mirrors base ino t j)
    (name : Bytes) (i : ℕ) (new : Uuid) (n : Bytes)
    → names_in (with_child name i new m.listing t) n
      ≡ (if name == n then some new else names_in t n)
unfolding add_child
names_in-with_child {t = t} m name i new n =
    find-put name n new m.listing.child_list ∙ rw (names_of_listing t m.listing m.listed n) refl

pub names_in-without_child :
    {base : Names} {ino : Uuid} {t : DentryTable} {j : Journal} (m : Mirrors base ino t j)
    (name n : Bytes)
    → names_in (without_child name m.listing t) n ≡ (if name == n then none else names_in t n)
unfolding delete_child
names_in-without_child {t = t} m name n =
    find-erase {V = Uuid} name n m.listing.child_list
    ∙ rw (names_of_listing t m.listing m.listed n) refl

-- The calls that add a name or take one away, where they contradict nothing.
module _ {base : Names} {ino : Uuid} {t : DentryTable} {j : Journal} (m : Mirrors base ino t j)
    (name : Bytes) (s : Inode) where
  pub makes_reg_free :
      (f : Inode)
      → names_in t name ≡ none
      → has_inode f.core.i_ino (open_tx ino j) ≡ false
      → conflicts (makes_reg s name f) (open_tx ino j) ≡ false
  unfolding conflicts
  makes_reg_free f absent fresh = ground (arith, not_added m name absent)

  pub makes_dir_free :
      (new : Uuid)
      → names_in t name ≡ none
      → conflicts (makes_dir s name new) (open_tx ino j) ≡ false
  unfolding conflicts
  makes_dir_free new absent = not_added m name absent

  pub removes_reg_free :
      (f : Inode) {x : Uuid}
      → names_in t name ≡ some x
      → has_deleted_inode f.core.i_ino (open_tx ino j) ≡ false
      → conflicts (removes_reg s name f) (open_tx ino j) ≡ false
  unfolding conflicts
  removes_reg_free f there kept = ground (arith, not_deleted m name there)

  pub removes_dir_free :
      (old : Uuid) {x : Uuid}
      → names_in t name ≡ some x
      → conflicts (removes_dir s name old) (open_tx ino j) ≡ false
  unfolding conflicts
  removes_dir_free old there = not_deleted m name there

-- A call on the transaction of another directory.
pub Mirrors-other :
    {io : IoCtx} {to_string : Uuid → Bytes} {base : Names} {ino : Uuid} {t : DentryTable}
    {j : Journal}
    → Reach io to_string j
    → Mirrors base ino t j
    → (c : Call) (key : Uuid) → (key == ino) ≡ false
    → Mirrors base ino t (logged c key j)
Mirrors-other {base = base} {ino = ino} {j = j} r m c key other =
    let same : open_tx ino (logged c key j) ≡ open_tx ino j =
      open_tx-logged c key ino j (Reach-IsSound r) ∙ rw other refl in
    record {
      is_local = m.is_local;
      listing = m.listing;
      listed = m.listed;
      keyed = m.keyed;
      recorded = λ n. rw same (m.recorded n);
    }
