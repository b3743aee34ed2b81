-- ===== src/LocalOps/NameChange.antt =====
-- What a call of client/fs_ops/local_ops.cpp that changes one name leaves of the directory.
use nmfs.Prelude.{ap, ℕ, ◌<◌, Bytes, ◌==◌, ◌≡◌, refl, Option, none, some, arith, if◌then◌else◌}
use nmfs.Uuid.{Uuid}
use nmfs.Inode.{Inode}
use nmfs.Transaction.Calls.{makes_reg, makes_dir, removes_reg, removes_dir}
use nmfs.Transaction.Effect.{Names, name_effect}
use nmfs.Journal.{Journal}
use nmfs.LocalOps.Mirror.{Mirrors, names_in, with_child, without_child}
use nmfs.LocalOps.Mirror.Changes.{names_in-with_child, names_in-without_child}
use nmfs.LocalOps.Ready.{Kept}
use nmfs.LocalOps.Steps.{At, At-Mirrors}
use nmfs.World.{World}

-- Where the call stands before it changes the directory.
pub first_At : {S : Type 0} {w v : World S} (a : ℕ) → Kept w v → At v a (w.tables a) w.journal v
first_At a k = record {
  table = ap (λ f. f a) k.tables;
  journal = k.journal;
  context = refl;
  later = omega arith;
  numbers = λ i low. refl;
}

pub Kept-low : {S : Type 0} {w v : World S} {i : ℕ} → Kept w v → i < w.next → i < v.next
Kept-low k low = let l = k.later in omega arith

-- Memory and journal agree, the directory has `target` under the name, `none` for nothing, and
-- under every other name what it had.
pub record HasName {S : Type 0} (base : Names) (ino : Uuid) (a : ℕ) (name : Bytes)
    (target : Option Uuid) (w w' : World S) : Type 0 where
  pub mirror : Mirrors base ino (w'.tables a) w'.journal
  pub names :
      (n : Bytes)
      → names_in (w'.tables a) n ≡ (if name == n then target else names_in (w.tables a) n)

module _ {S : Type 0} {base : Names} {ino : Uuid} {w v0 v v' : World S} {j : Journal} (a : ℕ)
    (name : Bytes) (m : Mirrors base ino (w.tables a) w.journal) (t : v'.tables ≡ v.tables)
    (same : v'.journal ≡ v.journal) where
  pub has_new :
      {new new' : Uuid} (i : ℕ)
      → At v0 a (with_child name i new m.listing (w.tables a)) j v
      → Mirrors base ino (with_child name i new m.listing (w.tables a)) j
      → new ≡ new'
      → HasName base ino a name (some new') w v'
  has_new {new} i h mirror e = rw⁻¹ e (record {
    mirror = rw (t, same) (At-Mirrors h mirror);
    names = λ n. rw (t, h.table) (names_in-with_child m name i new n);
  })

  pub has_none :
      At v0 a (without_child name m.listing (w.tables a)) j v
      → Mirrors base ino (without_child name m.listing (w.tables a)) j
      → HasName base ino a name none w v'
  has_none h mirror = record {
    mirror = rw (t, same) (At-Mirrors h mirror);
    names = λ n. rw (t, h.table) (names_in-without_child m name n);
  }

-- The calls on a transaction that a name is added or taken away by.
pub makes_reg_effect :
    (names : Names) (name : Bytes) (s f : Inode) (new : Uuid)
    → f.core.i_ino ≡ new
    → (n : Bytes)
    → name_effect (makes_reg s name f) names n ≡ (if name == n then some new else names n)
unfolding name_effect
makes_reg_effect names name s f new e n = rw e refl

module _ (names : Names) (name : Bytes) (s : Inode) (n : Bytes) where
  pub makes_dir_effect :
      (new : Uuid)
      → name_effect (makes_dir s name new) names n ≡ (if name == n then some new else names n)
  unfolding name_effect
  makes_dir_effect new = refl

  pub removes_reg_effect :
      (f : Inode)
      → name_effect (removes_reg s name f) names n ≡ (if name == n then none else names n)
  unfolding name_effect
  removes_reg_effect f = refl

  pub removes_dir_effect :
      (old : Uuid)
      → name_effect (removes_dir s name old) names n ≡ (if name == n then none else names n)
  unfolding name_effect
  removes_dir_effect old = refl
