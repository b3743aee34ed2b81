-- ===== src/LocalOps/Steps.antt =====
-- The steps that the calls of client/fs_ops/local_ops.cpp share, one by one, by what they leave of
-- the table of the directory and of the journal.
use nmfs.Prelude.{◌==◌, ap, ◌∙◌, ℕ, suc, ◌+◌, ◌<◌, ◌≤◌, Bytes, false, none, some, ◌≡◌, refl, arith}
use nmfs.Exec.{ok, Exec, Gives, gives}
use nmfs.Uuid.{Uuid}
use nmfs.Rados.Store.{IoCtx}
use nmfs.Transaction.Calls.{Call}
use nmfs.Transaction.Conflict.{conflicts}
use nmfs.Transaction.Effect.{Names}
use nmfs.Journal.{Journal, store}
use nmfs.Journal.Steps.{Reach}
use nmfs.Journal.OpenEntry.{open_tx, logged}
use nmfs.DentryTable.{DentryTable, create_child_inode, delete_child_inode}
use nmfs.Map.{find}
use nmfs.Inode.{Inode, Core, MetaLocation}
use nmfs.Inode.Setters.{set_loc}
use nmfs.Dentry.{Dentry, get_child_ino}
use nmfs.DentryTable.Inodes.{get_child_inode, check_child_inode, child_at, check_at, root_name}
use nmfs.LocalOps.{touch}
use nmfs.LocalOps.Mirror.{
  Mirrors, names_in, with_child, without_child, create_child_lem, delete_child_lem, no_child,
  its_child,
}
use nmfs.LocalOps.Ready.{Kept, touch-Kept, journalctl-Gives, store_self}
use nmfs.World.{World, Outside, at_table, at_data_pool, journalctl}

-- Where a call has come to since `w`: the table at `a` and the journal as they are now, while the
-- open files and the numbers of the inodes are as they were.
pub record At {S : Type 0} (w : World S) (a : ℕ) (t : DentryTable) (j : Journal) (v : World S)
    : Type 0 where
  pub table : v.tables a ≡ t
  pub journal : v.journal ≡ j
  pub context : v.open_context ≡ w.open_context
  pub later : w.next ≤ v.next
  pub numbers : (i : ℕ) → i < w.next → (v.inodes i).core.i_ino ≡ (w.inodes i).core.i_ino

-- Once the table has been looked up.
pub here :
    {S : Type 0} (a : ℕ) (w : World S)
    → At w a (w.tables a) w.journal (record w { asked = w.asked + 1 })
here a w = record {
  table = refl;
  journal = refl;
  context = refl;
  later = omega arith;
  numbers = λ i low. refl;
}

module _ {S : Type 0} {w v : World S} {a : ℕ} {t : DentryTable} {j : Journal}
    (h : At w a t j v) where
  -- After a step that changes inodes only.
  pub At-Kept : {v' : World S} → Kept v v' → At w a t j v'
  At-Kept k = record {
    table = ap (λ f. f a) k.tables ∙ h.table;
    journal = k.journal ∙ h.journal;
    context = k.context ∙ h.context;
    later = let e = k.later in let l = h.later in omega arith;
    numbers = λ i low. k.numbers i (let l = h.later in omega arith) ∙ h.numbers i low;
  }

  pub touch-At : (out : Outside) (i : ℕ) → Gives (touch out i v) (λ _ v'. At w a t j v')
  touch-At out i =
      let g = touch-Kept out i v in
      record { value = g.value; state = g.state; returned = g.returned; holds = At-Kept g.holds }

  pub table-At :
      {A : Type 0} (m : Exec DentryTable A) {x : A} {t' : DentryTable}
      → m t ≡ (ok x, t')
      → Gives (at_table a m v) (λ y v'. (y ≡ x) × At w a t' j v')
  table-At m {x} {t'} e =
      rw (h.table, e)
        (gives (
          refl,
          record {
            table = store_self a t' v.tables;
            journal = h.journal;
            context = h.context;
            later = h.later;
            numbers = h.numbers;
          },
        ))

-- The table of the directory takes a name that it does not have, or gives one up.
module _ {S : Type 0} {w v : World S} {a : ℕ} {t : DentryTable} {j : Journal} (h : At w a t j v)
    {base : Names} {ino : Uuid} (m : Mirrors base ino t j) (name : Bytes) where
  pub create-At :
      (i : ℕ) (new : Uuid)
      → names_in t name ≡ none
      → Gives
          (at_table a (create_child_inode name i new) v)
          (λ _ v'. At w a (with_child name i new m.listing t) j v')
  create-At i new absent =
      let g =
        table-At h (create_child_inode name i new)
          (create_child_lem name i new m.listing t (no_child m name absent) m.listed) in
      record { value = g.value; state = g.state; returned = g.returned; holds = g.holds.1 }

  pub delete-At :
      {x : Uuid}
      → names_in t name ≡ some x
      → Gives
          (at_table a (delete_child_inode name) v)
          (λ _ v'. At w a (without_child name m.listing t) j v')
  delete-At there =
      let g =
        table-At h (delete_child_inode name)
          (delete_child_lem name m.listing t (its_child m name there).1 m.listed) in
      record { value = g.value; state = g.state; returned = g.returned; holds = g.holds.1 }

module _ {io : IoCtx} {w v : World io.State} {a : ℕ} {t : DentryTable} {j : Journal}
    (h : At w a t j v) where
  -- A call of journalctl that does not contradict the open transaction of the directory.
  pub log-At :
      (out : Outside) (c : Call) {ino key : Uuid} {fuel : ℕ}
      → Reach io out.to_string j
      → out.fuel ≡ suc fuel
      → key ≡ ino
      → conflicts c (open_tx ino j) ≡ false
      → Gives (journalctl out c key v) (λ _ v'. At w a t (logged c ino j) v')
  log-At out c {ino} r f e free =
      let g = journalctl-Gives io out c v e (rw h.journal r) f (rw h.journal free) in
      record {
        value = g.value;
        state = g.state;
        returned = g.returned;
        holds = rw g.holds (record {
          table = h.table;
          journal = ap (logged c ino) h.journal;
          context = h.context;
          later = h.later;
          numbers = h.numbers;
        });
      }

-- What a call has come to is what the directory is now.
pub At-Mirrors :
    {S : Type 0} {w v : World S} {a : ℕ} {t : DentryTable} {j : Journal} {base : Names} {ino : Uuid}
    → At w a t j v
    → Mirrors base ino t j
    → Mirrors base ino (v.tables a) v.journal
At-Mirrors h m = rw (h.table, h.journal) m

pub located :
    (i k : ℕ) (f : ℕ → Inode) → (store i (set_loc MetaLocation.local (f i)) f k).core ≡ (f k).core
located i k f = ground arith

-- The two lookups in the table of a directory that this client leads.
module _ (io : IoCtx) (out : Outside) (a : ℕ) (name : Bytes) (v : World io.State) where
  pub child_lem :
      (target_ino : Uuid) (i : ℕ)
      → (v.tables a).loc ≡ MetaLocation.local
      → find name (v.tables a).child_inodes ≡ some i
      → get_child_inode io out a name target_ino v ≡ (
        ok (some i),
        record v { inodes = store i (set_loc MetaLocation.local (v.inodes i)) v.inodes },
      )
  unfolding get_child_inode
  child_lem target_ino i l e = rw (l, child_at) (rw e)

  pub check_lem :
      (d : Dentry)
      → (v.tables a).loc ≡ MetaLocation.local
      → (v.tables a).dentries ≡ some d
      → (name == root_name) ≡ false
      → check_child_inode io out a name v ≡ (ok (get_child_ino name d), v)
  unfolding check_child_inode
  check_lem d l e r = rw (l, check_at) (rw r (rw e refl))

module _ (io : IoCtx) {w v : World io.State} {a : ℕ} {t : DentryTable} {j : Journal} (out : Outside)
    (h : At w a t j v) (name : Bytes) (l : t.loc ≡ MetaLocation.local) where
  pub child-At :
      (target_ino : Uuid) {i : ℕ}
      → find name t.child_inodes ≡ some i
      → Gives (get_child_inode io out a name target_ino v) (λ child v'.
        (child ≡ some i)
        × At w a t j v'
        × (v'.data_pool ≡ v.data_pool)
        × ((k : ℕ) → (v'.inodes k).core ≡ (v.inodes k).core))
  child-At target_ino {i} e =
      rw (child_lem io out a name v target_ino i (rw h.table l) (rw h.table e)) (
        gives (
          refl,
          record {
            table = h.table;
            journal = h.journal;
            context = h.context;
            later = h.later;
            numbers = λ k low. ap (λ (c : Core). c.i_ino) (located i k v.inodes) ∙ h.numbers k low;
          },
          refl,
          λ k. located i k v.inodes,
        ))

  -- The number under a name, nil for none. The name is not that of the root.
  pub check-At :
      {d : Dentry}
      → t.dentries ≡ some d
      → (name == root_name) ≡ false
      → Gives
          (check_child_inode io out a name v)
          (λ ino v'. (ino ≡ get_child_ino name d) × At w a t j v' × (v'.inodes ≡ v.inodes))
  check-At {d} e r =
      rw (check_lem io out a name v d (rw h.table l) (rw h.table e) r) (gives (refl, h, refl))

-- A call on the pool of the files' data.
pub data-At :
    {S A : Type 0} {w v : World S} {a : ℕ} {t : DentryTable} {j : Journal} (h : At w a t j v)
    (m : Exec S A) {s s' : S} {x : A}
    → v.data_pool ≡ s
    → m s ≡ (ok x, s')
    → Gives (at_data_pool m v) (λ _ v'. At w a t j v' × (v'.inodes ≡ v.inodes))
data-At h m d e =
    rw (d, e)
      (gives (
        record {
          table = h.table;
          journal = h.journal;
          context = h.context;
          later = h.later;
          numbers = h.numbers;
        },
        refl,
      ))

set_number :
    (i k : ℕ) (f : Inode → Inode) (g : ℕ → Inode)
    → ((x : Inode) → (f x).core.i_ino ≡ x.core.i_ino)
    → (store i (f (g i)) g k).core.i_ino ≡ (g k).core.i_ino
set_number i k f g same = ground (arith, same (g i))

-- The world after a write to an inode.
abbrev pub written : {S : Type 0} → ℕ → (Inode → Inode) → World S → World S
written i f v = record v { inodes = store i (f (v.inodes i)) v.inodes }

-- A write to an inode that leaves its number.
pub At-written :
    {S : Type 0} {w v : World S} {a : ℕ} {t : DentryTable} {j : Journal} (h : At w a t j v) (i : ℕ)
    (f : Inode → Inode)
    → ((x : Inode) → (f x).core.i_ino ≡ x.core.i_ino)
    → At w a t j (written i f v)
At-written {v = v} h i f same = record {
  table = h.table;
  journal = h.journal;
  context = h.context;
  later = h.later;
  numbers = λ k low. set_number i k f v.inodes same ∙ h.numbers k low;
}
