-- ===== src/LocalOps/Ready.antt =====
-- A client that leads a directory, as the calls of client/fs_ops/local_ops.cpp find it.
use mathlib.Core.Path.{subst}
use nmfs.Prelude.{sym, ℕ, suc, ◌+◌, ◌<◌, ◌≤◌, ap, none, true, false, ◌≡◌, refl, Option, some, arith}
use nmfs.Exec.{ok, Gives, gives}
use nmfs.Map.{find}
use nmfs.Uuid.{Uuid}
use nmfs.Rados.Store.{IoCtx}
use nmfs.Transaction.Calls.{Call, changes_reg}
use nmfs.Transaction.Conflict.{conflicts}
use nmfs.Transaction.Effect.{Names}
use nmfs.Lease.Client.{is_valid}
use nmfs.Journal.{store}
use nmfs.Journal.Steps.{Reach}
use nmfs.Journal.OpenEntry.{open_tx, logged, retry-logged}
use nmfs.DirectoryTable.{get_dentry_table}
use nmfs.Inode.{Inode, Timespec, new_inode}
use nmfs.Inode.Setters.{set_mtime, set_ctime}
use nmfs.FileHandler.{add_file_handler, new_file_handler, set_loc, set_i, set_fhno}
use nmfs.LocalOps.{touch, create_inode, open_handle, log_chreg, of_parent}
use nmfs.LocalOps.Mirror.{Mirrors, taken}
use nmfs.World.{World, Outside, journalctl}

-- The client holds the directory `ino`, with a lease that is not over, in the table at `a`, and the
-- directory's inode at `parent`.
pub record IsReady (io : IoCtx) (out : Outside) (base : Names) (ino : Uuid) (a parent : ℕ)
    (w : World io.State) : Type 0 where
  pub filed : find ino w.dentry_tables ≡ some a
  pub valid : is_valid ino (out.now w.asked) w.leases ≡ true
  pub number : (w.inodes parent).core.i_ino ≡ ino
  pub low : parent < w.next
  pub reached : Reach io out.to_string w.journal
  pub fuel : ℕ
  pub rounds : out.fuel ≡ suc fuel
  pub mirror : Mirrors base ino (w.tables a) w.journal

module _ (io : IoCtx) (out : Outside) where
  -- A table that is held is found, and nothing changes but that the clock was read.
  pub get_cached :
      (ino : Uuid) (a : ℕ) (w : World io.State)
      → find ino w.dentry_tables ≡ some a
      → is_valid ino (out.now w.asked) w.leases ≡ true
      → get_dentry_table io out ino false w ≡ (ok a, record w { asked = w.asked + 1 })
  unfolding get_dentry_table
  get_cached ino a w e h = rw (e, get_dentry_table) (rw (h))

  -- A call that the open transaction does not contradict is taken.
  pub journalctl_lem :
      (c : Call) (ino : Uuid) (w : World io.State) (fuel : ℕ)
      → Reach io out.to_string w.journal
      → out.fuel ≡ suc fuel
      → conflicts c (open_tx ino w.journal) ≡ false
      → journalctl out c ino w ≡ (ok tt, record w { journal = logged c ino w.journal })
  journalctl_lem c ino w fuel r f h =
      let (tx', e) = taken r c ino h in rw (f, retry-logged r c ino fuel, e) refl

pub store_self {ℓ} : {A : Type ℓ} (a : ℕ) (x : A) (f : ℕ → A) → store a x f a ≡ x
store_self a x f = ground arith

pub store_apart {ℓ} : {A : Type ℓ} (a b : ℕ) (x : A) (f : ℕ → A) → b < a → store a x f b ≡ f b
store_apart a b x f h = ground arith

-- What a step leaves alone that changes inodes only, and no inode's number.
pub record Kept {S : Type 0} (v v' : World S) : Type 0 where
  pub tables : v'.tables ≡ v.tables
  pub journal : v'.journal ≡ v.journal
  pub context : v'.open_context ≡ v.open_context
  pub later : v.next ≤ v'.next
  pub numbers : (i : ℕ) → i < v.next → (v'.inodes i).core.i_ino ≡ (v.inodes i).core.i_ino

touched :
    (k i : ℕ) (t : Timespec) (f : ℕ → Inode)
    → (store i
        (set_ctime t (store i (set_mtime t (f i)) f i))
        (store i (set_mtime t (f i)) f)
        k).core.i_ino
      ≡ (f k).core.i_ino
touched k i t f = ground arith

-- The inode that is open under a handle.
abbrev pub opened : {S : Type 0} → ℕ → World S → Option ℕ
opened fh w = elim (w.open_context fh) [ none ↦ none | some f ↦ f.i ]

module _ {S : Type 0} (out : Outside) where
  pub touch-Kept : (i : ℕ) (v : World S) → Gives (touch out i v) (λ _ v'. Kept v v')
  unfolding touch
  touch-Kept i v = gives (record {
    tables = refl;
    journal = refl;
    context = refl;
    later = omega arith;
    numbers = λ k low. touched k i (out.time v.asked) v.inodes;
  })

  pub create_inode-Kept :
      (parent_ino : Uuid) (mode : ℕ) (v : World S)
      → Gives (create_inode out parent_ino mode v) (λ i v'.
        Kept v v' × (i < v'.next) × (n : ℕ) × ((v'.inodes i).core.i_ino ≡ out.fresh_ino n))
  unfolding create_inode new_inode
  create_inode-Kept parent_ino mode v = gives (
    record {
      tables = refl;
      journal = refl;
      context = refl;
      later = omega arith;
      numbers = λ k low. ap (λ (i : Inode). i.core.i_ino) (store_apart v.next k _ v.inodes low);
    },
    omega arith,
    v.asked + 1,
    ap (λ (i : Inode). i.core.i_ino) (store_self v.next _ v.inodes),
  )

  -- The handle is new, and of the inode.
  pub open_handle-Kept :
      (i : ℕ) (v : World S)
      → ((n : ℕ) → v.open_context (out.fresh_handle n) ≡ none)
      → Gives (open_handle out i v) (λ fh v'.
        (v'.tables ≡ v.tables)
        × (v'.journal ≡ v.journal)
        × (v'.inodes ≡ v.inodes)
        × (opened fh v' ≡ some i))
  unfolding open_handle add_file_handler new_file_handler set_loc set_i set_fhno
  open_handle-Kept i v free = rw (free v.asked) (gives (refl, refl, refl, ground arith))

module _ (io : IoCtx) (out : Outside) where
  -- A call of journalctl on the open transaction of `ino`, under the number that a directory has.
  pub journalctl-Gives :
      (c : Call) {ino key : Uuid} {fuel : ℕ} (v : World io.State)
      → key ≡ ino
      → Reach io out.to_string v.journal
      → out.fuel ≡ suc fuel
      → conflicts c (open_tx ino v.journal) ≡ false
      → Gives (journalctl out c key v) (λ _ v'. v' ≡ record v { journal = logged c ino v.journal })
  journalctl-Gives c {ino} {key} {fuel} v same r f h =
      subst
        (λ k.
          Gives (journalctl out c k v) (λ _ v'. v' ≡ record v { journal = logged c ino v.journal }))
        (sym same) (rw (journalctl_lem io out c ino v fuel r f h) (gives refl))

  of_parent-Gives :
      (p : Option Uuid) (file : Inode) {p_ino : Uuid} {fuel : ℕ} (v : World io.State)
      → p ≡ some p_ino
      → Reach io out.to_string v.journal
      → out.fuel ≡ suc fuel
      → Gives
          (of_parent out p file v)
          (λ _ v'. v' ≡ record v { journal = logged (changes_reg file) p_ino v.journal })
  unfolding conflicts of_parent
  of_parent-Gives none file v e r f = absurd (cc e)
  of_parent-Gives (some q) file {p_ino} v e r f =
      let same : q ≡ p_ino = cc e in journalctl-Gives (changes_reg file) v same r f refl

  -- chreg(i->get_p_ino(), i), which contradicts nothing.
  pub log_chreg-Gives :
      (i : ℕ) {p_ino : Uuid} {fuel : ℕ} (v : World io.State)
      → (v.inodes i).p_ino ≡ some p_ino
      → Reach io out.to_string v.journal
      → out.fuel ≡ suc fuel
      → Gives
          (log_chreg out i v)
          (λ _ v'. v' ≡ record v { journal = logged (changes_reg (v.inodes i)) p_ino v.journal })
  unfolding log_chreg conflicts
  log_chreg-Gives i {p_ino} v e r f = of_parent-Gives (v.inodes i).p_ino (v.inodes i) v e r f
