-- ===== src/LocalOps/MoveAcross.antt =====
-- The two halves of a move from one directory to another in client/fs_ops/local_ops.cpp, in a client
-- that leads both directories.
use nmfs.Prelude.{ap, ◌∙◌, ℕ, suc, ◌+◌, Bytes, ◌==◌, ◌≡◌, refl, true, false, none, some, arith}
use nmfs.Exec.{ok, success}
use nmfs.Map.{find}
use nmfs.Uuid.{Uuid, nil_uuid}
use nmfs.Rados.Store.{IoCtx}
use nmfs.Path.{get_filename_from_path}
use nmfs.Inode.{Inode, Core, MetaLocation}
use nmfs.Inode.Setters.{set_loc, set_p_ino}
use nmfs.Transaction.Calls.{Call, removes_reg, makes_reg}
use nmfs.Transaction.Conflict.{conflicts}
use nmfs.Transaction.Effect.{Names}
use nmfs.Journal.{store}
use nmfs.Journal.Steps.{Reach}
use nmfs.Journal.OpenEntry.{open_tx, logged}
use nmfs.Lease.Client.{is_valid}
use nmfs.DirectoryTable.{get_dentry_table}
use nmfs.LocalOps.{log_rmreg, log_mkreg}
use nmfs.LocalOps.Rename.{
  local_rename_not_same_parent_src, local_rename_not_same_parent_dst, replace_child,
}
use nmfs.LocalOps.Mirror.{
  names_in, with_child, without_child, create_child_lem, delete_child_lem, no_child,
}
use nmfs.LocalOps.Ready.{IsReady, get_cached, journalctl-Gives}
use nmfs.LocalOps.Steps.{located, child_lem}
use nmfs.World.{World, Outside, journalctl}

-- A call of journalctl that the open transaction does not contradict.
journalctl_at :
    (io : IoCtx) (out : Outside) (c : Call) {ino key : Uuid} {fuel : ℕ} (v : World io.State)
    → key ≡ ino
    → Reach io out.to_string v.journal
    → out.fuel ≡ suc fuel
    → conflicts c (open_tx ino v.journal) ≡ false
    → journalctl out c key v ≡ (ok tt, record v { journal = logged c ino v.journal })
journalctl_at io out c v e r f free =
    let g = journalctl-Gives io out c v e r f free in g.returned ∙ ap (λ s. (ok tt, s)) g.holds

pub get_cached_at :
    (io : IoCtx) (out : Outside) {ino key : Uuid} {a : ℕ} (u : World io.State)
    → key ≡ ino
    → find ino u.dentry_tables ≡ some a
    → is_valid ino (out.now u.asked) u.leases ≡ true
    → get_dentry_table io out key false u ≡ (ok a, record u { asked = u.asked + 1 })
get_cached_at io out u e filed valid = rw e (get_cached io out _ _ u filed valid)

module _ {io : IoCtx} {out : Outside} {base : Names} {ino : Uuid} {a parent : ℕ}
    {u : World io.State} (r : IsReady io out base ino a parent u) (name : Bytes) (i : ℕ) where
  -- The inodes once the child has been looked up.
  abbrev pub located_child : ℕ → Inode
  located_child = store i (set_loc MetaLocation.local (u.inodes i)) u.inodes

  abbrev pub gone : Call
  gone = removes_reg (located_child parent) name (located_child i)

  abbrev pub taken_out : World io.State
  taken_out = record u {
    asked = u.asked + 1;
    inodes = located_child;
    tables = store a (without_child name r.mirror.listing (u.tables a)) u.tables;
    journal = logged gone ino u.journal;
  }

  pub take_out :
      (old_path : Bytes)
      → get_filename_from_path old_path ≡ ok name
      → find name (u.tables a).child_inodes ≡ some i
      → conflicts gone (open_tx ino u.journal) ≡ false
      → local_rename_not_same_parent_src io out parent old_path 0 u ≡ (ok i, taken_out)
  unfolding local_rename_not_same_parent_src log_rmreg
  take_out old_path named child free =
      let m = r.mirror in
      let u1 : World io.State = record u { asked = u.asked + 1 } in
      let u2 : World io.State = record u1 {
        inodes = located_child;
        tables = store a (without_child name m.listing (u.tables a)) u.tables;
      } in
      let key : (located_child parent).core.i_ino ≡ ino =
        ap (λ (c : Core). c.i_ino) (located i parent u.inodes) ∙ r.number in
      rw
        (
          named,
          get_cached_at io out u r.number r.filed r.valid,
          child_lem io out a name u1 nil_uuid i m.is_local child,
          delete_child_lem name m.listing (u.tables a) child m.listed,
          journalctl_at io out gone u2 key r.reached r.rounds free,
        )
        refl

  -- The inodes once the target has its new place.
  abbrev placed : ℕ → Inode
  placed =
      let f = store i (set_loc MetaLocation.local (u.inodes i)) u.inodes in
      store i (set_p_ino (u.inodes parent).core.i_ino (f i)) f

  abbrev pub new : Call
  new = makes_reg (placed parent) name (placed i)

  abbrev pub put_in : World io.State
  put_in = record u {
    asked = u.asked + 1;
    inodes = placed;
    tables =
        store a (with_child name i (u.inodes i).core.i_ino r.mirror.listing (u.tables a)) u.tables;
    journal = logged new ino u.journal;
  }

  placed_core : (k : ℕ) → (placed k).core ≡ (u.inodes k).core
  placed_core k = ground arith

  pub put_in_lem :
      (new_path : Bytes) (check_dst_ino : Uuid)
      → get_filename_from_path new_path ≡ ok name
      → (check_dst_ino == nil_uuid) ≡ true
      → names_in (u.tables a) name ≡ none
      → conflicts new (open_tx ino u.journal) ≡ false
      → local_rename_not_same_parent_dst io out parent i check_dst_ino new_path 0 u
        ≡ (ok success, put_in)
  unfolding local_rename_not_same_parent_dst log_mkreg replace_child
  put_in_lem new_path check_dst_ino named nothing absent free =
      let m = r.mirror in
      let number : (placed i).core.i_ino ≡ (u.inodes i).core.i_ino =
        ap (λ (c : Core). c.i_ino) (placed_core i) in
      let key : (placed parent).core.i_ino ≡ ino =
        ap (λ (c : Core). c.i_ino) (placed_core parent) ∙ r.number in
      let u1 : World io.State = record u {
        asked = u.asked + 1;
        inodes = placed;
        tables =
            store a (with_child name i (u.inodes i).core.i_ino m.listing (u.tables a)) u.tables;
      } in
      rw
        (
          named,
          get_cached_at io out u r.number r.filed r.valid,
          nothing,
          number,
          create_child_lem name i (u.inodes i).core.i_ino m.listing (u.tables a)
              (no_child m name absent) m.listed,
          journalctl_at io out new u1 key r.reached r.rounds free,
        )
        refl
