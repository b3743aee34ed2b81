-- ===== src/FuseOps/MoveAcross.antt =====
-- rename() of client/fs_ops/fuse_ops.cpp from one directory to another, where this client leads both.
mod Examples
use mathlib.Core.Path.{subst}
use nmfs.Prelude.{
  ◌∷◌, ◌++◌, ap, sym, ◌∙◌, ℕ, suc, ◌+◌, ◌<◌, Bytes, ◌==◌, ==-refl, ◌≡◌, refl, true, false, none,
  some, arith,
}
use nmfs.Prelude.Tests.{◌==◌ as nat_eq}
use nmfs.Exec.{ok, success, Gives, gives, Gives-map}
use nmfs.Map.{find}
use nmfs.Uuid.{Uuid, nil_uuid}
use nmfs.Rados.Store.{IoCtx}
use nmfs.Path.{get_filename_from_path, get_parent_dir_path}
use nmfs.Inode.{Inode, Core, MetaLocation}
use nmfs.Lease.Client.{is_valid}
use nmfs.Transaction.Conflict.{conflicts, has_inode, has_deleted_inode}
use nmfs.Transaction.Effect.{Names}
use nmfs.Journal.{store}
use nmfs.Journal.Sound.{Reach-IsSound}
use nmfs.Journal.OpenEntry.{open_tx, logged, open_tx-logged, logged-Reach}
use nmfs.DentryTable.{DentryTable}
use nmfs.Dentry.{get_child_ino}
use nmfs.LocalOps.Paradox.{is_paradox_below}
use nmfs.LocalOps.Rename.{
  is_paradox, local_rename_not_same_parent_src, local_rename_not_same_parent_dst,
}
use nmfs.DentryTable.Inodes.{root_name}
use nmfs.DirectoryTable.PathTraversal.{path_traversal}
use nmfs.LocalOps.Mirror.{Mirrors, names_in, with_child}
use nmfs.LocalOps.Mirror.Changes.{
  names_in-with_child, names_in-without_child, with_child-Mirrors, without_child-Mirrors,
  removes_reg_free, makes_reg_free, Mirrors-other,
}
use nmfs.LocalOps.Ready.{IsReady, store_self}
use nmfs.LocalOps.Steps.{located, check_lem}
use nmfs.LocalOps.NameChange.{HasName, makes_reg_effect, removes_reg_effect}
use nmfs.LocalOps.RenameNames.{no_name}
use nmfs.LocalOps.MoveAcross.{gone, taken_out, take_out, new, put_in, put_in_lem, get_cached_at}
use nmfs.FuseOps.{caught, by_loc, table_of}
use nmfs.FuseOps.Local.{later-IsReady}
use nmfs.FuseOps.Rename.{rename, rename_across, rename_src, rename_dst}
use nmfs.World.{World, Outside}

elsewhere : {A : Type 0} (a b : ℕ) (x : A) (f : ℕ → A) → nat_eq a b ≡ false → store a x f b ≡ f b
elsewhere a b x f h = rw h refl

-- The local case of the two halves.
module _ (io : IoCtx) (out : Outside) (t : DentryTable) (local : t.loc ≡ MetaLocation.local) (i : ℕ)
    (path : Bytes) (w : World io.State) where
  src_here :
      {target : ℕ} {w' : World io.State}
      → local_rename_not_same_parent_src io out i path 0 w ≡ (ok target, w')
      → rename_src io out t i path 0 w ≡ (ok (some target), w')
  unfolding rename_src by_loc
  src_here e = rw (local, e) refl

  dst_here :
      (target : ℕ) (check_dst_ino : Uuid)
      → rename_dst io out t i target check_dst_ino path 0 w
        ≡ local_rename_not_same_parent_dst io out i target check_dst_ino path 0 w
  unfolding rename_dst by_loc
  dst_here target check_dst_ino = rw local refl

module _ {io : IoCtx} {out : Outside} {base base' : Names} {ino ino' : Uuid} {a b parent dst : ℕ}
    {w : World io.State} (r : IsReady io out base ino a parent w)
    (r' : IsReady io out base' ino' b dst w)
    (still : is_valid ino (out.now (w.asked + 1)) w.leases ≡ true)
    (still' : is_valid ino' (out.now (w.asked + 1 + 1)) w.leases ≡ true)
    (apart : nat_eq a b ≡ false) (apart' : nat_eq b a ≡ false) (other : (ino == ino') ≡ false)
    (other' : (ino' == ino) ≡ false) (old_name new_name : Bytes) {old : Uuid} (i : ℕ)
    (there : names_in (w.tables a) old_name ≡ some old)
    (absent : names_in (w.tables b) new_name ≡ none)
    (kept : has_deleted_inode (w.inodes i).core.i_ino (open_tx ino w.journal) ≡ false)
    (fresh : has_inode (w.inodes i).core.i_ino (open_tx ino' w.journal) ≡ false) where
  abbrev r1 : IsReady io out base ino a parent (record w { asked = w.asked + 1 })
  r1 = later-IsReady r still

  -- The name is out of its directory, and not yet in the new one.
  abbrev between : World io.State
  between = taken_out r1 old_name i

  number : (between.inodes i).core.i_ino ≡ (w.inodes i).core.i_ino
  number = ap (λ (c : Core). c.i_ino) (located i i w.inodes)

  gone_free : conflicts (gone r1 old_name i) (open_tx ino w.journal) ≡ false
  gone_free = removes_reg_free r.mirror old_name _ _ there (rw number kept)

  new_table : between.tables b ≡ w.tables b
  new_table = elsewhere a b _ w.tables apart

  r2_mirror : Mirrors base' ino' (between.tables b) between.journal
  r2_mirror = rw new_table (Mirrors-other r.reached r'.mirror (gone r1 old_name i) ino other)

  abbrev r2 : IsReady io out base' ino' b dst between
  r2 = record {
    filed = r'.filed;
    valid = still';
    number = ap (λ (c : Core). c.i_ino) (located i dst w.inodes) ∙ r'.number;
    low = r'.low;
    reached = logged-Reach r.reached (gone r1 old_name i) ino;
    fuel = r'.fuel;
    rounds = r'.rounds;
    mirror = r2_mirror;
  }

  abbrev moved : World io.State
  moved = put_in r2 new_name i

  placed_number : (moved.inodes i).core.i_ino ≡ (between.inodes i).core.i_ino
  placed_number = ground arith

  table_free : names_in (between.tables b) new_name ≡ none
  table_free = rw new_table absent

  new_free : conflicts (new r2 new_name i) (open_tx ino' between.journal) ≡ false
  new_free =
      let untouched : open_tx ino' between.journal ≡ open_tx ino' w.journal =
        open_tx-logged (gone r1 old_name i) ino ino' w.journal (Reach-IsSound r.reached)
        ∙ rw other refl in
      makes_reg_free r2_mirror new_name _ _ table_free (
        ap (λ t. has_inode (moved.inodes i).core.i_ino t) untouched
        ∙ ap (λ k. has_inode k (open_tx ino' w.journal)) (placed_number ∙ number)
        ∙ fresh)

  old_left : HasName base ino a old_name none w moved
  old_left =
      let m = r1.mirror in
      let left : moved.tables a ≡ between.tables a = elsewhere b a _ between.tables apart' in
      let out_of = left ∙ store_self a _ w.tables in
      record {
        mirror = rw out_of (
            Mirrors-other r2.reached
              (without_child-Mirrors r.reached m (gone r1 old_name i) old_name gone_free
                (λ n. removes_reg_effect _ old_name _ n _))
              (new r2 new_name i) ino' other');
        names = λ n. rw out_of (names_in-without_child m old_name n);
      }

  new_taken : HasName base' ino' b new_name (some (w.inodes i).core.i_ino) w moved
  new_taken =
      let table =
        with_child new_name i (between.inodes i).core.i_ino r2_mirror.listing (between.tables b) in
      let placed : moved.tables b ≡ table = store_self b table between.tables in
      record {
        mirror = rw placed (
            with_child-Mirrors r2.reached r2_mirror (new r2 new_name i) new_name i
              (between.inodes i).core.i_ino new_free
              (makes_reg_effect _ new_name _ _ _ placed_number));
        names = λ n. rw placed (
            names_in-with_child r2_mirror new_name i (between.inodes i).core.i_ino n
            ∙ rw (number, new_table) refl);
      }

  -- Where the two directories are found on the way, and are local.
  module _ (t : DentryTable) (before w0 w0' : World io.State) (src_dir dst_dir : Bytes)
      (followed : path_traversal io out src_dir before ≡ (ok parent, w0))
      (looked_up : table_of io out parent w0 ≡ (ok t, w0')) (local : t.loc ≡ MetaLocation.local)
      (followed' : path_traversal io out dst_dir w0' ≡ (ok dst, w))
      (child : find old_name (w.tables a).child_inodes ≡ some i)
      (no_root : (new_name == root_name) ≡ false) (old_path new_path : Bytes)
      (old_named : get_filename_from_path old_path ≡ ok old_name)
      (new_named : get_filename_from_path new_path ≡ ok new_name) where
    rename_across_lem :
        rename_across io out src_dir dst_dir old_path new_path 0 before ≡ (ok success, moved)
    unfolding rename_across
    rename_across_lem =
        let m = r'.mirror in
        let w1 : World io.State = record w { asked = w.asked + 1 } in
        let nowhere : find new_name m.listing.child_list ≡ none = sym (rw m.listed refl) ∙ absent in
        rw
          (
            followed,
            looked_up,
            followed',
            get_cached_at io out w r'.number r'.filed r'.valid,
            new_named,
            check_lem io out b new_name w1 m.listing m.is_local m.listed no_root,
            src_here io out t local parent old_path w1
                (take_out r1 old_name i old_path old_named child gone_free),
            dst_here io out (w.tables b) m.is_local dst new_path between i
                (get_child_ino new_name m.listing),
            put_in_lem r2 new_name i new_path (get_child_ino new_name m.listing) new_named
                (no_name new_name m.listing nowhere) table_free new_free,
          )
          refl

    -- FUSE's rename() without flags, of two paths with different parents, in a client that leads both
    -- parents (their tables are held under leases that outlast the call, the journal was reached by
    -- the journal's steps, and the names in each table are those of the pool under its open
    -- transaction, once both paths have been followed), which have two tables and two inode numbers:
    -- it returns 0, if the old directory has the old name with its inode in memory, the new one does
    -- not have the new name, which is not "/", the open transaction of the old one has not deleted
    -- that inode, and that of the new one does not hold it. Then the old directory does not have the
    -- old name, the new one has the new name for the inode's number, both have all other names as they
    -- had when the paths had been followed, and the names in each table are again those of the pool
    -- under its open transaction.
    pub rename-HasName :
        get_parent_dir_path old_path ≡ ok src_dir
        → get_parent_dir_path new_path ≡ ok dst_dir
        → (src_dir == dst_dir) ≡ false
        → (old_path == new_path) ≡ false
        → Gives (rename io out old_path new_path 0 before) (λ code w'.
          (code ≡ success)
          × HasName base ino a old_name none w w'
          × HasName base' ino' b new_name (some (w.inodes i).core.i_ino) w w')
    unfolding rename caught
    rename-HasName src_parent dst_parent differ differ' =
        rw (differ', src_parent, dst_parent, differ, rename_across_lem)
          (gives (refl, old_left, new_taken))

    -- The same where the new path is the old one, a delimiter and more, so that the test of
    -- local_rename_same_parent() would refuse the move, and the inode under the old name is that of
    -- the new path's parent: in a client that leads the two parents, and under the same conditions on
    -- their names and transactions, rename() returns 0. Then the directory is not in its parent any
    -- more, and has an entry for itself.
    pub rename_into_itself :
        (rest : Bytes)
        → new_path ≡ old_path ++ b'/' ∷ rest
        → (w.inodes i).core.i_ino ≡ ino'
        → get_parent_dir_path old_path ≡ ok src_dir
        → get_parent_dir_path new_path ≡ ok dst_dir
        → (src_dir == dst_dir) ≡ false
        → (old_path == new_path) ≡ false
        → (is_paradox old_path new_path ≡ ok true)
          × Gives (rename io out old_path new_path 0 before) (λ code w'.
            (code ≡ success)
            × HasName base ino a old_name none w w'
            × HasName base' ino' b new_name (some ino') w w')
    rename_into_itself rest below itself src_parent dst_parent differ differ' = (
      ap (is_paradox old_path) below ∙ is_paradox_below old_path rest,
      Gives-map (rename-HasName src_parent dst_parent differ differ') (λ code w' h.
          (h.0, h.1, subst (λ k. HasName base' ino' b new_name (some k) w w') itself h.2)),
    )
