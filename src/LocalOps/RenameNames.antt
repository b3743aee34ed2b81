-- ===== src/LocalOps/RenameNames.antt =====
-- local_rename_same_parent() of client/fs_ops/local_ops.cpp against the names of the directory.
use nmfs.Prelude.{
  sym, ap, ◌∙◌, ℕ, ◌<◌, Bytes, Bool, ◌==◌, ==-refl, ◌≡◌, refl, Option, true, false, none, some, ◌∷◌,
  ◌++◌, arith, if◌then◌else◌,
}
use nmfs.Exec.{ok, err, out_of_range, einval, Gives, gives, Gives-bind, Gives-map, success}
use nmfs.Map.{find}
use nmfs.Uuid.{Uuid, nil_uuid}
use nmfs.Rados.Store.{IoCtx}
use nmfs.Inode.{Inode}
use nmfs.Dentry.{Dentry, get_child_ino}
use nmfs.Transaction.{Transaction}
use nmfs.Transaction.Calls.{removes_reg, makes_reg}
use nmfs.Transaction.Conflict.{conflicts, has_inode, has_deleted_inode}
use nmfs.Transaction.Effect.{Names, apply-file_effect, file_effect}
use nmfs.Journal.{Journal}
use nmfs.Journal.Steps.{Reach}
use nmfs.Journal.Sound.{Reach-IsSound}
use nmfs.Journal.OpenEntry.{open_tx, logged, open_tx-logged, logged-Reach}
use nmfs.Path.Split.{IsName, path_parts}
use nmfs.DentryTable.{DentryTable}
use nmfs.DentryTable.Inodes.{root_name}
use nmfs.LocalOps.{log_rmreg, log_mkreg}
use nmfs.LocalOps.Rename.{local_rename_same_parent, rename_names, replace_child, move_child}
use nmfs.LocalOps.Paradox.{is_paradox_apart, is_paradox_same, is_paradox_below}
use nmfs.LocalOps.Mirror.{Mirrors, names_in, taken}
use nmfs.LocalOps.Mirror.Changes.{
  names_in-with_child, names_in-without_child, with_child-Mirrors, without_child-Mirrors,
  removes_reg_free, makes_reg_free,
}
use nmfs.LocalOps.Ready.{IsReady, get_cached}
use nmfs.LocalOps.NameChange.{makes_reg_effect, removes_reg_effect}
use nmfs.LocalOps.Steps.{
  At, here, touch-At, create-At, delete-At, child-At, check-At, log-At, At-Mirrors,
}
use nmfs.World.{World, Outside}

given_up :
    (ino : Uuid) (tx : Transaction) → find ino tx.f_inodes ≡ some none → has_inode ino tx ≡ false
given_up ino tx e = ground arith

-- A file that a directory has given up may come back to it.
removed_free :
    {io : IoCtx} {to_string : Uuid → Bytes} {j : Journal} (r : Reach io to_string j) (ino : Uuid)
    (s f : Inode) (name : Bytes)
    → conflicts (removes_reg s name f) (open_tx ino j) ≡ false
    → has_inode f.core.i_ino (open_tx ino (logged (removes_reg s name f) ino j)) ≡ false
unfolding file_effect
removed_free {j = j} r ino s f name h =
    let c = removes_reg s name f in
    let (tx', e) = taken r c ino h in
    let now : open_tx ino (logged c ino j) ≡ tx' =
      open_tx-logged c ino ino j (Reach-IsSound r) ∙ rw (==-refl ino, e) refl in
    let gone : find f.core.i_ino tx'.f_inodes ≡ some none =
      apply-file_effect c (open_tx ino j) tx' f.core.i_ino e ∙ rw (==-refl f.core.i_ino) refl in
    rw now (given_up f.core.i_ino tx' gone)

still_none : {o : Option Uuid} (b : Bool) → o ≡ none → (if b then none else o) ≡ none
still_none b e = ground arith

pub no_name :
    (name : Bytes) (d : Dentry)
    → find name d.child_list ≡ none
    → (get_child_ino name d == nil_uuid) ≡ true
unfolding get_child_ino
no_name name d e = rw (e, get_child_ino) (==-refl nil_uuid)

module _ {io : IoCtx} {out : Outside} {base : Names} {ino : Uuid} {a parent : ℕ}
    {w : World io.State} (r : IsReady io out base ino a parent w) (old_name new_name : Bytes)
    {old : Uuid} (there : names_in (w.tables a) old_name ≡ some old)
    (absent : names_in (w.tables a) new_name ≡ none) (no_root : (new_name == root_name) ≡ false)
    {i : ℕ} (child : find old_name (w.tables a).child_inodes ≡ some i) (low : i < w.next)
    (kept : has_deleted_inode (w.inodes i).core.i_ino (open_tx ino w.journal) ≡ false) where
  -- What the directory has once the entry has moved.
  abbrev Moved : World io.State → Type 0
  Moved w' =
      Mirrors base ino (w'.tables a) w'.journal
      × ((n : Bytes)
          → names_in (w'.tables a) n ≡ (
              if new_name == n
              then some (w.inodes i).core.i_ino
              else if old_name == n
              then none
              else names_in (w.tables a) n))

  move_child-Moved :
      {v2 : World io.State}
      → At w a (w.tables a) w.journal v2
      → Gives (move_child io out parent a old_name new_name i v2) (λ _ w'. Moved w')
  unfolding move_child log_rmreg log_mkreg
  move_child-Moved h2 =
      let m = r.mirror in
      (Gives-bind (delete-At h2 m old_name there) (λ _ v3 h3.
        let gone = removes_reg (v3.inodes parent) old_name (v3.inodes i) in
        let no =
          removes_reg_free m old_name (v3.inodes parent) (v3.inodes i) there
            (rw (h3.numbers i low) kept) in
        let m1 =
          without_child-Mirrors r.reached m gone old_name no
            (λ n. removes_reg_effect _ old_name (v3.inodes parent) n (v3.inodes i)) in
        let absent1 =
          names_in-without_child m old_name new_name ∙ still_none (old_name == new_name) absent in
        Gives-bind (log-At h3 out gone r.reached r.rounds (h3.numbers parent r.low ∙ r.number) no)
          (λ _ v4 h4.
            Gives-bind (create-At h4 m1 new_name i (v4.inodes i).core.i_ino absent1) (λ _ v5 h5.
              let new = makes_reg (v5.inodes parent) new_name (v5.inodes i) in
              let same = h5.numbers i low ∙ sym (h4.numbers i low) in
              let free = makes_reg_free m1 new_name (v5.inodes parent) (v5.inodes i) absent1 (
                rw (h5.numbers i low ∙ sym (h3.numbers i low))
                  (removed_free r.reached ino (v3.inodes parent) (v3.inodes i) old_name no)) in
              let r1 = logged-Reach r.reached gone ino in
              Gives-map (log-At h5 out new r1 r.rounds (h5.numbers parent r.low ∙ r.number) free)
                (λ _ v6 h6. (
                  At-Mirrors h6 (
                      with_child-Mirrors r1 m1 new new_name i (v4.inodes i).core.i_ino free
                        (makes_reg_effect _ new_name (v5.inodes parent) (v5.inodes i) _ same)),
                  λ n. rw (h6.table) (
                      names_in-with_child m1 new_name i _ n
                      ∙ rw (h4.numbers i low, names_in-without_child m old_name n) refl),
                ))))))

  rename_names_lem :
      Gives
        (rename_names io out parent old_name new_name 0 w)
        (λ code w'. (code ≡ success) × Moved w')
  unfolding rename_names replace_child
  rename_names_lem =
      let m = r.mirror in
      let nowhere : find new_name m.listing.child_list ≡ none = sym (rw m.listed refl) ∙ absent in
      rw (r.number, get_cached io out ino a w r.filed r.valid)
        (Gives-bind (child-At io out (here a w) old_name m.is_local nil_uuid child) (λ c v k.
          rw (k.0) (
            Gives-bind (check-At io out k.1 new_name m.is_local m.listed no_root) (λ dst v1 q.
              Gives-bind (touch-At q.1 out parent) (λ _ v2 h2.
                rw (q.0, no_name new_name m.listing nowhere)
                  (Gives-bind (move_child-Moved h2) (λ _ v3 g. gives (refl, g))))))))

-- No name of a file is that of the root.
name_not_root : (c : ℕ) (name : Bytes) → IsName (c ∷ name) → ((c ∷ name) == root_name) ≡ false
unfolding ◌==◌
name_not_root c name h = ground arith

apart :
    (t : DentryTable) {old : Uuid} {x y : Bytes}
    → names_in t x ≡ some old
    → names_in t y ≡ none
    → x ≡ y
    → ⊥
apart t p q e = let s = ap (names_in t) e in cc (p, q, s)

module _ {io : IoCtx} {out : Outside} {base : Names} {ino : Uuid} {a parent : ℕ}
    {w : World io.State} (r : IsReady io out base ino a parent w) where
  -- In a client that leads the directory (its table is held under a lease that is not over, its
  -- journal was reached by the journal's steps, and the names in the table are those of the pool
  -- under the open transaction), local_rename_same_parent() without flags, from a name that the
  -- directory has to one that it does not have, of paths with the same beginning, returns 0, if
  -- the child's inode is in memory and the open transaction has not deleted it. Then the table has
  -- the new name for the number of that inode, does not have the old name, and has all others as
  -- before; and the names of the table are again those of the pool under the open transaction.
  pub local_rename_same_parent-Moved :
      (dir : Bytes) (b c : ℕ) (old new : Bytes) {old_ino : Uuid} {i : ℕ}
      → IsName (b ∷ old)
      → IsName (c ∷ new)
      → names_in (w.tables a) (b ∷ old) ≡ some old_ino
      → names_in (w.tables a) (c ∷ new) ≡ none
      → find (b ∷ old) (w.tables a).child_inodes ≡ some i
      → i < w.next
      → has_deleted_inode (w.inodes i).core.i_ino (open_tx ino w.journal) ≡ false
      → Gives
          (local_rename_same_parent io out parent
            (dir ++ b'/' ∷ b ∷ old)
            (dir ++ b'/' ∷ c ∷ new)
            0
            w)
          (λ code w'.
            (code ≡ success)
            × (Mirrors base ino (w'.tables a) w'.journal
                × ((n : Bytes)
                    → names_in (w'.tables a) n ≡ (
                        if (c ∷ new) == n
                        then some (w.inodes i).core.i_ino
                        else if (b ∷ old) == n
                        then none
                        else names_in (w.tables a) n))))
  unfolding local_rename_same_parent
  local_rename_same_parent-Moved dir b c old new ho hn there absent child low kept =
      rw
        (
          is_paradox_apart dir (b ∷ old) (c ∷ new) hn (apart (w.tables a) there absent),
          (path_parts dir old b ho).1,
          (path_parts dir new c hn).1,
        )
        (rename_names_lem r (b ∷ old) (c ∷ new) there absent (name_not_root c new hn) child low
          kept)

module _ (io : IoCtx) (out : Outside) (parent flags : ℕ) (path : Bytes) (w : World io.State) where
  -- local_rename_same_parent() throws out_of_range where both paths are the same, and returns
  -- -EINVAL where the new path lies below the old one. Nothing is changed in either case.
  pub rename_refused :
      (local_rename_same_parent io out parent path path flags w ≡ (err out_of_range, w))
      × ((rest : Bytes)
          → local_rename_same_parent io out parent path (path ++ b'/' ∷ rest) flags w
            ≡ (ok einval, w))
  unfolding local_rename_same_parent
  rename_refused = (rw (is_paradox_same path), λ rest. rw (is_paradox_below path rest))
