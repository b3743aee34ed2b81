-- ===== src/LocalOps/Create.antt =====
-- local_create() and local_mkdir() of client/fs_ops/local_ops.cpp against the names of the directory.
use nmfs.Prelude.{ap, ◌∙◌, ℕ, Bytes, ◌==◌, ◌≡◌, refl, false, none, some}
use nmfs.Exec.{Gives, gives, Gives-bind, Gives-map}
use nmfs.Uuid.{Uuid}
use nmfs.Rados.Store.{IoCtx}
use nmfs.Inode.{Inode}
use nmfs.Transaction.Calls.{makes_reg, makes_dir, makes_self}
use nmfs.Transaction.Conflict.{conflicts, has_inode}
use nmfs.Transaction.Effect.{Names}
use nmfs.Journal.OpenEntry.{open_tx, logged-Reach}
use nmfs.Dentry.{new_dentry}
use nmfs.Inode.Setters.{set_size}
use nmfs.LocalOps.{log_mkreg, log_mkdir, log_mkself}
use nmfs.LocalOps.Directories.{local_mkdir, dir_inode_size}
use nmfs.LocalOps.Files.{local_create}
use nmfs.LocalOps.Mirror.{names_in}
use nmfs.LocalOps.Mirror.Changes.{with_child-Mirrors, makes_reg_free, makes_dir_free, Mirrors-other}
use nmfs.LocalOps.Ready.{IsReady, get_cached, create_inode-Kept, open_handle-Kept, opened}
use nmfs.LocalOps.NameChange.{
  HasName, has_new, first_At, Kept-low, makes_reg_effect, makes_dir_effect,
}
use nmfs.LocalOps.Steps.{touch-At, create-At, log-At, written, At-written}
use nmfs.World.{World, Outside}

module _ {io : IoCtx} {out : Outside} {base : Names} {ino : Uuid} {a parent : ℕ}
    {w : World io.State} (r : IsReady io out base ino a parent w) (name : Bytes)
    (absent : names_in (w.tables a) name ≡ none) where
  -- In a client that leads the directory (its table is held under a lease that is not over, its
  -- journal was reached by the journal's steps, and the names in the table are those of the pool
  -- under the open transaction), local_create() of a name that the directory does not have returns
  -- a handle, if no new inode number is that of a file in the open transaction and no new handle
  -- is in use. Then the table and the open transaction both have the name for the new inode's
  -- number and all other names as before, so that the names of the table are again those of the
  -- pool under the transaction; and the handle is open on the new inode.
  pub local_create-HasName :
      (mode : ℕ)
      → ((n : ℕ) → has_inode (out.fresh_ino n) (open_tx ino w.journal) ≡ false)
      → ((n : ℕ) → w.open_context (out.fresh_handle n) ≡ none)
      → Gives (local_create io out parent name mode w) (λ fh w'.
        (n : ℕ) × (i : ℕ) × HasName base ino a name (some (out.fresh_ino n)) w w'
        × (opened fh w' ≡ some i)
        × ((w'.inodes i).core.i_ino ≡ out.fresh_ino n))
  unfolding local_create log_mkreg
  local_create-HasName mode fresh free =
      let m = r.mirror in
      rw (r.number, get_cached io out ino a w r.filed r.valid)
        (Gives-bind (create_inode-Kept out ino _ _) (λ i v k.
          Gives-bind (create-At (first_At a k.0) m name i _ absent) (λ _ v2 h2.
            Gives-bind (touch-At h2 out parent) (λ _ v3 h3.
              let same = h3.numbers i k.1 in
              let no =
                makes_reg_free m name (v3.inodes parent) (v3.inodes i) absent
                  (rw (same, k.3) (fresh k.2)) in
              Gives-bind
                (log-At h3 out (makes_reg (v3.inodes parent) name (v3.inodes i)) r.reached r.rounds
                  (h3.numbers parent (Kept-low k.0 r.low) ∙ k.0.numbers parent r.low ∙ r.number) no)
                (λ _ v4 h4.
                  Gives-map (open_handle-Kept out i v4 (λ n. rw (h4.context, k.0.context) (free n)))
                    (λ fh v5 o. (
                      k.2,
                      i,
                      has_new a name m o.0 o.1 i h4
                          (with_child-Mirrors r.reached m
                            (makes_reg (v3.inodes parent) name (v3.inodes i)) name i
                            (v.inodes i).core.i_ino no
                            (makes_reg_effect _ name (v3.inodes parent) (v3.inodes i) _ same))
                          k.3,
                      o.3,
                      ap (λ (f : ℕ → Inode). (f i).core.i_ino) o.2 ∙ h4.numbers i k.1 ∙ k.3,
                    )))))))

  -- In a client that leads the directory (its table is held under a lease that is not over, its
  -- journal was reached by the journal's steps, and the names in the table are those of the pool
  -- under the open transaction), local_mkdir() of a name that the directory does not have returns,
  -- if no new inode number is the directory's own. Then the table and the open transaction both
  -- have the name for the new directory's number and all other names as before; and the new
  -- directory has no entries and an inode of that number.
  pub local_mkdir-HasName :
      (mode : ℕ)
      → ((n : ℕ) → (out.fresh_ino n == ino) ≡ false)
      → Gives (local_mkdir io out parent name mode w) (λ made w'.
        (n : ℕ) × HasName base ino a name (some (out.fresh_ino n)) w w'
        × (made.1 ≡ new_dentry (out.fresh_ino n))
        × ((w'.inodes made.0).core.i_ino ≡ out.fresh_ino n))
  unfolding local_mkdir log_mkdir log_mkself conflicts
  local_mkdir-HasName mode apart =
      let m = r.mirror in
      rw (r.number, get_cached io out ino a w r.filed r.valid)
        (Gives-bind (create_inode-Kept out ino _ _) (λ i v k.
          let new = (v.inodes i).core.i_ino in
          Gives-bind (create-At (first_At a k.0) m name i new absent) (λ _ v2 h2.
            Gives-bind (touch-At h2 out parent) (λ _ v3 h3.
              let made = makes_dir (v3.inodes parent) name new in
              let no = makes_dir_free m name (v3.inodes parent) new absent in
              Gives-bind
                (log-At h3 out made r.reached r.rounds
                  (h3.numbers parent (Kept-low k.0 r.low) ∙ k.0.numbers parent r.low ∙ r.number) no)
                (λ _ v4 h4.
                  let v5 = written i (set_size dir_inode_size) v4 in
                  let h5 = At-written h4 i (set_size dir_inode_size) (λ x. refl) in
                  let r1 = logged-Reach r.reached made ino in
                  let self = makes_self (v5.inodes i) in
                  let its = h5.numbers i k.1 in
                  let m1 =
                    with_child-Mirrors r.reached m made name i new no
                      (λ n. makes_dir_effect _ name (v3.inodes parent) n new) in
                  Gives-bind
                    (log-At h5 out self {ino = (v5.inodes i).core.i_ino} r1 r.rounds refl refl)
                    (λ _ v6 h6. gives (
                      k.2,
                      has_new a name m refl refl i h6
                          (Mirrors-other r1 m1 self (v5.inodes i).core.i_ino
                            (rw (its, k.3) (apart k.2)))
                          k.3,
                      ap new_dentry k.3,
                      h6.numbers i k.1 ∙ k.3,
                    )))))))
