-- ===== src/LocalOps/Remove.antt =====
-- local_unlink() and local_rmdir_down() of client/fs_ops/local_ops.cpp against the names of the
-- directory.
use nmfs.Prelude.{
  ap, ◌∙◌, ℕ, ◌<◌, Bytes, ◌≡◌, refl, true, false, none, some, Option-cases, inl, inr,
}
use nmfs.Prelude.Tests.{◌==◌}
use nmfs.Exec.{ok, Gives, gives, Gives-bind, Gives-map}
use nmfs.Map.{find}
use nmfs.Uuid.{Uuid, nil_uuid}
use nmfs.Rados.Store.{IoCtx}
use nmfs.Rados.Key as Key
use nmfs.Rados.{remove}
use nmfs.Inode.{Core}
use nmfs.Transaction.Calls.{removes_reg, removes_dir}
use nmfs.Transaction.Conflict.{has_deleted_inode}
use nmfs.Transaction.Effect.{Names}
use nmfs.Journal.OpenEntry.{open_tx}
use nmfs.DirectoryTable.{delete_dentry_table}
use nmfs.LocalOps.{log_rmreg, log_rmdir}
use nmfs.LocalOps.Files.{local_unlink, one_fewer}
use nmfs.LocalOps.Directories.{local_rmdir_down}
use nmfs.LocalOps.Mirror.{names_in}
use nmfs.LocalOps.Mirror.Changes.{without_child-Mirrors, removes_reg_free, removes_dir_free}
use nmfs.LocalOps.Ready.{IsReady, get_cached}
use nmfs.LocalOps.NameChange.{HasName, has_none, removes_reg_effect, removes_dir_effect}
use nmfs.LocalOps.Steps.{here, touch-At, delete-At, child-At, data-At, log-At}
use nmfs.World.{World, Outside}

last_link : (nlink : ℕ) → nlink ≡ 1 → (one_fewer nlink == 0) ≡ true
last_link nlink e = rw e refl

delete_dentry_table-Gives :
    {S : Type 0} (ino : Uuid) (v : World S)
    → Gives (delete_dentry_table ino v) (λ _ v'. (v'.tables ≡ v.tables) × (v'.journal ≡ v.journal))
unfolding delete_dentry_table
delete_dentry_table-Gives ino v = elim (Option-cases (find ino v.dentry_tables)) [
  | inl e ↦ rw (e, delete_dentry_table) (gives (refl, refl))
  | inr (a, e) ↦ rw (e, delete_dentry_table) (gives (refl, refl))
]

module _ {io : IoCtx} {out : Outside} {base : Names} {ino : Uuid} {a parent : ℕ}
    {w : World io.State} (r : IsReady io out base ino a parent w) (name : Bytes) {old : Uuid}
    (there : names_in (w.tables a) name ≡ some old) where
  -- In a client that leads the directory (its table is held under a lease that is not over, its
  -- journal was reached by the journal's steps, and the names in the table are those of the pool
  -- under the open transaction), local_unlink() of a name that the directory has, whose inode is
  -- in memory with one link, returns, if the open transaction has not deleted that inode and the
  -- file's objects can be removed. Then neither the table nor the open transaction has the name,
  -- and both have all other names as before.
  pub local_unlink-HasName :
      {i : ℕ} {pool : io.State}
      → find name (w.tables a).child_inodes ≡ some i
      → i < w.next
      → (w.inodes i).core.i_nlink ≡ 1
      → has_deleted_inode (w.inodes i).core.i_ino (open_tx ino w.journal) ≡ false
      → remove io out.fuel Key.file_data (out.to_string (w.inodes i).core.i_ino) w.data_pool
        ≡ (ok tt, pool)
      → Gives (local_unlink io out parent name w) (λ _ w'. HasName base ino a name none w w')
  unfolding local_unlink log_rmreg
  local_unlink-HasName {i} {pool} child low one kept run =
      let m = r.mirror in
      rw (r.number, get_cached io out ino a w r.filed r.valid)
        (Gives-bind (child-At io out (here a w) name m.is_local nil_uuid child) (λ c v k.
          let key = out.to_string (v.inodes i).core.i_ino in
          let run' : remove io out.fuel Key.file_data key w.data_pool ≡ (ok tt, pool) =
            rw (k.3 i) run in
          rw (k.0, last_link (v.inodes i).core.i_nlink (ap (λ (x : Core). x.i_nlink) (k.3 i) ∙ one))
            (Gives-bind (data-At k.1 (remove io out.fuel Key.file_data key) k.2 run') (λ _ v1 d.
              Gives-bind (delete-At d.0 m name there) (λ _ v2 h2.
                Gives-bind (touch-At h2 out parent) (λ _ v3 h3.
                  let no =
                    removes_reg_free m name (v3.inodes parent) (v3.inodes i) there
                      (rw (h3.numbers i low) kept) in
                  Gives-map
                    (log-At h3 out (removes_reg (v3.inodes parent) name (v3.inodes i)) r.reached
                      r.rounds (h3.numbers parent r.low ∙ r.number) no)
                    (λ _ v4 h4. has_none a name m refl refl h4 (
                      without_child-Mirrors r.reached m
                        (removes_reg (v3.inodes parent) name (v3.inodes i)) name no
                        (λ n. removes_reg_effect _ name (v3.inodes parent) n (v3.inodes i))))))))))

  -- In a client that leads the directory (its table is held under a lease that is not over, its
  -- journal was reached by the journal's steps, and the names in the table are those of the pool
  -- under the open transaction), local_rmdir_down() of a name that the directory has returns. Then
  -- neither the table nor the open transaction has the name, and both have all other names as
  -- before.
  pub local_rmdir_down-HasName :
      (target_ino : Uuid)
      → Gives
          (local_rmdir_down io out parent target_ino name w)
          (λ _ w'. HasName base ino a name none w w')
  unfolding local_rmdir_down log_rmdir
  local_rmdir_down-HasName target_ino =
      let m = r.mirror in
      rw (r.number, get_cached io out ino a w r.filed r.valid)
        (Gives-bind (delete-At (here a w) m name there) (λ _ v2 h2.
          Gives-bind (touch-At h2 out parent) (λ _ v3 h3.
            let no = removes_dir_free m name (v3.inodes parent) target_ino there in
            Gives-bind
              (log-At h3 out (removes_dir (v3.inodes parent) name target_ino) r.reached r.rounds
                (h3.numbers parent r.low ∙ r.number) no)
              (λ _ v4 h4. Gives-bind (delete_dentry_table-Gives target_ino v4) (λ _ v5 d. gives (
                has_none a name m d.0 d.1 h4 (
                  without_child-Mirrors r.reached m (removes_dir (v3.inodes parent) name target_ino)
                    name no (λ n. removes_dir_effect _ name (v3.inodes parent) n target_ino))))))))
