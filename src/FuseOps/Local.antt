-- ===== src/FuseOps/Local.antt =====
-- create() of client/fs_ops/fuse_ops.cpp in a directory that this client leads.
use nmfs.Prelude.{ℕ, ◌+◌, Bytes, ◌≡◌, refl, true, false, none, some}
use nmfs.Exec.{Result, Code, ok, Gives, gives, Gives-bind, success}
use nmfs.Uuid.{Uuid}
use nmfs.Rados.Store.{IoCtx}
use nmfs.Inode.{s_isdir}
use nmfs.Path.{get_filename_from_path}
use nmfs.Lease.Client.{is_valid}
use nmfs.Transaction.Conflict.{has_inode}
use nmfs.Transaction.Effect.{Names}
use nmfs.Journal.OpenEntry.{open_tx}
use nmfs.LocalOps.Mirror.{names_in}
use nmfs.LocalOps.Ready.{IsReady, get_cached, opened}
use nmfs.LocalOps.NameChange.{HasName}
use nmfs.LocalOps.Create.{local_create-HasName}
use nmfs.FuseOps.{caught, by_loc, table_of, parent_of_path}
use nmfs.FuseOps.Files.{create}
use nmfs.World.{World, Outside}

-- What returns is not caught.
pub Gives-caught :
    {S A : Type 0} (fail : Code → A) {x : Result A × S} {P : A → S → Type 0}
    → Gives x P
    → Gives (caught fail x) P
unfolding caught
Gives-caught fail g = rw g.returned (gives g.holds)

module _ {io : IoCtx} {out : Outside} {base : Names} {ino : Uuid} {a parent : ℕ}
    {w : World io.State} (r : IsReady io out base ino a parent w)
    (still : is_valid ino (out.now (w.asked + 1)) w.leases ≡ true) where
  -- The client is as ready once the clock has been read again.
  pub later-IsReady : IsReady io out base ino a parent (record w { asked = w.asked + 1 })
  later-IsReady = record {
    filed = r.filed;
    valid = still;
    number = r.number;
    low = r.low;
    reached = r.reached;
    fuel = r.fuel;
    rounds = r.rounds;
    mirror = r.mirror;
  }

  pub table_of_cached :
      table_of io out parent w ≡ (ok (w.tables a), record w { asked = w.asked + 1 })
  unfolding table_of
  table_of_cached = rw (r.number, get_cached io out ino a w r.filed r.valid) refl

  -- FUSE's create() of a path whose parent is followed to a directory that the client leads and is
  -- ready for, under a lease that is valid at the next two readings of the clock, returns 0 and a
  -- handle, if the mode is not that of a directory, the directory does not have the path's name,
  -- no new inode number is that of a file in the open transaction, and no new handle is in use.
  -- Then the table and the open transaction both have the name for the new inode's number and all
  -- other names as before, and the handle is open on the new inode.
  pub create-HasName :
      (path name : Bytes) (mode fh : ℕ) (before : World io.State)
      → get_filename_from_path path ≡ ok name
      → parent_of_path io out path before ≡ (ok parent, w)
      → s_isdir mode ≡ false
      → names_in (w.tables a) name ≡ none
      → ((n : ℕ) → has_inode (out.fresh_ino n) (open_tx ino w.journal) ≡ false)
      → ((n : ℕ) → w.open_context (out.fresh_handle n) ≡ none)
      → Gives (create io out path mode fh before) (λ got w'.
        (got.0 ≡ success)
        × ((n : ℕ) × (i : ℕ) × HasName base ino a name (some (out.fresh_ino n)) w w'
            × (opened got.1 w' ≡ some i)
            × ((w'.inodes i).core.i_ino ≡ out.fresh_ino n)))
  unfolding create by_loc
  create-HasName path name mode fh before named found file absent fresh free =
      rw (file, named, found, table_of_cached, r.mirror.is_local)
        (Gives-caught (λ ret. (ret, fh))
          (Gives-bind (local_create-HasName later-IsReady name absent mode fresh free) (λ fhno w' h.
            gives (refl, (h.0, h.1, record { mirror = h.2.mirror; names = h.2.names }, h.3, h.4)))))
