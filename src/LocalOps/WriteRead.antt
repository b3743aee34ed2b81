-- ===== src/LocalOps/WriteRead.antt =====
-- local_write() and local_read() of client/fs_ops/local_ops.cpp: the bytes of a file, its size, and
-- what the journal gets of it.
use nmfs.Prelude.{
  ℕ, suc, ◌+◌, Bytes, ◌≡◌, refl, ap, ◌∙◌, some, length, ltb, if◌then◌else◌, Bool-cases, inl, inr,
}
use nmfs.Exec.{ok, Gives, gives, Gives-bind}
use nmfs.Uuid.{Uuid}
use nmfs.Inode.{Inode}
use nmfs.Inode.Setters.{set_size}
use nmfs.Rados.Store.{IoCtx, IsStore}
use nmfs.Rados.Key as Key
use nmfs.Rados.Hole.{IsCapped}
use nmfs.Rados.Read.{read-write}
use nmfs.Transaction.Calls.{changes_reg}
use nmfs.Journal.Steps.{Reach}
use nmfs.Journal.OpenEntry.{logged}
use nmfs.LocalOps.{has_flag}
use nmfs.LocalOps.Files.{local_write, local_read, grow, o_append}
use nmfs.LocalOps.Ready.{log_chreg-Gives, store_self}
use nmfs.LocalOps.Steps.{written}
use nmfs.World.{World, Outside}

module _ {io : IoCtx} (st : IsStore io) (out : Outside) (w : World io.State) (i : ℕ) {p_ino : Uuid}
    (parent : (w.inodes i).p_ino ≡ some p_ino) (reached : Reach io out.to_string w.journal)
    {fuel : ℕ} (rounds : out.fuel ≡ suc fuel) where
  -- Where a write begins: behind the end, if the file is open for appending.
  abbrev pub start_of : ℕ → ℕ → ℕ
  start_of offset flags = if has_flag flags o_append then (w.inodes i).core.i_size else offset

  -- On a cluster where no call fails, in a client whose journal was reached by the journal's steps
  -- and which has a round at least for them: local_write() on a file, whose parent is set in its
  -- inode and no object of which is larger than the object size, returns the number of the bytes. A local_read() of as many bytes from
  -- where the write began, which is the file's old end if the file is open for appending, returns
  -- the bytes. The size of the inode is the old one or the end of the write, whichever is larger,
  -- and the journal gets the inode just where the size has grown.
  pub local_write-local_read :
      (buffer : Bytes) (offset flags : ℕ)
      → IsCapped st Key.file_data (out.to_string (w.inodes i).core.i_ino) w.data_pool
      → Gives (local_write io out i buffer offset flags w) (λ n w'.
        (n ≡ length buffer)
        × (local_read io out i (length buffer) (start_of offset flags) w' ≡ (ok buffer, w'))
        × ((w'.inodes i).core.i_size ≡ (
            if ltb (w.inodes i).core.i_size (start_of offset flags + length buffer)
            then start_of offset flags + length buffer
            else (w.inodes i).core.i_size))
        × (w'.journal ≡ (
            if ltb (w.inodes i).core.i_size (start_of offset flags + length buffer)
            then logged (changes_reg (w'.inodes i)) p_ino w.journal
            else w.journal)))
  unfolding local_write local_read grow
  local_write-local_read buffer offset flags capped =
      let key = out.to_string (w.inodes i).core.i_ino in
      let (s', run, back) =
        read-write st Key.file_data key buffer (start_of offset flags) w.data_pool capped in
      elim (Bool-cases (ltb (w.inodes i).core.i_size (start_of offset flags + length buffer))) [
        | inl e ↦
            rw (run, e)
              (let stop = start_of offset flags + length buffer in
                let v : World io.State = record (written i (set_size stop) w) { data_pool = s' } in
                let now = store_self i (set_size stop (w.inodes i)) w.inodes in
                Gives-bind
                  (log_chreg-Gives io out i v (ap (λ (x : Inode). x.p_ino) now ∙ parent) reached
                    rounds)
                  (λ _ v' h. gives (rw h (refl, rw (now, back) refl, rw now refl, refl))))
        | inr e ↦ rw (run, e) (gives (refl, rw back refl, refl, refl))
      ]
