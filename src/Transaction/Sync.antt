-- ===== src/Transaction/Sync.antt =====
-- sync(), commit() and checkpoint() of client/journal/transaction.cpp: how a transaction reaches the
-- journal of its directory and the objects of the directory and its files.
pub mod Directory
pub mod Commit
pub mod Mark
use nmfs.Prelude.{ℕ, zero, Bytes, Bool, true, false, Option, none, some, [], ◌∷◌, if◌then◌else◌}
use nmfs.Exec.{Exec, raise, logic_error, pure, ◌>>=◌, ◌>>◌}
use nmfs.Map.{Map}
use nmfs.Uuid.{Uuid}
use nmfs.Inode.{Inode}
use nmfs.Inode.Pool as InodePool
use nmfs.Dentry.{Dentry, new_dentry, add_child, delete_child}
use nmfs.Dentry.Pool as DentryPool
use nmfs.Rados.Store.{IoCtx}
use nmfs.Rados.Key as Key
use nmfs.Rados.{write, stat, remove}
use nmfs.Transaction.{Transaction, SelfStatus, s_unchanged, s_created, s_deleted}
use nmfs.Transaction.Serial as Serial

-- The loop of sync() over the entries.
unfoldable pub apply_entries : Map (Bool × Uuid) → Dentry → Dentry
apply_entries [] d = d
apply_entries ((name, (true, ino)) ∷ m) d = apply_entries m (add_child name ino d)
apply_entries ((name, (false, ino)) ∷ m) d = apply_entries m (delete_child name d)

-- `to_string` is boost's, which writes an inode number for the key of its object.
module _ (io : IoCtx) (to_string : Uuid → Bytes) where
  open io use {State}

  -- if (s_inode) s_inode->sync()
  sync_s_inode : Option Inode → Exec State Unit
  sync_s_inode none = pure tt
  sync_s_inode (some i) = InodePool.sync io to_string i

  -- The loop of sync() over the inodes of the files: a deleted one is passed over.
  sync_f_inodes : Map (Option Inode) → Exec State Unit
  sync_f_inodes [] = pure tt
  sync_f_inodes ((ino, none) ∷ m) = sync_f_inodes m
  sync_f_inodes ((ino, some i) ∷ m) = do InodePool.sync io to_string i; sync_f_inodes m

  -- dentry d(s_ino, status == self_status::S_CREATED)
  open_dentry : SelfStatus → Uuid → Exec State Dentry
  open_dentry s_created s_ino = pure (new_dentry s_ino)
  open_dentry _ s_ino = DentryPool.load io to_string s_ino

  sync_parts : Transaction → Exec State Unit
  unfolding sync_s_inode sync_f_inodes open_dentry
  sync_parts tx = do
    sync_s_inode tx.s_inode
    d ← open_dentry tx.status tx.s_ino
    DentryPool.sync io to_string (apply_entries tx.dentries d)
    sync_f_inodes tx.f_inodes

  remove_parts : ℕ → Transaction → Exec State Unit
  remove_parts fuel tx = do
    remove io fuel Key.inode (to_string tx.s_ino)
    remove io fuel Key.dentry (to_string tx.s_ino)

  sync_as : SelfStatus → ℕ → Transaction → Exec State Unit
  unfolding sync_parts remove_parts
  sync_as s_deleted fuel tx = remove_parts fuel tx
  sync_as _ fuel tx = sync_parts tx

  -- `fuel` bounds the objects of the directory that are removed.
  unfoldable pub sync : ℕ → Transaction → Exec State Unit
  unfolding sync_as
  sync fuel tx = sync_as tx.status fuel tx

  -- size_t obj_size, which stat() sets to 0 where there is no object
  size_of : Option ℕ → ℕ
  size_of none = 0
  size_of (some size) = size

  append : ℕ → Transaction → Exec State Transaction
  unfolding size_of
  append fuel tx = do
    size ← stat io fuel Key.journal (to_string tx.s_ino)
    _ ← write io Key.journal (to_string tx.s_ino) (Serial.serialize tx) (size_of size)
    pure (record tx { committed = true; offset = size_of size })

  -- commit(); the transaction that it leaves is the result. `fuel` bounds the objects of the journal.
  unfoldable pub commit : ℕ → Transaction → Exec State Transaction
  unfolding append
  commit fuel tx = if tx.committed then raise logic_error else append fuel tx

  -- The write of checkpoint().
  unfoldable pub clear_mark : Transaction → Exec State Unit
  clear_mark tx = do _ ← write io Key.journal (to_string tx.s_ino) (0 ∷ []) tx.offset; pure tt

  unfoldable pub checkpoint : ℕ → Transaction → Exec State Unit
  unfolding sync clear_mark
  checkpoint fuel tx = do sync fuel tx; clear_mark tx
