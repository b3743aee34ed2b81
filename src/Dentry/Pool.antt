-- ===== src/Dentry/Pool.antt =====
-- The constructor and sync() of client/meta/dentry.cpp: the object of a directory in the pool.
use nmfs.Prelude.{Bytes, none, some, ◌-◌, ◌++◌, take, length, replicate}
use nmfs.Exec.{Exec, Result, ok, err, runtime_error, no_such_object, overrun, pure, raise, ◌>>=◌}
use nmfs.Uuid.{Uuid}
use nmfs.Dentry.{Dentry, new_dentry, serialize, deserialize, raw_size}
use nmfs.Rados.Store.{IoCtx, obj_size}
use nmfs.Rados.Key as Key
use nmfs.Rados.{read, write}

-- `to_string` is boost's, which writes an inode number for the key of its object.
module _ (io : IoCtx) (to_string : Uuid → Bytes) where
  open io use {State}

  -- What is read lies at the start of a buffer of zeros.
  fill : Uuid → Bytes → Exec State Dentry
  fill ino bs s = elim (deserialize (bs ++ replicate (obj_size - length bs) 0) (new_dentry ino)) [
    | none ↦ (err overrun, s)
    | some d ↦ (ok d, s)
  ]

  -- The handler of the constructor, and what follows the read.
  fill_read : Uuid → Result Bytes → Exec State Dentry
  unfolding fill
  fill_read ino (ok bs) = fill ino bs
  fill_read ino (err (no_such_object _)) = raise runtime_error
  fill_read ino (err e) = raise e

  -- dentry(ino, false)
  pub load : Uuid → Exec State Dentry
  unfolding fill_read
  load ino s = let (r, s') = read io Key.dentry (to_string ino) obj_size 0 s in fill_read ino r s'

  pub sync : Dentry → Exec State Unit
  sync d = do
    _ ← write io Key.dentry (to_string d.this_ino) (take (raw_size d) (serialize d)) 0
    pure tt
