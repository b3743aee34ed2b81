-- ===== src/Inode/Pool.antt =====
-- The constructor that reads an inode and sync() of client/meta/inode.cpp: the inode's object in the
-- pool.
use nmfs.Prelude.{Bytes, Option, none, some, ◌-◌, ◌++◌, [], length, replicate, if◌then◌else◌}
use nmfs.Exec.{Exec, Result, err, no_such_object, no_entry, overrun, pure, raise, ◌>>=◌}
use nmfs.Uuid.{Uuid}
use nmfs.Inode.{Inode, Core, s_islnk}
use nmfs.Inode.Layout.{serialize, get_core, reg_inode_size}
use nmfs.Rados.Store.{IoCtx}
use nmfs.Rados.Key as Key
use nmfs.Rados.{read, write}

-- catch (rados_io::no_such_object)
abbrev missing {ℓ} : {S A : Type ℓ} → Result A × S → Result A × S
missing (err (no_such_object _), s) = (err no_entry, s)
missing (r, s) = (r, s)

-- An inode that has nothing but its core.
abbrev of_core : Core → Inode
of_core core = record { p_ino = none; core = core; loc = none; link_target_name = [] }

abbrev decoded : {S : Type 0} → Option (Core × Bytes) → Exec S Core
decoded none = raise overrun
decoded (some (core, _)) = pure core

-- `to_string` is boost's, which writes an inode number for the key of its object.
module _ (io : IoCtx) (to_string : Uuid → Bytes) where
  open io use {State}

  -- The second read of deserialize(), for the target of a link.
  with_target : Core → Exec State Inode
  with_target core =
      if s_islnk core.i_mode
      then (do
        name ← read io Key.inode (to_string core.i_ino) core.link_target_len reg_inode_size
        pure (record (of_core core) { link_target_name = name }))
      else pure (of_core core)

  -- inode(ino). What is read lies at the start of a buffer of zeros.
  unfoldable pub load : Uuid → Exec State Inode
  unfolding with_target
  load ino s = missing (
      (do
        raw ← read io Key.inode (to_string ino) reg_inode_size 0
        core ← decoded (get_core (raw ++ replicate (reg_inode_size - length raw) 0))
        with_target core)
        s)

  pub sync : Inode → Exec State Unit
  sync i = do _ ← write io Key.inode (to_string i.core.i_ino) (serialize i) 0; pure tt
