-- ===== src/Journal/Check.antt =====
-- journal::check() of client/journal/journal.cpp: the replay of a directory's journal by a client
-- that comes to lead the directory.
use nmfs.Prelude.{
  ℕ, zero, suc, ◌+◌, ◌-◌, Bytes, true, false, Option, none, some, ◌++◌, drop, replicate, length,
  ltb,
}
use nmfs.Exec.{
  Exec, Result, ok, err, raise, pure, overrun, runtime_error, logic_error, fuel_exhausted, ◌>>=◌,
  ◌>>◌,
}
use nmfs.Codec.{get_le, get_bytes}
use nmfs.Uuid.{Uuid}
use nmfs.Inode.Layout.{reg_inode_size}
use nmfs.Rados.Store.{IoCtx, obj_size}
use nmfs.Rados.Key as Key
use nmfs.Rados.{read}
use nmfs.Transaction.{Transaction, new_transaction}
use nmfs.Transaction.Serial.{Parsed, parsed, checkpointed, duplicated, broken, deserialize}
use nmfs.Transaction.Sync as Sync
use nmfs.Journal.{Journal, delete_entry}

abbrev value_of : Result Bytes → Option Bytes
value_of (ok bs) = some bs
value_of (err e) = none

module _ (io : IoCtx) (to_string : Uuid → Bytes) where
  open io use {State}

  -- The read of the target of a link in inode::deserialize().
  read_target : State → Uuid → ℕ → Option Bytes
  read_target s ino len = value_of (read io Key.inode (to_string ino) len reg_inode_size s).0

  -- What follows the deserialisation of one transaction. `overrun` stands for the target of a link
  -- that is not in the pool, too.
  replay_one : ℕ → Parsed Transaction → Exec State Unit
  replay_one fuel (parsed tx) = Sync.sync io to_string fuel tx
  replay_one fuel checkpointed = raise runtime_error
  replay_one fuel duplicated = raise logic_error
  replay_one fuel broken = raise overrun

  -- The bytes of the transaction at an index of the buffer, with its size.
  next_raw : Bytes → Option (ℕ × Bytes)
  next_raw value = elim (get_le 4 value) [
    | none ↦ none
    | some (size, _) ↦ elim (get_bytes size value) [
      | none ↦ none
      | some (raw, _) ↦ some (size, raw)
    ]
  ]

  -- The loop over the buffer, from an index to the number of bytes that were read. A transaction
  -- of size zero would keep it at its place, so the rounds have a fuel.
  replay : ℕ → ℕ → Uuid → Bytes → ℕ → ℕ → Exec State Unit
  unfolding replay_one next_raw read_target
  replay zero fuel self_ino value index stop = raise fuel_exhausted
  replay (suc rounds) fuel self_ino value index stop = elim (ltb index stop) [
    | false ↦ pure tt
    | true ↦ elim (next_raw (drop index value)) [
      | none ↦ raise overrun
      | some (size, raw) ↦ do
        (λ s. replay_one fuel (deserialize (read_target s) raw (new_transaction self_ino)) s)
        replay rounds fuel self_ino value (index + size) stop
    ]
  ]

  -- check(). What is read lies at the start of a buffer of zeros. `fuel` bounds the objects of a
  -- directory that is removed.
  unfoldable pub check : ℕ → ℕ → Uuid → Journal → Exec State Journal
  unfolding replay
  check rounds fuel self_ino j = do
    bs ← read io Key.journal (to_string self_ino) obj_size 0
    replay rounds fuel self_ino (bs ++ replicate (obj_size - length bs) 0) 0 (length bs)
    pure (delete_entry self_ino j)
