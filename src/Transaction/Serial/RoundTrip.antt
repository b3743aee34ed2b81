-- ===== src/Transaction/Serial/RoundTrip.antt =====
-- What deserialize() of client/journal/transaction.cpp makes of what serialize() has written.
use nmfs.Prelude.{
  suc, ◌+◌, ◌<◌, Bytes, ◌≡◌, refl, ◌∙◌, Bool, Option, none, some, [], ◌∷◌, ◌++◌, length,
  drop-append, length-append, arith,
}
use nmfs.Map.{Map, find, find-empty}
use nmfs.Codec.{le_bytes, get_le-append, length-le_bytes}
use nmfs.Uuid.{Uuid}
use nmfs.Transaction.{Transaction, new_transaction}
use nmfs.Transaction.Calls.{IsWellFormed}
use nmfs.Transaction.Serial.{
  parsed, Reader, s_inode_bytes, dentry_bytes, f_inode_bytes, body_bytes, serialize, get_s_inode,
  deserialize, minus_one,
}
use nmfs.Transaction.Serial.Entries.{
  put_all, AreEntries, get_byte, get_dentries-dentry_bytes, find-put_all,
}
use nmfs.Transaction.Serial.Files.{
  AreFiles, live, live_file, find-live, live-IsMap, get_f_inodes-f_inode_bytes,
}

no_s_inode :
    (read : Reader) (rest : Bytes)
    → get_s_inode read (s_inode_bytes none ++ rest) ≡ parsed (none, rest)
unfolding get_s_inode s_inode_bytes
no_s_inode read rest = rw (get_le-append 4 minus_one rest (omega arith))

length-dentry_bytes : (m : Map (Bool × Uuid)) → length m < length (dentry_bytes m)
unfolding dentry_bytes
length-dentry_bytes [] = omega arith
length-dentry_bytes ((name, (added, ino)) ∷ m) =
    simp length-append (omega (arith, length-dentry_bytes m))

-- What deserialize() makes of the journal of a transaction without an inode of the directory.
pub record IsReloaded (tx tx' : Transaction) : Type 0 where
  pub self : tx'.s_inode ≡ none
  pub names : (name : Bytes) → find name tx'.dentries ≡ find name tx.dentries
  pub files : (ino : Uuid) → find ino tx'.f_inodes ≡ live_file (find ino tx.f_inodes)

-- The transaction that deserialize() fills, named for its maps.
abbrev refilled : Uuid → Transaction → Transaction
refilled ino tx = record (new_transaction ino) {
  s_inode = none;
  dentries = put_all tx.dentries [];
  f_inodes = put_all (live tx.f_inodes) [];
}

deserialize-refilled :
    (read : Reader) (tx : Transaction) (ino : Uuid)
    → IsWellFormed tx
    → AreEntries tx.dentries
    → AreFiles tx.f_inodes
    → tx.s_inode ≡ none
    → deserialize read (serialize tx) (new_transaction ino) ≡ parsed (refilled ino tx)
unfolding deserialize serialize body_bytes new_transaction
deserialize-refilled read tx ino wf es fs e = rw (
  drop-append 4 (le_bytes 4 (4 + length (body_bytes tx))) (body_bytes tx) (length-le_bytes 4 _),
  get_byte 1 _ (omega arith),
  e,
  no_s_inode read _,
  get_dentries-dentry_bytes (suc (length (dentry_bytes tx.dentries ++ f_inode_bytes tx.f_inodes)))
      tx.dentries [] (f_inode_bytes tx.f_inodes)
      (omega (
        arith,
        length-dentry_bytes tx.dentries,
        length-append (dentry_bytes tx.dentries) (f_inode_bytes tx.f_inodes),
      ))
      es wf.names (λ k v h. find-empty k),
  get_f_inodes-f_inode_bytes read (suc (length (f_inode_bytes tx.f_inodes))) tx.f_inodes []
      (omega arith) fs wf.files (λ k v h. find-empty k),
)

or_nothing {ℓ} :
    {V : Type ℓ} (k : Bytes) (o : Option V)
    → (elim o [ some v ↦ some v | none ↦ find {V = V} k [] ]) ≡ o
or_nothing k none = find-empty k
or_nothing k (some a) = refl

refilled-IsReloaded :
    (ino : Uuid) (tx : Transaction) → IsWellFormed tx → IsReloaded tx (refilled ino tx)
refilled-IsReloaded ino tx wf = record {
  self = refl;
  names =
      λ name. find-put_all name tx.dentries [] wf.names ∙ or_nothing name (find name tx.dentries);
  files = λ i.
      find-put_all i (live tx.f_inodes) [] (live-IsMap tx.f_inodes wf.files)
      ∙ or_nothing i (find i (live tx.f_inodes))
      ∙ find-live i tx.f_inodes wf.files;
}

-- A transaction that has no name and no file twice, no inode of its directory, no link, no name of
-- 2^31 bytes or more, and numbers and inodes that fit their form, is read back from its bytes with
-- the same entries; of the files it has those that are not deleted, with their cores.
pub deserialize-serialize_transaction :
    (read : Reader) (tx : Transaction) (ino : Uuid)
    → IsWellFormed tx
    → AreEntries tx.dentries
    → AreFiles tx.f_inodes
    → tx.s_inode ≡ none
    → (tx' : Transaction) × (deserialize read (serialize tx) (new_transaction ino) ≡ parsed tx')
      × IsReloaded tx tx'
deserialize-serialize_transaction read tx ino wf es fs e =
    (refilled ino tx, deserialize-refilled read tx ino wf es fs e, refilled-IsReloaded ino tx wf)
