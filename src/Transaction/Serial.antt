-- ===== src/Transaction/Serial.antt =====
-- The form of a transaction in its journal: serialize() and deserialize() of
-- client/journal/transaction.cpp. The order of the entries of a map is that of the loop over it.
pub mod Entries
pub mod Files
pub mod RoundTrip
pub mod SelfInode
use nmfs.Prelude.{
  ℕ, zero, suc, ◌+◌, Bytes, Bool, true, false, Option, none, some, not, [], ◌∷◌, ◌++◌, length, drop,
  ltb, ◌^◌, if◌then◌else◌,
}
use nmfs.Prelude.Tests.{◌==◌}
use nmfs.Map.{Map, find, put}
use nmfs.Codec.{le_bytes, get_le, get_length, get_bytes}
use nmfs.Uuid.{Uuid, nil_uuid}
use nmfs.Inode.{Inode, MetaLocation, Core, Timespec}
use nmfs.Inode.Layout as Layout
use nmfs.Transaction.{Transaction}

-- sizeof(inode) on x86-64: the virtual table's pointer, `p_ino`, `core`, `loc`, `link_target_name`
-- and the mutex
abbrev pub sizeof_inode : ℕ
sizeof_inode = 8 + 16 + 104 + 8 + 16 + 40

-- The four bytes of -1.
abbrev pub minus_one : ℕ
minus_one = 4294967295

-- A size and as many bytes.
unfoldable pub sized : Bytes → Bytes
sized bs = le_bytes 4 (length bs) ++ bs

s_inode_bytes : Option Inode → Bytes
unfolding sized
s_inode_bytes none = le_bytes 4 minus_one
s_inode_bytes (some i) = sized (Layout.serialize i)

unfoldable pub dentry_bytes : Map (Bool × Uuid) → Bytes
unfolding sized
dentry_bytes [] = 255 ∷ []
dentry_bytes ((name, (added, ino)) ∷ m) =
    (if added then 1 else 0) ∷ (sized name ++ (ino ++ dentry_bytes m))

unfoldable pub f_inode_bytes : Map (Option Inode) → Bytes
unfolding sized
f_inode_bytes [] = le_bytes 4 minus_one
f_inode_bytes ((ino, none) ∷ m) = f_inode_bytes m
f_inode_bytes ((ino, some i) ∷ m) = sized (Layout.serialize i) ++ f_inode_bytes m

-- All that follows the size: the valid bit and the three parts.
body_bytes : Transaction → Bytes
unfolding s_inode_bytes dentry_bytes f_inode_bytes
body_bytes tx =
    1 ∷ (s_inode_bytes tx.s_inode ++ (dentry_bytes tx.dentries ++ f_inode_bytes tx.f_inodes))

unfoldable pub serialize : Transaction → Bytes
unfolding body_bytes
serialize tx = le_bytes 4 (4 + length (body_bytes tx)) ++ body_bytes tx

-- How deserialize() ends: it returns 0 or -1, throws a logic_error for a doubled key, or reads
-- past the end of the buffer, or from a pool that does not have the target of a link, or takes a
-- negative size for that of a name or of a file's inode.
pub data Parsed {ℓ} (A : Type ℓ) : Type ℓ where
  parsed : A → Parsed A
  checkpointed duplicated broken : Parsed A

infixl 5 ◌>>=◌
abbrev pub ◌>>=◌ {ℓ κ} : {A : Type ℓ} {B : Type κ} → Parsed A → (A → Parsed B) → Parsed B
parsed a >>= f = f a
checkpointed >>= f = checkpointed
duplicated >>= f = duplicated
broken >>= f = broken

abbrev pub need {ℓ} : {A : Type ℓ} → Option A → Parsed A
need none = broken
need (some a) = parsed a

abbrev pub Reader : Type 0
Reader = Uuid → ℕ → Option Bytes

-- inode(JOURNAL), whose other fields have no value before deserialize()
abbrev pub journal_inode : Inode
journal_inode = record {
  p_ino = none;
  core = record {
    i_mode = 0;
    i_uid = 0;
    i_gid = 0;
    i_ino = [];
    i_nlink = 0;
    i_size = 0;
    i_atime = record { tv_sec = 0; tv_nsec = 0 };
    i_mtime = record { tv_sec = 0; tv_nsec = 0 };
    i_ctime = record { tv_sec = 0; tv_nsec = 0 };
    link_target_len = 0;
  };
  loc = some MetaLocation.journal;
  link_target_name = [];
}

-- The inode of the directory: what is skipped behind its size is sizeof(inode), and not the size.
pub get_s_inode : Reader → Bytes → Parsed (Option Inode × Bytes)
get_s_inode read raw = do
  (size, raw) ← need (get_le 4 raw)
  elim (size == minus_one) [
    | true ↦ parsed (none, raw)
    | false ↦ (do
      i ← need (Layout.deserialize read raw journal_inode)
      parsed (some i, drop sizeof_inode raw))
  ]

-- The loop over the entries. Each round takes a byte at least, so a fuel above the length of the
-- buffer does not run out before the buffer does.
pub get_dentries : ℕ → Bytes → Map (Bool × Uuid) → Parsed (Map (Bool × Uuid) × Bytes)
get_dentries zero raw m = broken
get_dentries (suc fuel) raw m = do
  (stat, raw) ← need (get_le 1 raw)
  elim (stat == 255) [
    | true ↦ parsed (m, raw)
    | false ↦ (do
      (size, raw) ← need (get_length raw)
      (name, raw) ← need (get_bytes size raw)
      (ino, raw) ← need (get_bytes 16 raw)
      elim (find name m) [
        | some _ ↦ duplicated
        | none ↦ get_dentries fuel raw (put name (not (stat == 0), ino) m)
      ])
  ]

-- The loop over the inodes of the files. A negative size other than -1 moves the index back in the
-- buffer, or in front of it, and is not followed further.
pub get_f_inodes : Reader → ℕ → Bytes → Map (Option Inode) → Parsed (Map (Option Inode))
get_f_inodes read zero raw m = broken
get_f_inodes read (suc fuel) raw m = do
  (size, raw) ← need (get_le 4 raw)
  elim (size == minus_one) [
    | true ↦ parsed m
    | false ↦ (do
      i ← need (Layout.deserialize read raw journal_inode)
      elim (find i.core.i_ino m) [
        | some _ ↦ duplicated
        | none ↦ elim (ltb size (2 ^ 31)) [
          | false ↦ broken
          | true ↦ get_f_inodes read fuel (drop size raw) (put i.core.i_ino (some i) m)
        ]
      ])
  ]

unfoldable pub deserialize : Reader → Bytes → Transaction → Parsed Transaction
unfolding get_s_inode get_dentries get_f_inodes
deserialize read raw tx = do
  (valid, rest) ← need (get_le 1 (drop 4 raw))
  elim (valid == 0) [
    | true ↦ checkpointed
    | false ↦ (do
      (s_inode, rest) ← get_s_inode read rest
      (dentries, rest) ← get_dentries (suc (length rest)) rest tx.dentries
      f_inodes ← get_f_inodes read (suc (length rest)) rest tx.f_inodes
      parsed (record tx { s_inode = s_inode; dentries = dentries; f_inodes = f_inodes }))
  ]
