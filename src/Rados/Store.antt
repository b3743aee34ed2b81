-- ===== src/Rados/Store.antt =====
-- The calls of librados that lib/rados_io/rados_io.cpp makes, as an interface, and the behaviour of
-- an object store that the theorems rely on.
use nmfs.Prelude.{
  ℕ, ◌+◌, ◌-◌, Bytes, ◌==◌, ◌≡◌, Option, none, some, [], ◌++◌, length, take, drop, replicate,
  if◌then◌else◌,
}

-- OBJ_SIZE, which is 1 << OBJ_BITS
abbrev pub obj_size : ℕ
obj_size = 4194304

-- What a call returns: zero or more, -ENOENT, or another negative number.
pub data Reply {ℓ} (A : Type ℓ) : Type ℓ where
  done : A → Reply A
  enoent failed : Reply A

-- librados::IoCtx
pub record IoCtx : Type 1 where
  pub State : Type 0
  pub io_read : State → Bytes → ℕ → ℕ → Reply Bytes
  pub io_write : State → Bytes → Bytes → ℕ → Reply State
  pub io_stat : State → Bytes → Reply ℕ
  pub io_remove : State → Bytes → Reply State
  pub io_trunc : State → Bytes → ℕ → Reply State

abbrev pub bytes_of : Option Bytes → Bytes
bytes_of none = []
bytes_of (some bs) = bs

-- The bytes of an object after `value` has been written at `offset`; a gap is filled with zeros.
abbrev pub overwrite : Bytes → Bytes → ℕ → Bytes
overwrite old value offset =
    take offset (old ++ replicate (offset - length old) 0)
    ++ (value ++ drop (offset + length value) old)

-- A cluster on which no call fails: a map from the names of objects to their bytes.
pub record IsStore (io : IoCtx) : Type 0 where
  pub content : io.State → Bytes → Option Bytes
  pub written : io.State → Bytes → Bytes → ℕ → io.State
  pub removed : io.State → Bytes → io.State
  pub truncated : io.State → Bytes → ℕ → io.State
  pub stat_lem :
      (s : io.State) (k : Bytes)
      → io.io_stat s k
        ≡ (elim (content s k) [ none ↦ Reply.enoent | some bs ↦ Reply.done (length bs) ])
  pub read_lem :
      (s : io.State) (k : Bytes) (len offset : ℕ)
      → io.io_read s k len offset ≡ (elim (content s k) [
        | none ↦ Reply.enoent
        | some bs ↦ Reply.done (take len (drop offset bs))
      ])
  pub write_lem :
      (s : io.State) (k value : Bytes) (offset : ℕ)
      → io.io_write s k value offset ≡ Reply.done (written s k value offset)
  pub content-written :
      (s : io.State) (k value : Bytes) (offset : ℕ) (j : Bytes)
      → content (written s k value offset) j
        ≡ (if k == j then some (overwrite (bytes_of (content s k)) value offset) else content s j)
  pub remove_lem :
      (s : io.State) (k : Bytes)
      → io.io_remove s k
        ≡ (elim (content s k) [ none ↦ Reply.enoent | some bs ↦ Reply.done (removed s k) ])
  pub content-removed :
      (s : io.State) (k j : Bytes)
      → content (removed s k) j ≡ (if k == j then none else content s j)
  pub trunc_lem :
      (s : io.State) (k : Bytes) (size : ℕ) {bs : Bytes}
      → content s k ≡ some bs
      → io.io_trunc s k size ≡ Reply.done (truncated s k size)
  pub content-truncated :
      (s : io.State) (k : Bytes) (size : ℕ) (j : Bytes)
      → content (truncated s k size) j ≡ (
          if k == j
          then some (
              take size
                (bytes_of (content s k) ++ replicate (size - length (bytes_of (content s k))) 0))
          else content s j)
