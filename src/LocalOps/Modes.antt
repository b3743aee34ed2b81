-- ===== src/LocalOps/Modes.antt =====
-- local_chmod() and local_readlink() of client/fs_ops/local_ops.cpp.
use Prim.Native.Nat.{bit_or}
use nmfs.Prelude.{
  ℕ, suc, ◌+◌, ◌-◌, ◌*◌, ◌/◌, ◌%◌, ◌^◌, ◌<◌, ◌≤◌, Bytes, true, false, ◌≡◌, refl, ap, ◌∙◌, some, [],
  ◌∷◌, ◌++◌, length, take, min, leb, arith, if◌then◌else◌, Bool-cases, inl, inr, length-append,
  length-take,
}
use nmfs.Exec.{ok, Gives, Gives-map, success, einval}
use nmfs.Uuid.{Uuid}
use nmfs.Inode.{Inode, s_isdir, s_islnk}
use nmfs.Inode.Setters.{set_mode}
use nmfs.Inode.TypeBits.{bit_or-type}
use nmfs.Rados.Store.{IoCtx}
use nmfs.Transaction.Calls.{changes_reg, changes_self}
use nmfs.Transaction.Conflict.{conflicts}
use nmfs.Journal.{Journal}
use nmfs.Journal.Steps.{Reach}
use nmfs.Journal.OpenEntry.{logged}
use nmfs.LocalOps.{log_change, log_chself}
use nmfs.LocalOps.Attributes.{local_chmod, local_readlink, type_of, room}
use nmfs.LocalOps.Ready.{journalctl-Gives, log_chreg-Gives, store_self}
use nmfs.LocalOps.Steps.{written}
use nmfs.World.{World, Outside}

-- What the journal gets of a change of an inode: a directory's own transaction has it, or that of
-- the file's parent.
abbrev pub change_logged : Inode → Uuid → Journal → Journal
change_logged inode p_ino j =
    if s_isdir inode.core.i_mode
    then logged (changes_self inode) inode.core.i_ino j
    else logged (changes_reg inode) p_ino j

module _ (io : IoCtx) (out : Outside) (i : ℕ) {p_ino : Uuid} {fuel : ℕ} (v : World io.State)
    (parent : (v.inodes i).p_ino ≡ some p_ino) (reached : Reach io out.to_string v.journal)
    (rounds : out.fuel ≡ suc fuel) where
  pub log_change-Gives :
      Gives
        (log_change out i v)
        (λ _ v'. v' ≡ record v { journal = change_logged (v.inodes i) p_ino v.journal })
  unfolding log_change log_chself conflicts
  log_change-Gives = elim (Bool-cases (s_isdir (v.inodes i).core.i_mode)) [
    | inl e ↦ rw e (journalctl-Gives io out (changes_self (v.inodes i)) v refl reached rounds refl)
    | inr e ↦ rw e (log_chreg-Gives io out i v parent reached rounds)
  ]

module _ (io : IoCtx) (out : Outside) (i : ℕ) {p_ino : Uuid} {fuel : ℕ} (v : World io.State)
    (parent : (v.inodes i).p_ino ≡ some p_ino) (reached : Reach io out.to_string v.journal)
    (rounds : out.fuel ≡ suc fuel) where
  -- local_chmod() with a mode without type bits, on an inode whose parent is set, returns, keeps
  -- the type of the inode and sets the lower twelve bits to the mode. The changed inode goes into
  -- the directory's own transaction if it is a directory, and into its parent's else.
  pub local_chmod-type :
      (mode : ℕ)
      → mode < 4096
      → Gives (local_chmod out i mode v) (λ _ w'.
        ((w'.inodes i).core.i_mode / 4096 % 16 ≡ (v.inodes i).core.i_mode / 4096 % 16)
        × ((w'.inodes i).core.i_mode % 4096 ≡ mode)
        × (w'.journal ≡ change_logged (w'.inodes i) p_ino v.journal))
  unfolding local_chmod
  local_chmod-type mode low =
      let new = bit_or mode (type_of (v.inodes i).core.i_mode) in
      let sum : new ≡ mode + (v.inodes i).core.i_mode / 4096 % 16 * 4096 =
        bit_or-type mode ((v.inodes i).core.i_mode / 4096 % 16) low in
      let v1 = written i (set_mode new) v in
      let now : v1.inodes i ≡ set_mode new (v.inodes i) = store_self i _ v.inodes in
      let mode_now = ap (λ (x : Inode). x.core.i_mode) now ∙ sum in
      Gives-map
        (log_change-Gives io out i v1 (ap (λ (x : Inode). x.p_ino) now ∙ parent) reached rounds)
        (λ _ w' h. rw h (omega (arith, mode_now), omega (arith, mode_now), refl))

-- The target as a C string in a buffer of `size` bytes.
abbrev cut_target : Bytes → ℕ → Bytes
cut_target target size = take (min (length target) (size - 1)) target ++ 0 ∷ []

room_lem : (size : ℕ) → 0 < size → size < 2 ^ 64 → room size ≡ size - 1
room_lem size more fits = omega arith

leb-min : (a b : ℕ) → leb (min a b) a ≡ true
leb-min a b = ground arith

module _ {S : Type 0} (i : ℕ) (w : World S) where
  abbrev target : Bytes
  target = (w.inodes i).link_target_name

  -- local_readlink() of a link, whose target has the length that the inode says, into a buffer of
  -- at least one byte and less than 2^64 writes the target, cut to one byte less than the buffer,
  -- and a zero byte, which the buffer has room for. Of any other inode it returns -EINVAL and
  -- writes nothing. The state is kept.
  pub readlink_bounds :
      (w.inodes i).core.link_target_len ≡ length target
      → (size : ℕ)
      → (s_islnk (w.inodes i).core.i_mode ≡ true
          → 0 < size
          → size < 2 ^ 64
          → (local_readlink i size w ≡ (ok (success, cut_target target size), w))
            × (length (cut_target target size) ≤ size))
        × (s_islnk (w.inodes i).core.i_mode ≡ false
            → local_readlink i size w ≡ (ok (einval, []), w))
  unfolding local_readlink
  readlink_bounds whole size = (
    λ link more fits. (
      rw (link) (rw (whole, room_lem size more fits, leb-min (length target) (size - 1)) refl),
      omega (
        arith,
        length-append (take (min (length target) (size - 1)) target) (0 ∷ []),
        length-take (min (length target) (size - 1)) target,
      ),
    ),
    λ other. rw other refl,
  )
