-- ===== src/LocalOps/Attributes.antt =====
-- The attributes of an inode in client/fs_ops/local_ops.cpp: getattr, access, chmod, chown, utimens
-- and readlink.
use Prim.Native.Nat.{bit_or}
use nmfs.Prelude.{
  ℕ, ◌+◌, ◌-◌, ◌*◌, ◌/◌, ◌%◌, ◌^◌, Bytes, [], ◌∷◌, ◌++◌, take, length, min, ltb, leb, if◌then◌else◌,
}
use nmfs.Prelude.Tests.{◌==◌}
use nmfs.Exec.{Exec, permission_denied, overrun, Code, success, einval, pure, raise, ◌>>=◌, ◌>>◌}
use nmfs.Inode.{Inode, Timespec, Stat, fill_stat, permission_check, s_islnk}
use nmfs.Inode.Setters.{set_mode, set_uid, set_gid, set_atime, set_mtime}
use nmfs.LocalOps.{log_change}
use nmfs.World.{World, Outside, ask, get_inode, set_inode}

-- UTIME_NOW and UTIME_OMIT of sys/stat.h
abbrev pub utime_now : ℕ
utime_now = 1073741823

abbrev pub utime_omit : ℕ
utime_omit = 1073741822

-- i->get_mode() & S_IFMT
abbrev pub type_of : ℕ → ℕ
type_of mode = mode / 4096 % 16 * 4096

module _ {State : Type 0} (out : Outside) where
  -- What fill_stat() makes of the caller's struct.
  unfoldable pub local_getattr : ℕ → Stat → Exec (World State) Stat
  local_getattr i stat = do inode ← get_inode i; pure (fill_stat inode stat)

  unfoldable pub local_access : ℕ → ℕ → Exec (World State) Unit
  local_access i mask w =
      if permission_check w.client_uid w.client_gid mask (w.inodes i)
      then pure tt w
      else raise permission_denied w

  unfoldable pub local_chmod : ℕ → ℕ → Exec (World State) Unit
  local_chmod i mode = do
    inode ← get_inode i
    set_inode i (set_mode (bit_or mode (type_of inode.core.i_mode)))
    log_change out i

  -- if (((int32_t) uid) >= 0), for a number of 32 bits
  unfoldable pub local_chown : ℕ → ℕ → ℕ → Exec (World State) Unit
  local_chown i uid gid = do
    (if ltb uid (2 ^ 31) then set_inode i (set_uid uid) else pure tt)
    (if ltb gid (2 ^ 31) then set_inode i (set_gid gid) else pure tt)
    log_change out i

  -- One of the two times: the clock's, none, or the one that is given.
  unfoldable pub set_time : (Timespec → Inode → Inode) → ℕ → Timespec → Exec (World State) Unit
  set_time set i tv =
      if tv.tv_nsec == utime_now
      then (do ts ← ask out.time; set_inode i (set ts))
      else if tv.tv_nsec == utime_omit
      then pure tt
      else set_inode i (set tv)

  unfoldable pub local_utimens : ℕ → Timespec → Timespec → Exec (World State) Unit
  unfolding set_time
  local_utimens i atime mtime = do
    set_time set_atime i atime
    set_time set_mtime i mtime
    log_change out i

-- size - 1, a number of 64 bits without a sign
abbrev pub room : ℕ → ℕ
room size = (size + 2 ^ 64 - 1) % 2 ^ 64

module _ {State : Type 0} where
  -- What readlink() writes to the buffer of `size` bytes: the target, cut off, and a zero.
  unfoldable pub local_readlink : ℕ → ℕ → Exec (World State) (Code × Bytes)
  local_readlink i size = do
    inode ← get_inode i
    let len = min inode.core.link_target_len (room size)
    if s_islnk inode.core.i_mode
        then (if leb len (length inode.link_target_name)
            then pure (success, take len inode.link_target_name ++ 0 ∷ [])
            else raise overrun)
        else pure (einval, [])
