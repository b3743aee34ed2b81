-- ===== src/Inode.antt =====
-- client/meta/inode.hpp and inode.cpp: the inode, its constructors, stat and the permission check.
-- The children have its disk layout (Layout), its travel in the rename messages (Message) and the
-- theorems. Modes are numbers whose bits are read by division; times and sizes do not go below zero.
pub mod Layout
pub mod Message
pub mod Permission
pub mod Pool
pub mod Setters
pub mod TypeBits
mod Examples
use nmfs.Prelude.{
  ℕ, ◌/◌, ◌%◌, ◌<◌, ◌&&◌, ◌||◌, not, Bytes, Bool, true, false, Option, none, some, [], length, ltb,
  if◌then◌else◌,
}
use nmfs.Prelude.Tests.{◌==◌}
use nmfs.Uuid.{Uuid, get_postfix_from_uuid}

-- struct timespec
pub record Timespec : Type 0 where
  pub tv_sec : ℕ
  pub tv_nsec : ℕ

-- enum meta_location; `journal` marks an inode that is read back from a journal
pub data MetaLocation : Type 0 where
  local remote unknown journal nobody : MetaLocation

-- struct _core
pub record Core : Type 0 where
  pub i_mode : ℕ
  pub i_uid : ℕ
  pub i_gid : ℕ
  pub i_ino : Uuid
  pub i_nlink : ℕ
  pub i_size : ℕ
  pub i_atime : Timespec
  pub i_mtime : Timespec
  pub i_ctime : Timespec
  pub link_target_len : ℕ

-- `p_ino` and `loc` are `none` where a constructor leaves them unset. `link_target_name` is empty
-- where the pointer is null.
pub record Inode : Type 0 where
  pub p_ino : Option Uuid
  pub core : Core
  pub loc : Option MetaLocation
  pub link_target_name : Bytes

-- S_ISDIR, S_ISREG, S_ISLNK: the four type bits of a mode
abbrev pub s_isdir : ℕ → Bool
s_isdir mode = mode / 4096 % 16 == 4

abbrev pub s_isreg : ℕ → Bool
s_isreg mode = mode / 4096 % 16 == 8

abbrev pub s_islnk : ℕ → Bool
s_islnk mode = mode / 4096 % 16 == 10

-- inode(const inode &copy); `p_ino` and `loc` are not copied
unfoldable pub copy_inode : Inode → Inode
copy_inode i = record {
  p_ino = none;
  core = i.core;
  loc = none;
  link_target_name =
      if s_islnk i.core.i_mode && ltb 0 i.core.link_target_len then i.link_target_name else [];
}

-- inode(parent_ino, owner, group, mode, root) and the one with a predefined inode number: `ino` is
-- the root's number, the given one, or what the generator returns
unfoldable pub new_inode : Uuid → ℕ → ℕ → ℕ → Uuid → Timespec → Inode
new_inode parent_ino owner group mode ino now = record {
  p_ino = some parent_ino;
  core = record {
    i_mode = mode;
    i_uid = owner;
    i_gid = group;
    i_ino = ino;
    i_nlink = 1;
    i_size = 0;
    i_atime = now;
    i_mtime = now;
    i_ctime = now;
    link_target_len = 0;
  };
  loc = some local;
  link_target_name = [];
}

-- inode(parent_ino, owner, group, mode, link_target_name)
unfoldable pub new_symlink : Uuid → ℕ → ℕ → ℕ → Bytes → Uuid → Timespec → Inode
unfolding new_inode
new_symlink parent_ino owner group mode target ino now =
    let i = new_inode parent_ino owner group mode ino now in
    record i { core = record i.core { link_target_len = length target }; link_target_name = target }

-- struct stat, the fields that fill_stat() writes
pub record Stat : Type 0 where
  pub st_mode : ℕ
  pub st_uid : ℕ
  pub st_gid : ℕ
  pub st_ino : ℕ
  pub st_nlink : ℕ
  pub st_size : ℕ
  pub st_atim : Timespec
  pub st_mtim : Timespec
  pub st_ctim : Timespec

-- The last two lines of fill_stat() both write st_ctim.tv_sec.
unfoldable pub fill_stat : Inode → Stat → Stat
fill_stat i s = record {
  st_mode = i.core.i_mode;
  st_uid = i.core.i_uid;
  st_gid = i.core.i_gid;
  st_ino = get_postfix_from_uuid i.core.i_ino;
  st_nlink = i.core.i_nlink;
  st_size = i.core.i_size;
  st_atim = i.core.i_atime;
  st_mtim = i.core.i_mtime;
  st_ctim = record { tv_sec = i.core.i_ctime.tv_nsec; tv_nsec = s.st_ctim.tv_nsec };
}

-- x & R_OK, x & W_OK, x & X_OK
abbrev pub r_ok : ℕ → Bool
r_ok x = x / 4 % 2 == 1

abbrev pub w_ok : ℕ → Bool
w_ok x = x / 2 % 2 == 1

abbrev pub x_ok : ℕ → Bool
x_ok x = x % 2 == 1

-- The three bits of the mode that apply to a client with this user and group.
unfoldable pub target_mode : ℕ → ℕ → Core → ℕ
target_mode uid gid c =
    if uid == c.i_uid
    then c.i_mode / 64 % 8
    else if gid == c.i_gid
    then c.i_mode / 8 % 8
    else c.i_mode % 8

-- permission_check(mask), with `false` for the exception permission_denied
unfoldable pub permission_check : ℕ → ℕ → ℕ → Inode → Bool
permission_check uid gid mask i =
    let target = target_mode uid gid i.core in
    let read = if r_ok mask then r_ok target else true in
    let write = if w_ok mask then read && w_ok target else read in
    if x_ok mask then write && x_ok target else write
