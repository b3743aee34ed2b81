-- ===== src/Inode/Setters.antt =====
-- The setters of client/meta/inode.cpp.
use nmfs.Prelude.{ℕ, some}
use nmfs.Uuid.{Uuid}
use nmfs.Inode.{Inode, Timespec, MetaLocation}

abbrev pub set_mode : ℕ → Inode → Inode
set_mode mode i = record i { core = record i.core { i_mode = mode } }

abbrev pub set_uid : ℕ → Inode → Inode
set_uid uid i = record i { core = record i.core { i_uid = uid } }

abbrev pub set_gid : ℕ → Inode → Inode
set_gid gid i = record i { core = record i.core { i_gid = gid } }

abbrev pub set_ino : Uuid → Inode → Inode
set_ino ino i = record i { core = record i.core { i_ino = ino } }

abbrev pub set_nlink : ℕ → Inode → Inode
set_nlink nlink i = record i { core = record i.core { i_nlink = nlink } }

abbrev pub set_size : ℕ → Inode → Inode
set_size size i = record i { core = record i.core { i_size = size } }

abbrev pub set_atime : Timespec → Inode → Inode
set_atime atime i = record i { core = record i.core { i_atime = atime } }

abbrev pub set_mtime : Timespec → Inode → Inode
set_mtime mtime i = record i { core = record i.core { i_mtime = mtime } }

abbrev pub set_ctime : Timespec → Inode → Inode
set_ctime ctime i = record i { core = record i.core { i_ctime = ctime } }

abbrev pub set_loc : MetaLocation → Inode → Inode
set_loc loc i = record i { loc = some loc }

abbrev pub set_p_ino : Uuid → Inode → Inode
set_p_ino p_ino i = record i { p_ino = some p_ino }
