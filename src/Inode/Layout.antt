-- ===== src/Inode/Layout.antt =====
-- The disk layout of an inode: serialize() and deserialize() of client/meta/inode.cpp. `_core` is
-- copied as raw memory, so its layout is that of the x86-64 ABI, with four bytes of padding in
-- front of `i_nlink` and four at the end; padding is written as zeros here.
pub mod RoundTrip
use nmfs.Prelude.{
  ℕ, Bool, true, false, Bytes, Option, none, some, [], ◌++◌, take, replicate, ltb, ◌&&◌,
  if◌then◌else◌,
}
use nmfs.Codec.{le_bytes, get_le, get_bytes, ◌>>=◌}
use nmfs.Uuid.{Uuid}
use nmfs.Inode.{Inode, Core, Timespec, s_islnk}

-- sizeof(struct _core)
abbrev pub reg_inode_size : ℕ
reg_inode_size = 104

timespec_bytes : Timespec → Bytes
timespec_bytes t = le_bytes 8 t.tv_sec ++ le_bytes 8 t.tv_nsec

get_timespec : Bytes → Option (Timespec × Bytes)
get_timespec raw = do
  (sec, raw) ← get_le 8 raw
  (nsec, raw) ← get_le 8 raw
  some (record { tv_sec = sec; tv_nsec = nsec }, raw)

-- memcpy(value, &core, REG_INODE_SIZE)
pub core_bytes : Core → Bytes
core_bytes c =
    le_bytes 4 c.i_mode
    ++ (le_bytes 4 c.i_uid
        ++ (le_bytes 4 c.i_gid
            ++ (c.i_ino
                ++ (replicate 4 0
                    ++ (le_bytes 8 c.i_nlink
                        ++ (le_bytes 8 c.i_size
                            ++ (timespec_bytes c.i_atime
                                ++ (timespec_bytes c.i_mtime
                                    ++ (timespec_bytes c.i_ctime
                                        ++ (le_bytes 4 c.link_target_len ++ replicate 4 0))))))))))

-- memcpy(&core, value, REG_INODE_SIZE)
pub get_core : Bytes → Option (Core × Bytes)
get_core raw = do
  (mode, raw) ← get_le 4 raw
  (uid, raw) ← get_le 4 raw
  (gid, raw) ← get_le 4 raw
  (ino, raw) ← get_bytes 16 raw
  (_, raw) ← get_bytes 4 raw
  (nlink, raw) ← get_le 8 raw
  (size, raw) ← get_le 8 raw
  (atime, raw) ← get_timespec raw
  (mtime, raw) ← get_timespec raw
  (ctime, raw) ← get_timespec raw
  (len, raw) ← get_le 4 raw
  (_, raw) ← get_bytes 4 raw
  some (
    record {
      i_mode = mode;
      i_uid = uid;
      i_gid = gid;
      i_ino = ino;
      i_nlink = nlink;
      i_size = size;
      i_atime = atime;
      i_mtime = mtime;
      i_ctime = ctime;
      link_target_len = len;
    },
    raw,
  )

-- What serialize() puts behind the core: the target of a link, and zeros for another inode.
pub target_bytes : Inode → Bytes
target_bytes i =
    if s_islnk i.core.i_mode && ltb 0 i.core.link_target_len
    then take i.core.link_target_len i.link_target_name
    else replicate i.core.link_target_len 0

-- serialize()
unfoldable pub serialize : Inode → Bytes
serialize i = core_bytes i.core ++ target_bytes i

-- The tail of deserialize(), for a link and for another inode.
load_target : Bool → Option Bytes → Inode → Option Inode
load_target true read i = do name ← read; some (record i { link_target_name = name })
load_target false read i = some i

-- deserialize(value): the target of a link is not taken from `value`, but read from the inode's
-- object behind its core; `read_target ino len` is that read, `none` where it throws
unfoldable pub deserialize : (Uuid → ℕ → Option Bytes) → Bytes → Inode → Option Inode
unfolding load_target
deserialize read_target value i = do
  (core, _) ← get_core value
  load_target (s_islnk core.i_mode) (read_target core.i_ino core.link_target_len)
      (record i { core = core })
