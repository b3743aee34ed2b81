-- ===== src/Inode/Layout/RoundTrip.antt =====
-- deserialize() of client/meta/inode.cpp on what serialize() writes.
use mathlib.Core.List.{append_assoc}
use nmfs.Prelude.{
  ℕ, zero, suc, Bool, ◌⊎◌, ◌^◌, ◌<◌, Bytes, ◌≡◌, refl, Option, some, ◌++◌, [], ◌∷◌, replicate,
  length, arith, take, drop, take_all, drop-append, length-append, length-replicate, length-take,
  if◌then◌else◌, ◌+◌, ◌==◌, ==-refl, true, false, none, ltb, ◌&&◌, Bool-cases, inl, inr,
}
use nmfs.Codec.{length-le_bytes, get_le-append, get_bytes-append}
use nmfs.Uuid.{Uuid}
use nmfs.Inode.{Core, Timespec, Inode, s_islnk}
use nmfs.Inode.Layout.{
  target_bytes, load_target, deserialize, reg_inode_size, serialize, get_timespec, timespec_bytes,
  core_bytes, get_core,
}

pub record TimeFits (t : Timespec) : Type 0 where
  pub sec : t.tv_sec < 256 ^ 8
  pub nsec : t.tv_nsec < 256 ^ 8

-- Every field fits its C type.
pub record CoreFits (c : Core) : Type 0 where
  pub mode : c.i_mode < 256 ^ 4
  pub uid : c.i_uid < 256 ^ 4
  pub gid : c.i_gid < 256 ^ 4
  pub ino : length c.i_ino ≡ 16
  pub nlink : c.i_nlink < 256 ^ 8
  pub size : c.i_size < 256 ^ 8
  pub atime : TimeFits c.i_atime
  pub mtime : TimeFits c.i_mtime
  pub ctime : TimeFits c.i_ctime
  pub len : c.link_target_len < 256 ^ 4

get_timespec-append :
    (t : Timespec) (rest : Bytes)
    → TimeFits t
    → get_timespec (timespec_bytes t ++ rest) ≡ some (t, rest)
unfolding get_timespec timespec_bytes
get_timespec-append t rest h =
    simp append_assoc (rw (get_le-append 8 t.tv_sec _ h.sec, get_le-append 8 t.tv_nsec rest h.nsec))

pub get_core-append :
    (c : Core) (rest : Bytes) → CoreFits c → get_core (core_bytes c ++ rest) ≡ some (c, rest)
unfolding get_core core_bytes
get_core-append c rest h = simp append_assoc (
    rw (
      get_le-append 4 c.i_mode _ h.mode,
      get_le-append 4 c.i_uid _ h.uid,
      get_le-append 4 c.i_gid _ h.gid,
      get_bytes-append 16 c.i_ino _ h.ino,
      get_bytes-append 4 (replicate 4 0) _ refl,
      get_le-append 8 c.i_nlink _ h.nlink,
      get_le-append 8 c.i_size _ h.size,
      get_timespec-append c.i_atime _ h.atime,
      get_timespec-append c.i_mtime _ h.mtime,
      get_timespec-append c.i_ctime _ h.ctime,
      get_le-append 4 c.link_target_len _ h.len,
      get_bytes-append 4 (replicate 4 0) rest refl,
    ))

length-core_bytes : (c : Core) → length c.i_ino ≡ 16 → length (core_bytes c) ≡ reg_inode_size
unfolding core_bytes timespec_bytes
length-core_bytes c h = simp (length-append, length-le_bytes, length-replicate, h)

-- The target of a link is as long as the inode says.
pub record IsLinked (i : Inode) : Type 0 where
  pub target : s_islnk i.core.i_mode ≡ true → length i.link_target_name ≡ i.core.link_target_len

empty_target : (n : ℕ) (name : Bytes) → ltb 0 n ≡ false → length name ≡ n → replicate n 0 ≡ name
empty_target zero [] h e = refl
empty_target zero (x ∷ name) h e = absurd (omega arith)
empty_target (suc n) name h e = absurd (ground arith)

and_left : (a b : Bool) → (a && b) ≡ true → a ≡ true
and_left true b h = refl
and_left false b h = h

target_bytes_link :
    (i : Inode) → IsLinked i → s_islnk i.core.i_mode ≡ true → target_bytes i ≡ i.link_target_name
unfolding target_bytes
target_bytes_link i l e = elim (Bool-cases (ltb 0 i.core.link_target_len)) [
  | inl some_target ↦ rw (e, some_target) (take_all i.core.link_target_len _ (l.target e))
  | inr no_target ↦
      rw (e, no_target)
        (empty_target i.core.link_target_len i.link_target_name no_target (l.target e))
]

length-target_bytes : (i : Inode) → IsLinked i → length (target_bytes i) ≡ i.core.link_target_len
unfolding target_bytes
length-target_bytes i l =
    elim (Bool-cases (s_islnk i.core.i_mode && ltb 0 i.core.link_target_len)) [
      | inl link ↦ rw link (
          omega (
            arith,
            length-take i.core.link_target_len i.link_target_name,
            l.target (and_left _ _ link),
          ))
      | inr other ↦ rw other (length-replicate i.core.link_target_len 0)
    ]

-- The bytes that serialize() makes are as many as sync() writes.
pub length-serialize_inode :
    (i : Inode)
    → length i.core.i_ino ≡ 16
    → IsLinked i
    → length (serialize i) ≡ reg_inode_size + i.core.link_target_len
unfolding serialize
length-serialize_inode i h l =
    rw (length-append (core_bytes i.core), length-core_bytes i.core h, length-target_bytes i l)

drop-serialize :
    (i : Inode) → length i.core.i_ino ≡ 16 → drop reg_inode_size (serialize i) ≡ target_bytes i
unfolding serialize
drop-serialize i h =
    drop-append reg_inode_size (core_bytes i.core) (target_bytes i) (length-core_bytes i.core h)

-- What the pool returns for the target of a link, once sync() has written the inode's object.
abbrev pub stored : Inode → Uuid → ℕ → Option Bytes
stored i ino len =
    if ino == i.core.i_ino then some (take len (drop reg_inode_size (serialize i))) else none

load :
    (i j : Inode)
    → IsLinked i
    → (s_islnk i.core.i_mode ≡ true) ⊎ (s_islnk i.core.i_mode ≡ false)
    → load_target (s_islnk i.core.i_mode) (some (target_bytes i)) (record j { core = i.core })
      ≡ some (record j {
        core = i.core;
        link_target_name = if s_islnk i.core.i_mode then i.link_target_name else j.link_target_name;
      })
unfolding load_target
load i j l (inl e) = rw (e, target_bytes_link i l e)
load i j l (inr e) = rw e

-- An inode that was serialised and stored is read back with the same core and, if it is a link,
-- the same target; all else in the inode that is filled stays as it was.
pub deserialize-serialize_inode :
    (i j : Inode)
    → CoreFits i.core
    → IsLinked i
    → deserialize (stored i) (serialize i) j
      ≡ some (record j {
        core = i.core;
        link_target_name = if s_islnk i.core.i_mode then i.link_target_name else j.link_target_name;
      })
unfolding deserialize serialize
deserialize-serialize_inode i j h l =
    rw
      (
        get_core-append i.core (target_bytes i) h,
        ==-refl i.core.i_ino,
        drop-serialize i h.ino,
        take_all i.core.link_target_len (target_bytes i) (length-target_bytes i l),
      )
      (load i j l (Bool-cases (s_islnk i.core.i_mode)))
