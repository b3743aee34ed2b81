-- ===== src/Inode/Examples.antt =====
-- The theorems on client/meta/inode.cpp at concrete inodes.
use nmfs.Prelude.{◌≡◌, ◌↔◌, refl, true, none, some, [], ◌∷◌, replicate, arith, if◌then◌else◌}
use nmfs.Uuid.Halves.{IsUuid}
use nmfs.Inode.{Inode, permission_check, s_islnk}
use nmfs.Inode.Layout.{serialize, deserialize}
use nmfs.Inode.Layout.RoundTrip.{CoreFits, IsLinked, stored, deserialize-serialize_inode}
use nmfs.Inode.Permission.{Permits, place, permission_check_iff}
use nmfs.Inode.Message.{
  inode_to_rename_src_response, rename_src_response_to_inode, inode_to_rename_dst_request,
  rename_dst_request_to_inode, rename_carries,
}

-- A link to "ab", as user 3 of group 4 has made it.
abbrev link : Inode
link = record {
  p_ino = none;
  core = record {
    i_mode = 41471;
    i_uid = 3;
    i_gid = 4;
    i_ino = replicate 16 7;
    i_nlink = 1;
    i_size = 2;
    i_atime = record { tv_sec = 5; tv_nsec = 6 };
    i_mtime = record { tv_sec = 5; tv_nsec = 6 };
    i_ctime = record { tv_sec = 5; tv_nsec = 6 };
    link_target_len = 2;
  };
  loc = none;
  link_target_name = b'a' ∷ b'b' ∷ [];
}

link-CoreFits : CoreFits link.core
link-CoreFits = record {
  mode = omega arith;
  uid = omega arith;
  gid = omega arith;
  ino = refl;
  nlink = omega arith;
  size = omega arith;
  atime = record { sec = omega arith; nsec = omega arith };
  mtime = record { sec = omega arith; nsec = omega arith };
  ctime = record { sec = omega arith; nsec = omega arith };
  len = omega arith;
}

link-IsLinked : IsLinked link
link-IsLinked = record { target = λ l. refl }

deserialize-serialize_inode_example :
    deserialize (stored link) (serialize link) link
    ≡ some (record link {
      core = link.core;
      link_target_name =
          if s_islnk link.core.i_mode then link.link_target_name else link.link_target_name;
    })
deserialize-serialize_inode_example =
    deserialize-serialize_inode link link link-CoreFits link-IsLinked

permission_check_iff_example :
    (permission_check 3 9 6 link ≡ true) ↔ Permits 6 link.core.i_mode (place 3 9 link.core)
permission_check_iff_example = permission_check_iff 3 9 6 link

link_ino-IsUuid : IsUuid link.core.i_ino
link_ino-IsUuid = record { sixteen = refl; bytes = omega arith }

rename_carries_example :
    rename_dst_request_to_inode
      (inode_to_rename_dst_request
        (rename_src_response_to_inode (inode_to_rename_src_response link) link))
      link
    ≡ record link {
      core = link.core;
      link_target_name =
          if s_islnk link.core.i_mode then link.link_target_name else link.link_target_name;
    }
rename_carries_example =
    rename_carries link link link link_ino-IsUuid (omega arith, (omega arith, tt))
