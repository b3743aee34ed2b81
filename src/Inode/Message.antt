-- ===== src/Inode/Message.antt =====
-- An inode that a rename carries from one leader to another: inode_to_rename_src_response() and its
-- three relatives of client/meta/inode.cpp. The fields are those of the messages in
-- client/proto/rpc.proto that describe the target; the two messages name them alike.
use nmfs.Prelude.{ap, ◌∙◌, ℕ, Bytes, ◌≡◌, [], Bool-cases, inl, inr, if◌then◌else◌}
use nmfs.Codec.{c_string, c_string_same, HasNoZero}
use nmfs.Uuid.{get_prefix_from_uuid, get_postfix_from_uuid, splice_prefix_and_postfix}
use nmfs.Uuid.Halves.{IsUuid, splice-halves}
use nmfs.Inode.{Inode, Timespec, s_islnk}

pub record TargetFields : Type 0 where
  pub target_i_mode : ℕ
  pub target_i_uid : ℕ
  pub target_i_gid : ℕ
  pub target_i_ino_prefix : ℕ
  pub target_i_ino_postfix : ℕ
  pub target_i_nlink : ℕ
  pub target_i_size : ℕ
  pub target_a : Timespec
  pub target_m : Timespec
  pub target_c : Timespec
  pub target_i_link_target_len : ℕ
  pub target_i_link_target_name : Bytes

unfoldable pub inode_to_rename_src_response : Inode → TargetFields
unfolding c_string
inode_to_rename_src_response i = record {
  target_i_mode = i.core.i_mode;
  target_i_uid = i.core.i_uid;
  target_i_gid = i.core.i_gid;
  target_i_ino_prefix = get_prefix_from_uuid i.core.i_ino;
  target_i_ino_postfix = get_postfix_from_uuid i.core.i_ino;
  target_i_nlink = i.core.i_nlink;
  target_i_size = i.core.i_size;
  target_a = i.core.i_atime;
  target_m = i.core.i_mtime;
  target_c = i.core.i_ctime;
  target_i_link_target_len = i.core.link_target_len;
  target_i_link_target_name = if s_islnk i.core.i_mode then c_string i.link_target_name else [];
}

unfoldable pub rename_src_response_to_inode : TargetFields → Inode → Inode
rename_src_response_to_inode m i = record i {
  core = record {
    i_mode = m.target_i_mode;
    i_uid = m.target_i_uid;
    i_gid = m.target_i_gid;
    i_ino = splice_prefix_and_postfix m.target_i_ino_prefix m.target_i_ino_postfix;
    i_nlink = m.target_i_nlink;
    i_size = m.target_i_size;
    i_atime = m.target_a;
    i_mtime = m.target_m;
    i_ctime = m.target_c;
    link_target_len = m.target_i_link_target_len;
  };
  link_target_name =
      if s_islnk m.target_i_mode then m.target_i_link_target_name else i.link_target_name;
}

unfoldable pub inode_to_rename_dst_request : Inode → TargetFields
unfolding inode_to_rename_src_response
inode_to_rename_dst_request i = inode_to_rename_src_response i

unfoldable pub rename_dst_request_to_inode : TargetFields → Inode → Inode
unfolding rename_src_response_to_inode
rename_dst_request_to_inode m i = rename_src_response_to_inode m i

-- One message.
carried :
    (i j : Inode)
    → IsUuid i.core.i_ino
    → HasNoZero i.link_target_name
    → rename_src_response_to_inode (inode_to_rename_src_response i) j ≡ record j {
      core = i.core;
      link_target_name = if s_islnk i.core.i_mode then i.link_target_name else j.link_target_name;
    }
unfolding rename_src_response_to_inode inode_to_rename_src_response
carried i j u z = elim (Bool-cases (s_islnk i.core.i_mode)) [
  | inl link ↦ rw (link, splice-halves i.core.i_ino u, c_string_same i.link_target_name z)
  | inr other ↦ rw (other, splice-halves i.core.i_ino u)
]

-- The second message, of what the first has left at the client.
carried_again :
    (i at_client at_leader : Inode)
    → IsUuid i.core.i_ino
    → HasNoZero i.link_target_name
    → rename_src_response_to_inode
        (inode_to_rename_src_response (record at_client {
          core = i.core;
          link_target_name =
              if s_islnk i.core.i_mode then i.link_target_name else at_client.link_target_name;
        }))
        at_leader
      ≡ record at_leader {
        core = i.core;
        link_target_name =
            if s_islnk i.core.i_mode then i.link_target_name else at_leader.link_target_name;
      }
unfolding rename_src_response_to_inode inode_to_rename_src_response
carried_again i at_client at_leader u z = elim (Bool-cases (s_islnk i.core.i_mode)) [
  | inl link ↦ rw (link, splice-halves i.core.i_ino u, c_string_same i.link_target_name z)
  | inr other ↦ rw (other, splice-halves i.core.i_ino u)
]

-- The inode that a rename has carried over both of its messages, from the leader of the source to
-- the client and on to the leader of the destination, has the core that it set out with and, if it
-- is a link, the same target, provided that its number is one and its target holds no zero byte.
-- All else is as the receiver had it.
pub rename_carries :
    (i at_client at_leader : Inode)
    → IsUuid i.core.i_ino
    → HasNoZero i.link_target_name
    → rename_dst_request_to_inode
        (inode_to_rename_dst_request
          (rename_src_response_to_inode (inode_to_rename_src_response i) at_client))
        at_leader
      ≡ record at_leader {
        core = i.core;
        link_target_name =
            if s_islnk i.core.i_mode then i.link_target_name else at_leader.link_target_name;
      }
unfolding inode_to_rename_dst_request rename_dst_request_to_inode
rename_carries i at_client at_leader u z =
    ap (λ m. rename_dst_request_to_inode (inode_to_rename_dst_request m) at_leader)
      (carried i at_client u z)
    ∙ carried_again i at_client at_leader u z
