-- ===== src/RpcServer/Examples.antt =====
-- The theorems on client/rpc/rpc_server.cpp at a client that leads one directory.
use nmfs.Codec.{le_bytes}
use nmfs.Prelude.{◌==◌, ◌≡◌, refl, inl, arith}
use nmfs.Exec.{success, pure, ◌>>◌}
use nmfs.Map.{find}
use nmfs.Rados.Memory.{memory}
use nmfs.Uuid.{splice_prefix_and_postfix, get_prefix_from_uuid, get_postfix_from_uuid}
use nmfs.Uuid.Halves.{splice-halves}
use nmfs.RpcMessages.{UnlinkRequest, RmdirRequest}
use nmfs.LocalOps.Files.{local_unlink}
use nmfs.LocalOps.Directories.{local_rmdir_down}
use nmfs.LocalOps.Examples.{dir_ino, old_name, out, world, world-IsReady}
use nmfs.RpcServer.Inodes.{common}
use nmfs.RpcServer.Entries.{rpc_unlink, rpc_rmdir_down}
use nmfs.RpcServer.Refused.{AreRefused, not_leader_refused}
use nmfs.RpcServer.AsLocal.{answered_as_local}

not_leader_refused_example : AreRefused memory out 1 2 world
unfolding find splice_prefix_and_postfix ◌==◌ le_bytes
not_leader_refused_example = not_leader_refused memory out 1 2 world (inl refl)

abbrev unlink_request : UnlinkRequest
unlink_request = record {
  dentry_table_ino_prefix = get_prefix_from_uuid dir_ino;
  dentry_table_ino_postfix = get_postfix_from_uuid dir_ino;
  filename = old_name;
}

abbrev rmdir_request : RmdirRequest
rmdir_request = record {
  dentry_table_ino_prefix = get_prefix_from_uuid dir_ino;
  dentry_table_ino_postfix = get_postfix_from_uuid dir_ino;
  target_name = old_name;
  target_ino_prefix = 3;
  target_ino_postfix = 4;
}

same_directory :
    splice_prefix_and_postfix (get_prefix_from_uuid dir_ino) (get_postfix_from_uuid dir_ino)
    ≡ dir_ino
same_directory = splice-halves dir_ino (record { sixteen = refl; bytes = omega arith })

answered_as_local_example :
    (rpc_unlink memory out unlink_request world
      ≡ (local_unlink memory out 0 old_name >> pure (common success)) world)
    × (rpc_rmdir_down memory out rmdir_request world
        ≡ (local_rmdir_down memory out 0 (splice_prefix_and_postfix 3 4) old_name
              >> pure (common success))
            world)
answered_as_local_example =
    answered_as_local world-IsReady refl unlink_request rmdir_request same_directory same_directory
