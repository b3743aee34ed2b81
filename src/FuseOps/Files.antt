-- ===== src/FuseOps/Files.antt =====
-- The calls of client/fs_ops/fuse_ops.cpp on files.
use nmfs.Prelude.{ℕ, Bytes, Option, none, some, [], length, if◌then◌else◌}
use nmfs.Exec.{
  Exec, Result, ok, err, no_such_object, runtime_error, Code, Length, bytes, failed, success,
  eisdir, pure, ◌>>=◌, ◌>>◌,
}
use nmfs.Inode.{s_isdir}
use nmfs.Path.{get_filename_from_path}
use nmfs.Rados.Store.{IoCtx}
use nmfs.DentryTable.Inodes.{deref}
use nmfs.LocalOps.{has_flag}
use nmfs.LocalOps.Files.{
  local_open, local_release, local_create, local_unlink, local_read, local_write, o_path,
}
use nmfs.RemoteOps.{remote_open, remote_create, remote_unlink, remote_write}
use nmfs.FuseOps.{caught, by_loc, remote_of, again, inode_of, table_of, parent_of_path}
use nmfs.FuseOps.Attributes.{itself}
use nmfs.World.{World, Outside, yield, get_inode}

-- O_CLOEXEC
abbrev pub o_cloexec : ℕ
o_cloexec = 524288

-- The number that a result of write() is compared with.
abbrev pub code_of : Length → Code
code_of (bytes n) = success
code_of (failed ret) = ret

-- catch (rados_io::no_such_object), with the bytes that the buffer has got
abbrev caught_object {ℓ} : {S : Type ℓ} → Result (Length × Bytes) × S → Result (Length × Bytes) × S
caught_object (err (no_such_object got), s) = (ok (bytes (length got), got), s)
caught_object (r, s) = (r, s)

module _ (io : IoCtx) (out : Outside) where
  open io use {State}

  -- Two flags are refused before all else, with an exception that FUSE gets.
  unfoldable pub open_file : Bytes → ℕ → ℕ → Exec (World State) (Code × ℕ)
  open_file path flags fh w =
      if has_flag flags o_cloexec
      then (err runtime_error, w)
      else if has_flag flags o_path
      then (err runtime_error, w)
      else caught (λ ret. (ret, fh))
          ((do
            i ← inode_of io out none path
            inode ← get_inode i
            by_loc inode.loc (local_open out i flags fh)
                (again io out out.fuel i (λ got. got.0) (λ got. remote_open out i flags got.1)
                  (success, fh))
                (success, fh))
            w)

  unfoldable pub release : Option ℕ → Bytes → Exec (World State) Code
  release file_info path = do
    _ ← inode_of io out file_info path
    fh ← deref file_info
    local_release out fh

  -- The result, and file_info->fh, which is `fh` before.
  unfoldable pub create : Bytes → ℕ → ℕ → Exec (World State) (Code × ℕ)
  create path mode fh w =
      if s_isdir mode
      then (ok (eisdir, fh), w)
      else caught (λ ret. (ret, fh))
          ((do
            target_name ← yield (get_filename_from_path path)
            parent_i ← parent_of_path io out path
            t ← table_of io out parent_i
            by_loc (some t.loc)
                (do fhno ← local_create io out parent_i target_name mode; pure (success, fhno))
                (do
                  remote_i ← remote_of t target_name
                  again io out out.fuel remote_i (λ got. got.0)
                      (λ got. remote_create out remote_i target_name mode got.1) (success, fh))
                (success, fh))
            w)

  unfoldable pub unlink : Bytes → Exec (World State) Code
  unlink path w = caught itself (
      (do
        target_name ← yield (get_filename_from_path path)
        parent_i ← parent_of_path io out path
        t ← table_of io out parent_i
        by_loc (some t.loc) (do local_unlink io out parent_i target_name; pure success)
            (do
              remote_i ← remote_of t target_name
              again io out out.fuel remote_i itself (λ ret. remote_unlink out remote_i target_name)
                  success)
            success)
        w)

  -- The result, and what is in the buffer.
  unfoldable pub read : Bytes → ℕ → ℕ → Option ℕ → Exec (World State) (Length × Bytes)
  read path size offset file_info w = caught_object (
      caught (λ ret. (failed ret, []))
        ((do
          i ← inode_of io out file_info path
          got ← local_read io out i size offset
          pure (bytes (length got), got))
          w))

  unfoldable pub write : Bytes → Bytes → ℕ → ℕ → Option ℕ → Exec (World State) Length
  write path buffer offset flags file_info w = caught failed (
      (do
        i ← inode_of io out file_info path
        inode ← get_inode i
        by_loc inode.loc (do n ← local_write io out i buffer offset flags; pure (bytes n))
            (again io out out.fuel i code_of (λ got. remote_write io out i buffer offset flags)
              (bytes 0))
            (bytes 0))
        w)
