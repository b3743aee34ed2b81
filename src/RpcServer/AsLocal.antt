-- ===== src/RpcServer/AsLocal.antt =====
-- Calls of client/rpc/rpc_server.cpp against those of client/fs_ops/local_ops.cpp: what a client does
-- for another, in a directory that it leads, is what it does for itself.
use nmfs.Prelude.{ℕ, ◌+◌, ◌≡◌, refl, some}
use nmfs.Exec.{Exec, Result, ok, err, success, pure, continue, ◌>>◌}
use nmfs.Uuid.{Uuid, nil_uuid, splice_prefix_and_postfix}
use nmfs.Rados.Store.{IoCtx}
use nmfs.Transaction.Effect.{Names}
use nmfs.DentryTable.Inodes.{get_this_dir_inode, get_child_inode, deref}
use nmfs.DirectoryTable.{get_dentry_table, delete_dentry_table}
use nmfs.DentryTable.{delete_child_inode}
use nmfs.LocalOps.{touch, log_rmdir}
use nmfs.LocalOps.Files.{local_unlink, drop_link}
use nmfs.LocalOps.Directories.{local_rmdir_down}
use nmfs.LocalOps.Ready.{IsReady, get_cached}
use nmfs.RpcMessages.{UnlinkRequest, RmdirRequest}
use nmfs.RpcServer.{with_table, served, this_dir_of, child_of}
use nmfs.RpcServer.Inodes.{common}
use nmfs.RpcServer.Entries.{rpc_unlink, rpc_rmdir_down}
use nmfs.World.{World, Outside, at_table}

-- A step and what follows it, once with an answer at the end and once with the answer behind all.
then_answer :
    {S A B C : Type 0} (c : C) (x : Result A × S) (f : A → Exec S B) (f' : A → Exec S C)
    → ((a : A) (s : S) → f' a s ≡ continue (f a s) (λ _. pure c))
    → continue x f' ≡ continue (continue x f) (λ _. pure c)
then_answer c (ok a, s) f f' h = h a s
then_answer c (err e, s) f f' h = refl

regroup :
    {S A B C D : Type 0} (c : D) (x : Result A × S) (d : A → Exec S B) (k : B → Exec S C)
    → continue (continue x d) (λ b. k b >> pure c)
      ≡ continue (continue x (λ a s. continue (d a s) k)) (λ _. pure c)
regroup c (ok a, s) d k = then_answer c (d a s) k (λ b. k b >> pure c) (λ b s'. refl)
regroup c (err e, s) d k = refl

module _ {S A1 A2 A3 A4 C : Type 0} (c : C) (m1 : Exec S A1) (m2 : Exec S A2) (m3 : Exec S A3)
    (m4 : Exec S A4) where
  four_steps :
      (s : S)
      → (m1 >> (m2 >> (m3 >> (m4 >> pure c)))) s
        ≡ ((m1 >> (m2 >> (m3 >> (m4 >> pure (tt {0}))))) >> pure c) s
  four_steps s =
      then_answer c (m1 s) (λ _. m2 >> (m3 >> (m4 >> pure tt))) (λ _. m2 >> (m3 >> (m4 >> pure c)))
        (λ _ s1.
          then_answer c (m2 s1) (λ _. m3 >> (m4 >> pure tt)) (λ _. m3 >> (m4 >> pure c))
            (λ _ s2.
              then_answer c (m3 s2) (λ _. m4 >> pure tt) (λ _. m4 >> pure c)
                (λ _ s3. then_answer c (m4 s3) (λ _. pure tt) (λ _. pure c) (λ _ s4. refl))))

module _ {io : IoCtx} {out : Outside} {base : Names} {ino : Uuid} {a parent : ℕ}
    {w : World io.State} (r : IsReady io out base ino a parent w)
    (this_dir : (w.tables a).this_dir_inode ≡ some parent) where
  with_table_cached :
      {A : Type 0} (refusal : A) (f : ℕ → Exec (World io.State) A)
      → with_table io out ino refusal f w ≡ f a (record w { asked = w.asked + 1 })
  unfolding with_table served get_dentry_table
  with_table_cached refusal f = rw (r.filed, get_dentry_table) (rw r.valid refl)

  this_dir_lem :
      this_dir_of io out a (record w { asked = w.asked + 1 })
      ≡ (ok parent, record w { asked = w.asked + 1 })
  unfolding this_dir_of get_this_dir_inode
  this_dir_lem = rw (r.mirror.is_local, this_dir) refl

  rpc_unlink-local_unlink :
      (request : UnlinkRequest)
      → splice_prefix_and_postfix request.dentry_table_ino_prefix request.dentry_table_ino_postfix
        ≡ ino
      → rpc_unlink io out request w
        ≡ (local_unlink io out parent request.filename >> pure (common success)) w
  unfolding rpc_unlink local_unlink child_of
  rpc_unlink-local_unlink request e =
      rw (e, with_table_cached, this_dir_lem, r.number, get_cached io out ino a w r.filed r.valid)
        (regroup (common success)
          (get_child_inode io out a request.filename nil_uuid (record w { asked = w.asked + 1 }))
          deref (λ i. drop_link io out parent a request.filename i))

  rpc_rmdir_down-local_rmdir_down :
      (request : RmdirRequest)
      → splice_prefix_and_postfix request.dentry_table_ino_prefix request.dentry_table_ino_postfix
        ≡ ino
      → rpc_rmdir_down io out request w
        ≡ (local_rmdir_down io out parent
                (splice_prefix_and_postfix request.target_ino_prefix request.target_ino_postfix)
                request.target_name
              >> pure (common success))
            w
  unfolding rpc_rmdir_down local_rmdir_down
  rpc_rmdir_down-local_rmdir_down request e =
      rw (e, with_table_cached, this_dir_lem, r.number, get_cached io out ino a w r.filed r.valid)
        (four_steps (common success) (at_table a (delete_child_inode request.target_name))
          (touch out parent)
          (log_rmdir out parent request.target_name
            (splice_prefix_and_postfix request.target_ino_prefix request.target_ino_postfix))
          (delete_dentry_table
            (splice_prefix_and_postfix request.target_ino_prefix request.target_ino_postfix))
          (record w { asked = w.asked + 1 }))

  -- In a client that leads a directory and is ready for a call, with the directory's inode in its
  -- table, what rpc_unlink() and rpc_rmdir_down() do with a request for that directory is what
  -- local_unlink() and local_rmdir_down() do with its fields: the same exception or an answer of
  -- 0, and the same state.
  pub answered_as_local :
      (unlink : UnlinkRequest) (rmdir : RmdirRequest)
      → splice_prefix_and_postfix unlink.dentry_table_ino_prefix unlink.dentry_table_ino_postfix
        ≡ ino
      → splice_prefix_and_postfix rmdir.dentry_table_ino_prefix rmdir.dentry_table_ino_postfix ≡ ino
      → (rpc_unlink io out unlink w
          ≡ (local_unlink io out parent unlink.filename >> pure (common success)) w)
        × (rpc_rmdir_down io out rmdir w
            ≡ (local_rmdir_down io out parent
                    (splice_prefix_and_postfix rmdir.target_ino_prefix rmdir.target_ino_postfix)
                    rmdir.target_name
                  >> pure (common success))
                w)
  answered_as_local unlink rmdir e f =
      (rpc_unlink-local_unlink unlink e, rpc_rmdir_down-local_rmdir_down rmdir f)
