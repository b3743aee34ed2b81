-- ===== src/RpcServer/Refused.antt =====
-- The calls of client/rpc/rpc_server.cpp on a directory that the client does not lead.
use nmfs.Prelude.{ℕ, false, none, ◌≡◌, ◌⊎◌, inl, inr, refl, ap, ◌∙◌, Option-cases, []}
use nmfs.Exec.{Exec, Code, Gives, gives, Gives-map, enotleader}
use nmfs.Map.{find, find-erase_self}
use nmfs.Uuid.{Uuid, splice_prefix_and_postfix}
use nmfs.Rados.Store.{IoCtx}
use nmfs.Lease.Client.{is_valid}
use nmfs.DirectoryTable.{get_dentry_table, erase_table}
use nmfs.RpcServer.{with_table, served}
use nmfs.RpcMessages.{
  AccessRequest, ChmodRequest, ChownRequest, CreateRequest, DentryTableRequest, GetattrRequest,
  InodeRequest, MkdirRequest, OpenOpendirRequest, ReaddirRequest, ReadlinkRequest, RmdirRequest,
  SymlinkRequest, TruncateRequest, UnlinkRequest, UtimensRequest, WriteRequest,
}
use nmfs.RpcServer.Inodes.{
  rpc_check_child_inode, rpc_get_mode, rpc_permission_check, rpc_getattr, rpc_access, rpc_opendir,
  rpc_chmod, rpc_chown, rpc_utimens, rpc_truncate,
}
use nmfs.RpcServer.Entries.{
  rpc_readdir, rpc_mkdir, rpc_rmdir_top, rpc_rmdir_down, rpc_symlink, rpc_readlink, rpc_create,
  rpc_unlink,
}
use nmfs.RpcServer.Files.{rpc_open, rpc_write}
use nmfs.World.{World, Outside}

-- The client does not hold the directory, or its lease is over.
abbrev pub IsNoLeader : {S : Type 0} → Outside → Uuid → World S → Type 0
IsNoLeader out ino w =
    (find ino w.dentry_tables ≡ none) ⊎ (is_valid ino (out.now w.asked) w.leases ≡ false)

-- The directory is not held, and of all that is kept nothing has changed.
pub record IsDropped {S : Type 0} (ino : Uuid) (w w' : World S) : Type 0 where
  pub dropped : find ino w'.dentry_tables ≡ none
  pub inodes : w'.inodes ≡ w.inodes
  pub tables : w'.tables ≡ w.tables
  pub journal : w'.journal ≡ w.journal
  pub meta_pool : w'.meta_pool ≡ w.meta_pool
  pub data_pool : w'.data_pool ≡ w.data_pool

pub with_table_refused :
    (io : IoCtx) (out : Outside) {A : Type 0} (ino : Uuid) (refusal : A)
    (f : ℕ → Exec (World io.State) A) (w : World io.State)
    → IsNoLeader out ino w
    → Gives (with_table io out ino refusal f w) (λ a w'. (a ≡ refusal) × IsDropped ino w w')
unfolding with_table served get_dentry_table erase_table
with_table_refused io out ino refusal f w h = elim (Option-cases (find ino w.dentry_tables)) [
  | inl none_there ↦
      rw (none_there, get_dentry_table)
        (gives (
          refl,
          record {
            dropped = none_there;
            inodes = refl;
            tables = refl;
            journal = refl;
            meta_pool = refl;
            data_pool = refl;
          },
        ))
  | inr (a, there) ↦
      rw (there, get_dentry_table)
        (elim h [
          | inl e ↦ absurd (cc (e, there))
          | inr over ↦ rw over (
              gives (
                refl,
                record {
                  dropped = find-erase_self ino w.dentry_tables;
                  inodes = refl;
                  tables = refl;
                  journal = refl;
                  meta_pool = refl;
                  data_pool = refl;
                },
              ))
        ])
]

module _ (io : IoCtx) (out : Outside) (prefix postfix : ℕ) (w : World io.State) where
  -- The directory that a request names.
  abbrev asked_for : Uuid
  asked_for = splice_prefix_and_postfix prefix postfix

  -- The call answers that the client does not lead the directory, and drops it.
  abbrev pub Refuses : {A : Type 0} → (A → Code) → Exec (World io.State) A → Type 0
  Refuses ret m = Gives (m w) (λ a w'. (ret a ≡ enotleader) × IsDropped asked_for w w')

  refuses :
      {A : Type 0} (ret : A → Code) (refusal : A) (f : ℕ → Exec (World io.State) A)
      → ret refusal ≡ enotleader
      → IsNoLeader out asked_for w
      → Refuses ret (with_table io out asked_for refusal f)
  refuses ret refusal f e h =
      Gives-map (with_table_refused io out asked_for refusal f w h)
        (λ a w' g. (ap ret g.0 ∙ e, g.1))

  -- All calls but the three of a rename, which take their paths apart first. readdir() sends nothing.
  abbrev pub AreRefused : Type 0
  AreRefused =
      ((q : DentryTableRequest)
        → Refuses (λ a. a.ret)
            (rpc_check_child_inode io out
              (record q { dentry_table_ino_prefix = prefix; dentry_table_ino_postfix = postfix })))
      × ((q : InodeRequest)
          → Refuses (λ a. a.ret)
              (rpc_get_mode io out (record q {
                dentry_table_ino_prefix = prefix;
                dentry_table_ino_postfix = postfix;
              })))
      × ((q : InodeRequest)
          → Refuses (λ a. a.ret)
              (rpc_permission_check io out (record q {
                dentry_table_ino_prefix = prefix;
                dentry_table_ino_postfix = postfix;
              })))
      × ((q : GetattrRequest)
          → Refuses (λ a. a.ret)
              (rpc_getattr io out (record q {
                dentry_table_ino_prefix = prefix;
                dentry_table_ino_postfix = postfix;
              })))
      × ((q : AccessRequest)
          → Refuses (λ a. a.ret)
              (rpc_access io out (record q {
                dentry_table_ino_prefix = prefix;
                dentry_table_ino_postfix = postfix;
              })))
      × ((q : OpenOpendirRequest)
          → Refuses (λ a. a.ret)
              (rpc_opendir io out (record q {
                dentry_table_ino_prefix = prefix;
                dentry_table_ino_postfix = postfix;
              })))
      × ((q : MkdirRequest)
          → Refuses (λ a. a.ret)
              (rpc_mkdir io out (record q {
                dentry_table_ino_prefix = prefix;
                dentry_table_ino_postfix = postfix;
              })))
      × ((q : RmdirRequest)
          → Refuses (λ a. a.ret)
              (rpc_rmdir_top io out (record q {
                dentry_table_ino_prefix = prefix;
                dentry_table_ino_postfix = postfix;
              })))
      × ((q : RmdirRequest)
          → Refuses (λ a. a.ret)
              (rpc_rmdir_down io out (record q {
                dentry_table_ino_prefix = prefix;
                dentry_table_ino_postfix = postfix;
              })))
      × ((q : SymlinkRequest)
          → Refuses (λ a. a.ret)
              (rpc_symlink io out (record q {
                dentry_table_ino_prefix = prefix;
                dentry_table_ino_postfix = postfix;
              })))
      × ((q : ReadlinkRequest)
          → Refuses (λ a. a.ret)
              (rpc_readlink io out (record q {
                dentry_table_ino_prefix = prefix;
                dentry_table_ino_postfix = postfix;
              })))
      × ((q : OpenOpendirRequest)
          → Refuses (λ a. a.ret)
              (rpc_open io out (record q {
                dentry_table_ino_prefix = prefix;
                dentry_table_ino_postfix = postfix;
              })))
      × ((q : CreateRequest)
          → Refuses (λ a. a.ret)
              (rpc_create io out (record q {
                dentry_table_ino_prefix = prefix;
                dentry_table_ino_postfix = postfix;
              })))
      × ((q : UnlinkRequest)
          → Refuses (λ a. a.ret)
              (rpc_unlink io out (record q {
                dentry_table_ino_prefix = prefix;
                dentry_table_ino_postfix = postfix;
              })))
      × ((q : WriteRequest)
          → Refuses (λ a. a.ret)
              (rpc_write io out (record q {
                dentry_table_ino_prefix = prefix;
                dentry_table_ino_postfix = postfix;
              })))
      × ((q : ChmodRequest)
          → Refuses (λ a. a.ret)
              (rpc_chmod io out (record q {
                dentry_table_ino_prefix = prefix;
                dentry_table_ino_postfix = postfix;
              })))
      × ((q : ChownRequest)
          → Refuses (λ a. a.ret)
              (rpc_chown io out (record q {
                dentry_table_ino_prefix = prefix;
                dentry_table_ino_postfix = postfix;
              })))
      × ((q : UtimensRequest)
          → Refuses (λ a. a.ret)
              (rpc_utimens io out (record q {
                dentry_table_ino_prefix = prefix;
                dentry_table_ino_postfix = postfix;
              })))
      × ((q : TruncateRequest)
          → Refuses (λ a. a.ret)
              (rpc_truncate io out (record q {
                dentry_table_ino_prefix = prefix;
                dentry_table_ino_postfix = postfix;
              })))
      × ((q : ReaddirRequest)
          → Gives
              (rpc_readdir io out
                (record q { dentry_table_ino_prefix = prefix; dentry_table_ino_postfix = postfix })
                w)
              (λ sent w'. (sent ≡ []) × IsDropped asked_for w w'))

  -- Where a client does not hold the directory that a request names, or its lease is over, every
  -- call of rpc_server but the three of a rename answers -ENOTLEADER, and rpc_readdir() sends no
  -- message at all. The directory is not held then, and the inodes, the tables, the journal and
  -- the pools are as before.
  pub not_leader_refused : IsNoLeader out asked_for w → AreRefused
  unfolding rpc_check_child_inode rpc_get_mode rpc_permission_check rpc_getattr rpc_access
      rpc_opendir rpc_mkdir rpc_rmdir_top rpc_rmdir_down rpc_symlink rpc_readlink rpc_open
      rpc_create rpc_unlink rpc_write rpc_chmod rpc_chown rpc_utimens rpc_truncate rpc_readdir
  not_leader_refused h = (
    λ q. refuses (λ a. a.ret) _ _ refl h,
    λ q. refuses (λ a. a.ret) _ _ refl h,
    λ q. refuses (λ a. a.ret) _ _ refl h,
    λ q. refuses (λ a. a.ret) _ _ refl h,
    λ q. refuses (λ a. a.ret) _ _ refl h,
    λ q. refuses (λ a. a.ret) _ _ refl h,
    λ q. refuses (λ a. a.ret) _ _ refl h,
    λ q. refuses (λ a. a.ret) _ _ refl h,
    λ q. refuses (λ a. a.ret) _ _ refl h,
    λ q. refuses (λ a. a.ret) _ _ refl h,
    λ q. refuses (λ a. a.ret) _ _ refl h,
    λ q. refuses (λ a. a.ret) _ _ refl h,
    λ q. refuses (λ a. a.ret) _ _ refl h,
    λ q. refuses (λ a. a.ret) _ _ refl h,
    λ q. refuses (λ a. a.ret) _ _ refl h,
    λ q. refuses (λ a. a.ret) _ _ refl h,
    λ q. refuses (λ a. a.ret) _ _ refl h,
    λ q. refuses (λ a. a.ret) _ _ refl h,
    λ q. refuses (λ a. a.ret) _ _ refl h,
    λ q. with_table_refused io out asked_for [] _ w h,
  )
