-- ===== src/DentryTable/Inodes.antt =====
-- The operations of client/in_memory/dentry_table.cpp that reach beyond the table, to inodes, to the
-- pool and to the client that leads the directory, and client/meta/remote_inode.cpp, the inode that
-- stands for one on another client. Log lines are left out; the list of rpc_clients by address is
-- the network's.
use nmfs.Prelude.{ℕ, Bytes, true, false, Option, none, some, [], ◌∷◌, ◌==◌, if◌then◌else◌}
use nmfs.Exec.{Exec, ok, no_entry, permission_denied, undefined, pure, raise, ◌>>=◌, ◌>>◌}
use nmfs.Map.{Map, find}
use nmfs.Uuid.{Uuid, nil_uuid, get_root_ino}
use nmfs.Inode.{Inode, MetaLocation, s_isdir}
use nmfs.Inode as Inode
use nmfs.Inode.Setters.{set_mode, set_ino, set_loc, set_p_ino}
use nmfs.Inode.Pool as InodePool
use nmfs.Dentry.{get_child_ino}
use nmfs.Dentry.Pool as DentryPool
use nmfs.Rados.Store.{IoCtx}
use nmfs.RpcClient as RpcClient
use nmfs.DentryTable.{DentryTable, new_dentry_table, add_child_inode, of_dentries}
use nmfs.World.{
  World, Outside, RemoteInode, ask, yield, get_inode, set_inode, make_inode, make_table, get_table,
  at_table, at_meta_pool,
}

-- A pointer that is followed.
abbrev pub deref : {S A : Type 0} → Option A → Exec S A
deref none = raise undefined
deref (some a) = pure a

-- inode(REMOTE), the parent of a remote_inode: what it does not set is zero here.
abbrev pub blank : Inode
blank = record {
  p_ino = none;
  core = record {
    i_mode = 0;
    i_uid = 0;
    i_gid = 0;
    i_ino = nil_uuid;
    i_nlink = 0;
    i_size = 0;
    i_atime = record { tv_sec = 0; tv_nsec = 0 };
    i_mtime = record { tv_sec = 0; tv_nsec = 0 };
    i_ctime = record { tv_sec = 0; tv_nsec = 0 };
    link_target_len = 0;
  };
  loc = some MetaLocation.remote;
  link_target_name = [];
}

abbrev pub root_name : Bytes
root_name = b'/' ∷ []

module _ (io : IoCtx) (out : Outside) where
  open io use {State}

  -- A remote_inode that get_child_inode() or get_this_dir_inode() makes, with its number and
  -- location.
  unfoldable pub make_remote_inode : RemoteInode → Uuid → Exec (World State) ℕ
  make_remote_inode remote ino = do
    i ← make_inode blank (some remote)
    set_inode i (set_ino ino)
    set_inode i (set_loc MetaLocation.remote)
    pure i

  unfoldable pub child_at :
      MetaLocation → DentryTable → Bytes → Uuid → Exec (World State) (Option ℕ)
  unfolding make_remote_inode
  child_at MetaLocation.local t filename target_ino = elim (find filename t.child_inodes) [
    | none ↦ raise no_entry
    | some i ↦ do set_inode i (set_loc MetaLocation.local); pure (some i)
  ]
  child_at MetaLocation.remote t filename target_ino = do
    i ←
        make_remote_inode
          (record {
            leader_ip = t.leader_ip;
            dentry_table_ino = t.dir_ino;
            file_name = filename;
            target_is_parent = false;
          })
          target_ino
    pure (some i)
  child_at _ t filename target_ino = pure none

  -- get_child_inode(filename, target_ino) of the table at `a`
  unfoldable pub get_child_inode : ℕ → Bytes → Uuid → Exec (World State) (Option ℕ)
  unfolding child_at
  get_child_inode a filename target_ino = do t ← get_table a; child_at t.loc t filename target_ino

  unfoldable pub check_at : MetaLocation → DentryTable → Bytes → Exec (World State) Uuid
  check_at MetaLocation.local t filename =
      if filename == root_name
      then pure get_root_ino
      else yield (of_dentries (get_child_ino filename) t).0
  check_at MetaLocation.remote t filename = do
    stub ← ask out.stub
    yield (RpcClient.check_child_inode stub t.leader_ip t.dir_ino filename)
  check_at _ t filename = pure nil_uuid

  -- check_child_inode(filename) of the table at `a`
  unfoldable pub check_child_inode : ℕ → Bytes → Exec (World State) Uuid
  unfolding check_at
  check_child_inode a filename = do t ← get_table a; check_at t.loc t filename

  this_dir_at : MetaLocation → DentryTable → Exec (World State) (Option ℕ)
  unfolding make_remote_inode
  this_dir_at MetaLocation.local t = pure t.this_dir_inode
  this_dir_at MetaLocation.remote t = do
    i ←
        make_remote_inode
          (record {
            leader_ip = t.leader_ip;
            dentry_table_ino = t.dir_ino;
            file_name = [];
            target_is_parent = true;
          })
          t.dir_ino
    pure (some i)
  this_dir_at _ t = pure none

  -- get_this_dir_inode() of the table at `a`
  unfoldable pub get_this_dir_inode : ℕ → Exec (World State) (Option ℕ)
  unfolding this_dir_at
  get_this_dir_inode a = do t ← get_table a; this_dir_at t.loc t

  -- if (S_ISDIR(child_i->get_mode()))
  abbrev child_loc : Inode → MetaLocation
  child_loc i = if s_isdir i.core.i_mode then MetaLocation.unknown else MetaLocation.local

  -- The loop of pull_child_metadata().
  unfoldable pub pull_loop : Map Uuid → Uuid → ℕ → Exec (World State) Unit
  pull_loop [] dir_ino a = pure tt
  pull_loop ((name, ino) ∷ children) dir_ino a = do
    child ← at_meta_pool (InodePool.load io out.to_string ino)
    let child = set_loc (child_loc child) (set_p_ino dir_ino child)
    i ← make_inode child none
    _ ← at_table a (add_child_inode name i)
    pull_loop children dir_ino a

  -- pull_child_metadata() of the table at `a`
  unfoldable pub pull_child_metadata : ℕ → Exec (World State) Unit
  unfolding pull_loop
  pull_child_metadata a = do
    t ← get_table a
    d ← at_meta_pool (DentryPool.load io out.to_string t.dir_ino)
    at_table a (λ t. (ok tt, record t { dentries = some d }))
    pull_loop d.child_list t.dir_ino a

  -- std::make_shared<dentry_table>(ino, LOCAL)
  unfoldable pub make_local_table : Uuid → Exec (World State) ℕ
  make_local_table ino = do
    this_dir ← at_meta_pool (InodePool.load io out.to_string ino)
    i ← make_inode this_dir none
    set_inode i (set_loc MetaLocation.local)
    make_table (new_dentry_table ino MetaLocation.local (some i))

  mode_at : Option RemoteInode → ℕ → Exec (World State) ℕ
  mode_at none i = do inode ← get_inode i; pure inode.core.i_mode
  mode_at (some r) i = do
    stub ← ask out.stub
    mode ← yield (RpcClient.get_mode stub r.leader_ip r.dentry_table_ino r.file_name)
    set_inode i (set_mode mode)
    pure mode

  -- inode::get_mode(), and remote_inode's, which overrides it
  unfoldable pub get_mode : ℕ → Exec (World State) ℕ
  unfolding mode_at
  get_mode i w = mode_at (w.remotes i) i w

  permission_at : Option RemoteInode → ℕ → ℕ → Exec (World State) Unit
  permission_at none mask i = λ w.
      if Inode.permission_check w.client_uid w.client_gid mask (w.inodes i)
      then pure tt w
      else raise permission_denied w
  permission_at (some r) mask i = do
    stub ← ask out.stub
    yield (
        RpcClient.permission_check stub r.leader_ip r.dentry_table_ino r.file_name mask
          r.target_is_parent)

  -- inode::permission_check(), and remote_inode's, which overrides it
  unfoldable pub permission_check : ℕ → ℕ → Exec (World State) Unit
  unfolding permission_at
  permission_check mask i w = permission_at (w.remotes i) mask i w
