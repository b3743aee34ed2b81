-- ===== src/DirectoryTable.antt =====
-- client/in_memory/directory_table.cpp: the directories that a client holds, found by inode number,
-- with client/lease/lease_client.cpp, which asks the manager for their leases. The mutexes are
-- recursive, so that a call within a call does not wait. Log lines are left out.
pub mod PathTraversal
use nmfs.Prelude.{ℕ, Bytes, Bool, true, false, Option, none, some, [], if◌then◌else◌}
use nmfs.Exec.{Exec, ok, runtime_error, not_leader, pure, raise, ◌>>=◌, ◌>>◌}
use nmfs.Map.{find, erase, insert}
use nmfs.Uuid.{Uuid}
use nmfs.Inode.{MetaLocation}
use nmfs.Dentry.{Dentry}
use nmfs.Lease.Manager.{LeaseResponse}
use nmfs.Lease.Client.{is_valid, is_mine, make_request, take_response}
use nmfs.Rados.Store.{IoCtx}
use nmfs.DentryTable.{DentryTable, new_dentry_table, new_dentry_table_mkdir, set_leader_ip}
use nmfs.DentryTable.Inodes.{make_local_table, pull_child_metadata}
use nmfs.World.{World, Outside, ask, make_table, get_table, at_table, get_inode}

module _ {State : Type 0} where
  -- dentry_tables.insert(...), whose result is 0 or -1
  unfoldable pub add_dentry_table : Uuid → ℕ → Exec (World State) Bool
  add_dentry_table ino a w = (
    elim (find ino w.dentry_tables) [ none ↦ ok true | some _ ↦ ok false ],
    record w { dentry_tables = insert ino a w.dentry_tables },
  )

  -- dentry_tables.erase(it)
  unfoldable pub erase_table : Uuid → Exec (World State) Unit
  erase_table ino w = (ok tt, record w { dentry_tables = erase ino w.dentry_tables })

  -- delete_dentry_table(ino): `true` for 0, and `false` for -1
  unfoldable pub delete_dentry_table : Uuid → Exec (World State) Bool
  delete_dentry_table ino w = elim (find ino w.dentry_tables) [
    | none ↦ (ok false, w)
    | some _ ↦ (ok true, record w { dentry_tables = erase ino w.dentry_tables })
  ]

  -- A call of set_leader_ip().
  abbrev pub give_leader_ip : ℕ → Bytes → Exec (World State) Unit
  give_leader_ip a ip = at_table a (λ t. (ok tt, set_leader_ip ip t))

  -- What acquire() does with the answer to its request. The string `remote_addr` is empty before.
  answered : Uuid → Option LeaseResponse → Exec (World State) (Bool × Bytes)
  answered ino none = raise runtime_error
  answered ino (some response) = λ w.
      let (leases, mine, addr) = take_response ino response [] w.leases in
      (ok (mine, addr), record w { leases = leases })

module _ (io : IoCtx) (out : Outside) where
  open io use {State}

  -- lease_client::acquire(ino, remote_addr): `true` for 0 and `false` for -1, and `remote_addr`
  unfoldable pub acquire : Uuid → Exec (World State) (Bool × Bytes)
  unfolding answered
  acquire ino = do
    now ← ask out.now
    mine ← λ w. (ok (is_mine ino now w.leases), w)
    if mine then pure (true, []) else (do
      response ← ask (λ n. out.grant n (make_request ino out.self_remote))
      answered ino response)

  -- What lease_dentry_table() makes of the result of acquire().
  lease_at : Uuid → Bool × Bytes → Exec (World State) ℕ
  lease_at ino (true, temp_address) = do
    a ← make_local_table io out ino
    give_leader_ip a temp_address
    pull_child_metadata io out a
    _ ← add_dentry_table ino a
    pure a
  lease_at ino (false, temp_address) = do
    a ← make_table (new_dentry_table ino MetaLocation.remote none)
    give_leader_ip a temp_address
    _ ← add_dentry_table ino a
    pure a

  -- lease_dentry_table(ino), which returns a table since acquire() returns 0 or -1
  unfoldable pub lease_dentry_table : Uuid → Exec (World State) ℕ
  unfolding acquire lease_at
  lease_dentry_table ino = do leased ← acquire ino; lease_at ino leased

  lease_mkdir_at : ℕ → Uuid → Dentry → Bool × Bytes → Exec (World State) ℕ
  lease_mkdir_at new_dir_inode ino new_dir_dentry (true, temp_address) = do
    a ← make_table (new_dentry_table_mkdir new_dir_inode ino new_dir_dentry)
    give_leader_ip a temp_address
    _ ← add_dentry_table ino a
    pure a
  lease_mkdir_at new_dir_inode ino new_dir_dentry (false, temp_address) = raise runtime_error

  -- lease_dentry_table_mkdir(new_dir_inode, new_dir_dentry)
  unfoldable pub lease_dentry_table_mkdir : ℕ → Dentry → Exec (World State) ℕ
  unfolding acquire lease_mkdir_at
  lease_dentry_table_mkdir new_dir_inode new_dir_dentry = do
    i ← get_inode new_dir_inode
    leased ← acquire i.core.i_ino
    lease_mkdir_at new_dir_inode i.core.i_ino new_dir_dentry leased

  -- A table that has been found: it is returned, or its lease is over.
  found : Uuid → Bool → ℕ → Bool → Exec (World State) ℕ
  found ino remote a true = pure a
  found ino true a false = do erase_table ino; raise not_leader
  found ino false a false = do erase_table ino; lease_dentry_table ino

  get_at : Uuid → Bool → Option ℕ → Exec (World State) ℕ
  unfolding found
  get_at ino remote (some a) = do
    now ← ask out.now
    valid ← λ w. (ok (is_valid ino now w.leases), w)
    found ino remote a valid
  get_at ino true none = raise not_leader
  get_at ino false none = lease_dentry_table ino

  -- get_dentry_table(ino, remote)
  unfoldable pub get_dentry_table : Uuid → Bool → Exec (World State) ℕ
  unfolding get_at
  get_dentry_table ino remote w = get_at ino remote (find ino w.dentry_tables) w
