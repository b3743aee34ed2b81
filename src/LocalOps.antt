-- ===== src/LocalOps.antt =====
-- client/fs_ops/local_ops.cpp: the file system calls on a directory that this client leads. The
-- children have the calls on attributes, on files and on directories; here is what they share.
-- A returned number is a Code, beside what the call writes through its arguments. Locks make each
-- call one step, and log lines are left out; timespec_get() does not fail.
pub mod Attributes
pub mod Files
pub mod Directories
pub mod Rename
pub mod Mirror
pub mod Ready
pub mod Steps
pub mod NameChange
pub mod Create
pub mod Remove
pub mod RenameNames
pub mod MoveAcross
pub mod Paradox
pub mod WriteRead
pub mod Modes
pub mod Examples
use nmfs.Prelude.{ℕ, Bytes, Bool, Option, none, some, ◌/◌, ◌%◌, if◌then◌else◌}
use nmfs.Prelude.Tests.{◌==◌}
use nmfs.Exec.{Exec, ok, undefined, pure, raise, ◌>>=◌, ◌>>◌}
use nmfs.Uuid.{Uuid}
use nmfs.Inode.{Inode, MetaLocation, s_isdir, new_inode}
use nmfs.Inode.Setters.{set_mtime, set_ctime}
use nmfs.FileHandler.{FileHandler, new_file_handler, set_fhno, set_loc, set_i, add_file_handler}
use nmfs.Transaction.Calls.{
  Call, makes_self, removes_self, changes_self, makes_dir, removes_dir, makes_reg, removes_reg,
  changes_reg,
}
use nmfs.World.{World, Outside, ask, get_inode, set_inode, make_inode, journalctl}

-- flags & flag, for a flag of one bit
abbrev pub has_flag : ℕ → ℕ → Bool
has_flag flags flag = flags / flag % 2 == 1

module _ {State : Type 0} (out : Outside) where
  -- timespec_get(&ts, TIME_UTC), and the two times of an inode
  unfoldable pub touch : ℕ → Exec (World State) Unit
  touch i = do ts ← ask out.time; set_inode i (set_mtime ts); set_inode i (set_ctime ts)

  -- std::make_shared<inode>(parent_ino, client_uid, client_gid, mode)
  unfoldable pub create_inode : Uuid → ℕ → Exec (World State) ℕ
  create_inode parent_ino mode = do
    ts ← ask out.time
    ino ← ask out.fresh_ino
    i ← (λ w. (ok (new_inode parent_ino w.client_uid w.client_gid mode ino ts), w))
    make_inode i none

  -- The file_handler of an inode, put into open_context under its address.
  unfoldable pub open_handle : ℕ → Exec (World State) ℕ
  open_handle i = do
    inode ← get_inode i
    fhno ← ask out.fresh_handle
    let fh =
        set_fhno fhno (set_i i (set_loc MetaLocation.local (new_file_handler inode.core.i_ino)))
    (λ w.
        let (r, open_context) = add_file_handler fhno fh w.open_context in
        (r, record w { open_context = open_context }))
    pure fhno

  -- The calls of journalctl that are made here. Each names the directory by its inode's number.
  unfoldable pub log_mkself : ℕ → Exec (World State) Unit
  log_mkself i = do inode ← get_inode i; journalctl out (makes_self inode) inode.core.i_ino

  unfoldable pub log_rmself : Uuid → Exec (World State) Unit
  log_rmself ino = journalctl out removes_self ino

  unfoldable pub log_chself : ℕ → Exec (World State) Unit
  log_chself i = do inode ← get_inode i; journalctl out (changes_self inode) inode.core.i_ino

  unfoldable pub log_mkdir : ℕ → Bytes → Uuid → Exec (World State) Unit
  log_mkdir parent name ino = do
    self ← get_inode parent
    journalctl out (makes_dir self name ino) self.core.i_ino

  unfoldable pub log_rmdir : ℕ → Bytes → Uuid → Exec (World State) Unit
  log_rmdir parent name ino = do
    self ← get_inode parent
    journalctl out (removes_dir self name ino) self.core.i_ino

  unfoldable pub log_mkreg : ℕ → Bytes → ℕ → Exec (World State) Unit
  log_mkreg parent name i = do
    self ← get_inode parent
    file ← get_inode i
    journalctl out (makes_reg self name file) self.core.i_ino

  unfoldable pub log_rmreg : ℕ → Bytes → ℕ → Exec (World State) Unit
  log_rmreg parent name i = do
    self ← get_inode parent
    file ← get_inode i
    journalctl out (removes_reg self name file) self.core.i_ino

  -- The number of the directory in chreg(i->get_p_ino(), i).
  unfoldable pub of_parent : Option Uuid → Inode → Exec (World State) Unit
  of_parent none file = raise undefined
  of_parent (some p_ino) file = journalctl out (changes_reg file) p_ino

  unfoldable pub log_chreg : ℕ → Exec (World State) Unit
  unfolding of_parent
  log_chreg i = do file ← get_inode i; of_parent file.p_ino file

  -- if (S_ISDIR(i->get_mode())) chself(i) else chreg(i->get_p_ino(), i)
  unfoldable pub log_change : ℕ → Exec (World State) Unit
  unfolding log_chself log_chreg
  log_change i = do
    inode ← get_inode i
    if s_isdir inode.core.i_mode then log_chself i else log_chreg i
