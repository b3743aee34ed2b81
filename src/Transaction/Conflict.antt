-- ===== src/Transaction/Conflict.antt =====
-- When a call of client/journal/transaction.cpp throws its logic_error.
use nmfs.Prelude.{Bytes, ◌≡◌, Bool, true, false, ◌||◌, none, some, arith}
use nmfs.Map.{find}
use nmfs.Uuid.{Uuid}
use nmfs.Transaction.{
  Transaction, Outcome, threw, mkself, rmself, chself, mkdir, rmdir, mvdir, mkreg, rmreg, mvreg,
  chreg,
}
use nmfs.Transaction.Calls.{
  Call, makes_self, makes_dir, removes_dir, moves_dir, makes_reg, removes_reg, moves_reg, apply,
}

abbrev pub is_thrown : Outcome → Bool
is_thrown (threw tx) = true
is_thrown _ = false

-- What the transaction has done to a name or a file before.
abbrev pub has_added : Bytes → Transaction → Bool
has_added name tx = elim (find name tx.dentries) [ some (true, _) ↦ true | _ ↦ false ]

abbrev pub has_deleted : Bytes → Transaction → Bool
has_deleted name tx = elim (find name tx.dentries) [ some (false, _) ↦ true | _ ↦ false ]

abbrev pub has_inode : Uuid → Transaction → Bool
has_inode ino tx = elim (find ino tx.f_inodes) [ some (some _) ↦ true | _ ↦ false ]

abbrev pub has_deleted_inode : Uuid → Transaction → Bool
has_deleted_inode ino tx = elim (find ino tx.f_inodes) [ some none ↦ true | _ ↦ false ]

-- The calls that contradict one before. A file counts as added that has an inode in the transaction,
-- also where chreg() has put it there. The new name of a move contradicts nothing.
unfoldable pub conflicts : Call → Transaction → Bool
conflicts (makes_dir s name ino) tx = has_added name tx
conflicts (removes_dir s name ino) tx = has_deleted name tx
conflicts (moves_dir s src ino dst old) tx = has_deleted src tx
conflicts (makes_reg s name f) tx = has_added name tx || has_inode f.core.i_ino tx
conflicts (removes_reg s name f) tx = has_deleted name tx || has_deleted_inode f.core.i_ino tx
conflicts (moves_reg s src ino dst old) tx = has_deleted src tx
conflicts _ tx = false

-- A call on an open transaction throws exactly in these cases: mkdir() or mkreg() of a name that the
-- transaction has as added; mkreg() of a file of which it holds an inode, be it from mkreg() or from
-- chreg(); rmdir() or rmreg() of a name that it has as deleted; mvdir() or mvreg() from an old name
-- that it has as deleted; and rmreg() of a file that it has as deleted. Whatever the new name of a
-- move is, and whatever mkself(), rmself(), chself() and chreg() are called on, they do not throw.
pub is_thrown_iff :
    (c : Call) (tx : Transaction) → tx.committed ≡ false → is_thrown (apply c tx) ≡ conflicts c tx
unfolding conflicts apply mkself rmself chself mkdir rmdir mvdir mkreg rmreg mvreg chreg
is_thrown_iff (makes_self i) tx h = ground arith
is_thrown_iff _ tx h = ground arith
