-- ===== src/Transaction/Calls.antt =====
-- The calls on a transaction of client/journal/transaction.cpp as data, and what they have in common.
use nmfs.Prelude.{Bool, Bytes, ◌≡◌, true, false, arith}
use nmfs.Map.{IsMap, put-IsMap}
use nmfs.Uuid.{Uuid}
use nmfs.Inode.{Inode}
use nmfs.Transaction.{
  Transaction, Outcome, accepted, refused, threw, mkself, rmself, chself, mkdir, rmdir, mvdir,
  mkreg, rmreg, mvreg, chreg, new_transaction,
}

pub data Call : Type 0 where
  makes_self : Inode → Call
  removes_self : Call
  changes_self : Inode → Call
  makes_dir : Inode → Bytes → Uuid → Call
  removes_dir : Inode → Bytes → Uuid → Call
  moves_dir : Inode → Bytes → Uuid → Bytes → Uuid → Call
  makes_reg : Inode → Bytes → Inode → Call
  removes_reg : Inode → Bytes → Inode → Call
  moves_reg : Inode → Bytes → Uuid → Bytes → Uuid → Call
  changes_reg : Inode → Call

unfoldable pub apply : Call → Transaction → Outcome
apply (makes_self i) tx = mkself i tx
apply removes_self tx = rmself tx
apply (changes_self i) tx = chself i tx
apply (makes_dir s name ino) tx = mkdir s name ino tx
apply (removes_dir s name ino) tx = rmdir s name ino tx
apply (moves_dir s src ino dst old) tx = mvdir s src ino dst old tx
apply (makes_reg s name f) tx = mkreg s name f tx
apply (removes_reg s name f) tx = rmreg s name f tx
apply (moves_reg s src ino dst old) tx = mvreg s src ino dst old tx
apply (changes_reg f) tx = chreg f tx

-- The transaction that a call leaves.
abbrev pub after : Outcome → Transaction
after (accepted tx) = tx
after (refused tx) = tx
after (threw tx) = tx

-- A committed transaction refuses every call and stays as it is.
pub apply_committed : (c : Call) (tx : Transaction) → tx.committed ≡ true → apply c tx ≡ refused tx
unfolding apply mkself rmself chself mkdir rmdir mvdir mkreg rmreg mvreg chreg
apply_committed (makes_self i) tx h = rw h
apply_committed _ tx h = rw h

abbrev pub is_refused : Outcome → Bool
is_refused (refused tx) = true
is_refused _ = false

-- An open transaction refuses no call, and stays open, also where the call throws.
pub apply_open :
    (c : Call) (tx : Transaction)
    → tx.committed ≡ false
    → (is_refused (apply c tx) ≡ false) × ((after (apply c tx)).committed ≡ false)
unfolding apply mkself rmself chself mkdir rmdir mvdir mkreg rmreg mvreg chreg
apply_open (makes_self i) tx h = (ground arith, ground arith)
apply_open _ tx h = (ground arith, ground arith)

-- No call changes the directory that a transaction is of.
pub apply-s_ino : (c : Call) (tx : Transaction) → (after (apply c tx)).s_ino ≡ tx.s_ino
unfolding apply mkself rmself chself mkdir rmdir mvdir mkreg rmreg mvreg chreg
apply-s_ino (makes_self i) tx = ground arith
apply-s_ino _ tx = ground arith

pub record IsWellFormed (tx : Transaction) : Type 0 where
  pub names : IsMap tx.dentries
  pub files : IsMap tx.f_inodes

pub new_transaction-IsWellFormed : (ino : Uuid) → IsWellFormed (new_transaction ino)
unfolding new_transaction
new_transaction-IsWellFormed ino = record { names = tt; files = tt }

-- Every call keeps a transaction free of doubled names and inode numbers, whether it returns or
-- throws.
pub apply-IsWellFormed :
    (c : Call) (tx : Transaction) → IsWellFormed tx → IsWellFormed (after (apply c tx))
unfolding apply mkself rmself chself mkdir rmdir mvdir mkreg rmreg mvreg chreg
apply-IsWellFormed (makes_self i) tx h = grind (arith, put-IsMap)
apply-IsWellFormed _ tx h = grind (arith, put-IsMap)
