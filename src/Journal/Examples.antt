-- ===== src/Journal/Examples.antt =====
-- The theorems on client/journal/journal.cpp at a journal with one open transaction.
use nmfs.Prelude.{Bytes, ◌≡◌, refl, true, false, some, [], ◌++◌, replicate, arith}
use nmfs.Map.{find, put, erase}
use nmfs.Uuid.{Uuid}
use nmfs.Rados.Memory.{memory}
use nmfs.Transaction.{Transaction, s_deleted, new_transaction, rmself}
use nmfs.Transaction.Calls.{removes_self, apply}
use nmfs.Journal.{Journal, new_journal, get_entry, make_entry, act, retry, replace_map}
use nmfs.Journal.Steps.{Reach, start, next, gets, takes}
use nmfs.Journal.Listing.{listed}
use nmfs.Journal.Promises.{retry_first, accepted-listed, taken_open}

abbrev dir_ino : Uuid
dir_ino = replicate 16 1

abbrev to_string : Uuid → Bytes
to_string ino = ino

abbrev opened : Journal
opened = (get_entry dir_ino new_journal).0

opened-Reach : Reach memory to_string opened
opened-Reach = next start (gets new_journal dir_ino)

retry_first_example :
    (retry 1 removes_self dir_ino opened ≡ (
      (act removes_self (get_entry dir_ino opened).1 (get_entry dir_ino opened).0).0,
      some (apply removes_self ((get_entry dir_ino opened).0.heap (get_entry dir_ino opened).1)),
    ))
    × (((get_entry dir_ino opened).0.heap (get_entry dir_ino opened).1).s_ino ≡ dir_ino)
retry_first_example = retry_first opened-Reach removes_self dir_ino 0

abbrev gone : Transaction
gone = record (new_transaction dir_ino) { status = s_deleted }

accepted-listed_example : listed 0 (opened.table ++ opened.taken) ≡ true
unfolding get_entry make_entry new_journal new_transaction find apply rmself
accepted-listed_example = accepted-listed {tx = gone} opened-Reach removes_self 0 (omega arith) refl

abbrev taken : Journal
taken = replace_map opened

taken_open_example : ((taken.heap 0).committed ≡ false) × ((taken.heap 0).s_ino ≡ dir_ino)
unfolding get_entry make_entry new_journal new_transaction find put erase replace_map
taken_open_example = taken_open (next opened-Reach (takes opened refl)) dir_ino 0 [] refl
