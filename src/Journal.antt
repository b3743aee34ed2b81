-- ===== src/Journal.antt =====
-- client/journal/journal.cpp, journal_table.cpp, commit.cpp, checkpoint.cpp and mqueue.hpp: the open
-- transaction of each directory, the thread that commits them and the queues to the threads that
-- checkpoint them. A std::shared_ptr<transaction> is an address of `heap`.
pub mod Steps
pub mod Listing
pub mod Sound
pub mod Promises
pub mod OpenEntry
pub mod Check
mod Examples
use nmfs.Prelude.{
  ℕ, zero, suc, ◌+◌, ◌%◌, Bytes, Bool, true, false, Option, none, some, List, [], ◌∷◌, ◌++◌,
  if◌then◌else◌,
}
use nmfs.Prelude.Tests.{◌==◌}
use nmfs.Exec.{Exec, Result, ok, err, Error, ◌>>=◌, pure}
use nmfs.Map.{Map, find, put, erase}
use nmfs.Uuid.{Uuid, get_prefix_from_uuid}
use nmfs.Rados.Store.{IoCtx}
use nmfs.Transaction.{Transaction, new_transaction, Outcome, accepted, refused, threw}
use nmfs.Transaction.Calls.{is_refused, Call, apply, after}
use nmfs.Transaction.Sync as Sync

-- NUM_CP_THREAD
abbrev pub num_cp_thread : ℕ
num_cp_thread = 8

-- `next` is the first free address. `table` is the map of the journal_table, `taken` what is left of
-- the map that the loop of the commit thread goes through, and `queues` the transactions on their
-- way to each checkpoint thread.
pub record Journal : Type 0 where
  pub next : ℕ
  pub heap : ℕ → Transaction
  pub table : Map ℕ
  pub taken : Map ℕ
  pub queues : ℕ → List ℕ

-- journal(), at its start
unfoldable pub new_journal : Journal
unfolding new_transaction
new_journal = record {
  next = 0;
  heap = λ a. new_transaction [];
  table = [];
  taken = [];
  queues = λ i. [];
}

-- A write through a pointer.
abbrev pub store {ℓ} : {A : Type ℓ} → ℕ → A → (ℕ → A) → ℕ → A
store a x f b = if a == b then x else f b

-- journal_table::delete_entry(ino)
unfoldable pub delete_entry : Uuid → Journal → Journal
delete_entry ino j = record j { table = erase ino j.table }

-- std::make_shared<transaction>(ino), put into the table
unfoldable pub make_entry : Uuid → Journal → Journal
make_entry ino j = record j {
  next = j.next + 1;
  heap = store j.next (new_transaction ino) j.heap;
  table = put ino j.next j.table;
}

-- journal_table::get_entry(ino)
unfoldable pub get_entry : Uuid → Journal → Journal × ℕ
get_entry ino j = elim (find ino j.table) [ some a ↦ (j, a) | none ↦ (make_entry ino j, j.next) ]

-- journal_table::replace_map(), as the commit thread calls it
unfoldable pub replace_map : Journal → Journal
replace_map j = record j { table = []; taken = j.table }

-- A call on the transaction at an address.
unfoldable pub act : Call → ℕ → Journal → Journal × Outcome
act c a j = let o = apply c (j.heap a) in (record j { heap = store a (after o) j.heap }, o)

-- journal::mkself() to journal::chreg(): the loop that asks for the transaction again as long as it
-- refuses the call. `none` stands for a loop that has used up its fuel.
unfoldable pub retry : ℕ → Call → Uuid → Journal → Journal × Option Outcome
unfolding get_entry act
retry zero c ino j = (j, none)
retry (suc fuel) c ino j =
    let (j1, a) = get_entry ino j in
    let (j2, o) = act c a j1 in
    elim (is_refused o) [ true ↦ retry fuel c ino j2 | false ↦ (j2, some o) ]

-- i = (*((uint64_t *)ino.data)) % NUM_CP_THREAD
unfoldable pub queue_of : Uuid → ℕ
queue_of ino = get_prefix_from_uuid ino % num_cp_thread

-- mqueue::issue(value)
unfoldable pub issue : ℕ → ℕ → Journal → Journal
issue i a j = record j { queues = store i (j.queues i ++ a ∷ []) j.queues }

-- mqueue::dispatch(), with `none` for a queue on which the thread waits
unfoldable pub dispatch : ℕ → Journal → Journal × Option ℕ
dispatch i j = elim (j.queues i) [
  | [] ↦ (j, none)
  | a ∷ rest ↦ (record j { queues = store i rest j.queues }, some a)
]

-- What a round of the commit thread leaves in memory, once commit() has returned `tx`.
unfoldable pub committed_first : Uuid → ℕ → Map ℕ → Transaction → Journal → Journal
unfolding issue queue_of
committed_first ino a rest tx j =
    issue (queue_of ino) a (record j { heap = store a tx j.heap; taken = rest })

module _ (io : IoCtx) (to_string : Uuid → Bytes) where
  open io use {State}

  -- A round of the loop in commit::operator() over the map that was taken.
  unfoldable pub commit_first : ℕ → Uuid → ℕ → Map ℕ → Journal → Exec State Journal
  unfolding committed_first
  commit_first fuel ino a rest j = do
    tx ← Sync.commit io to_string fuel (j.heap a)
    pure (committed_first ino a rest tx j)

  -- A round of checkpoint::operator(), on the transaction that it has got.
  unfoldable pub checkpoint_one : ℕ → ℕ → Journal → Exec State Unit
  checkpoint_one fuel a j = Sync.checkpoint io to_string fuel (j.heap a)
