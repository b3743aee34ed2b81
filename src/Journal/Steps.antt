-- ===== src/Journal/Steps.antt =====
-- The clients and the commit thread of client/journal/journal.cpp as they interleave. A client may
-- stop between the call that gets a transaction and the call on it, as the loop in journal.cpp
-- takes no lock around the two.
use nmfs.Prelude.{ℕ, ◌<◌, ◌≡◌, Bytes, [], ◌∷◌}
use nmfs.Exec.{ok}
use nmfs.Map.{Map}
use nmfs.Uuid.{Uuid}
use nmfs.Rados.Store.{IoCtx}
use nmfs.Transaction.Calls.{Call}
use nmfs.Journal.{Journal, get_entry, act, replace_map, commit_first, dispatch, new_journal}

module _ (io : IoCtx) (to_string : Uuid → Bytes) where
  -- A client gets a transaction, or calls one that it has got before; the commit thread takes the
  -- map once it is through with the last one, or commits the first transaction of what it has
  -- taken; a checkpoint thread takes a transaction from its queue.
  pub data Step : Journal → Journal → Type 0 where
    gets : (j : Journal) (ino : Uuid) → Step j (get_entry ino j).0
    acts : (j : Journal) (c : Call) (a : ℕ) → a < j.next → Step j (act c a j).0
    takes : (j : Journal) → j.taken ≡ [] → Step j (replace_map j)
    commits :
        (j j' : Journal) (fuel : ℕ) (ino : Uuid) (a : ℕ) (rest : Map ℕ) (s s' : io.State)
        → j.taken ≡ (ino, a) ∷ rest
        → commit_first io to_string fuel ino a rest j s ≡ (ok j', s')
        → Step j j'
    dispatches : (j : Journal) (i : ℕ) → Step j (dispatch i j).0

  -- What the journal of a client can come to.
  pub data Reach : Journal → Type 0 where
    start : Reach new_journal
    next : {j j' : Journal} → Reach j → Step j j' → Reach j'
