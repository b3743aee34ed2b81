-- ===== src/Journal/Promises.antt =====
-- What the journal of a client promises to its callers, client/journal/journal.cpp, and to its
-- commit thread, client/journal/commit.cpp.
use nmfs.Prelude.{
  ==_iff, ℕ, suc, ◌<◌, ◌≡◌, refl, Bytes, Bool, true, false, some, [], ◌∷◌, ◌++◌, arith, Bool-cases,
  Option-cases, inl, inr,
}
use nmfs.Map.{Map, find}
use nmfs.Uuid.{Uuid}
use nmfs.Rados.Store.{IoCtx}
use nmfs.Transaction.{Transaction, new_transaction, accepted}
use nmfs.Transaction.Calls.{Call, apply, apply_committed, apply_open}
use nmfs.Journal.{Journal, get_entry, make_entry, act, retry}
use nmfs.Journal.Steps.{Reach}
use nmfs.Journal.Listing.{AllOpen, listed}
use nmfs.Journal.Sound.{IsSound, Reach-IsSound}

pub open_at :
    (heap : ℕ → Transaction) (m behind : Map ℕ) (ino : Uuid) (a : ℕ)
    → AllOpen heap (m ++ behind)
    → find ino m ≡ some a
    → ((heap a).committed ≡ false) × ((heap a).s_ino ≡ ino)
unfolding find
open_at heap [] behind ino a o e = absurd (cc e)
open_at heap ((k, b) ∷ m) behind ino a (open_, of, rest) e =
    ground (arith, ==_iff k ino, open_at heap m behind ino a rest, open_, of, e)

-- The transaction that get_entry() returns is open, and of the directory that was asked for.
pub get_entry_open :
    (ino : Uuid) (j : Journal)
    → IsSound j
    → (((get_entry ino j).0.heap (get_entry ino j).1).committed ≡ false)
      × (((get_entry ino j).0.heap (get_entry ino j).1).s_ino ≡ ino)
unfolding get_entry make_entry new_transaction
get_entry_open ino j s = elim (Option-cases (find ino j.table)) [
  | inl e ↦ rw (e, get_entry) (ground arith, ground arith)
  | inr (a, e) ↦ rw (e, get_entry) (open_at j.heap j.table j.taken ino a s.all_open e)
]

not_again {ℓ} :
    {A : Type ℓ} (b : Bool) (x y : A) → b ≡ false → (elim b [ true ↦ x | false ↦ y ]) ≡ y
not_again true x y h = cc h
not_again false x y h = refl

module _ {io : IoCtx} {to_string : Uuid → Bytes} where
  -- Whatever the threads have done before, the transaction that get_entry() returns for a
  -- directory is that directory's and takes the call: the loop of the journal ends in its first
  -- round unless the commit thread comes in between.
  pub retry_first :
      {j : Journal} (r : Reach io to_string j) (c : Call) (ino : Uuid) (fuel : ℕ)
      → (retry (suc fuel) c ino j ≡ (
        (act c (get_entry ino j).1 (get_entry ino j).0).0,
        some (apply c ((get_entry ino j).0.heap (get_entry ino j).1)),
      ))
        × (((get_entry ino j).0.heap (get_entry ino j).1).s_ino ≡ ino)
  unfolding retry
  retry_first {j} r c ino fuel =
      let (o, of) = get_entry_open ino j (Reach-IsSound r) in
      (not_again _ _ _ (apply_open c _ o).0, of)

  -- A call that is accepted has gone to a transaction that the table or the commit thread still
  -- holds, so that what it has changed is still to be committed.
  pub accepted-listed :
      {j : Journal} {tx : Transaction} (r : Reach io to_string j) (c : Call) (a : ℕ)
      → a < j.next
      → apply c (j.heap a) ≡ accepted tx
      → listed a (j.table ++ j.taken) ≡ true
  accepted-listed {j} {tx} r c a low e = elim (Bool-cases (j.heap a).committed) [
    | inl closed ↦ absurd (let h = apply_committed c (j.heap a) closed in cc (h, e))
    | inr open_ ↦ (Reach-IsSound r).covered a low open_
  ]

  -- The commit thread never comes to a transaction that is committed already, at which commit()
  -- would throw, and none that is filed under another directory than its own.
  pub taken_open :
      {j : Journal} (r : Reach io to_string j) (ino : Uuid) (a : ℕ) (rest : Map ℕ)
      → j.taken ≡ (ino, a) ∷ rest
      → ((j.heap a).committed ≡ false) × ((j.heap a).s_ino ≡ ino)
  taken_open {j} r ino a rest e = within j.heap j.table (rw e at (Reach-IsSound r).all_open)
    where
      within :
          (heap : ℕ → Transaction) (m : Map ℕ)
          → AllOpen heap (m ++ (ino, a) ∷ rest)
          → ((heap a).committed ≡ false) × ((heap a).s_ino ≡ ino)
      within heap [] (open_, of, others) = (open_, of)
      within heap ((k, b) ∷ m) (_, _, others) = within heap m others
