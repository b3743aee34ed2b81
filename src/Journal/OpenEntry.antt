-- ===== src/Journal/OpenEntry.antt =====
-- The open transaction of a directory before and after a call, client/journal/journal.cpp and
-- journal_table.cpp: the calls of other directories do not touch it.
use nmfs.Prelude.{
  ==_iff, eq_of_==, ◌==◌, ℕ, suc, ◌<◌, ◌≡◌, refl, ap, sym, ◌∙◌, Bytes, false, none, some, [], ◌∷◌,
  ◌++◌, arith, Bool-cases, Option-cases, inl, inr, if◌then◌else◌,
}
use nmfs.Map.{Map, find, find-put, find-put_self}
use nmfs.Uuid.{Uuid}
use nmfs.Rados.Store.{IoCtx}
use nmfs.Transaction.{Transaction, new_transaction}
use nmfs.Transaction.Calls.{Call, apply, after}
use nmfs.Journal.{Journal, get_entry, make_entry, act, retry}
use nmfs.Journal.Steps.{Reach, next, gets, acts}
use nmfs.Journal.Listing.{Below}
use nmfs.Journal.Sound.{IsSound, get_entry-IsSound, Reach-IsSound}
use nmfs.Journal.Promises.{open_at, retry_first}

-- The transaction that get_entry() returns.
unfoldable pub open_tx : Uuid → Journal → Transaction
open_tx ino j = (get_entry ino j).0.heap (get_entry ino j).1

-- The journal after a call on it.
unfoldable pub logged : Call → Uuid → Journal → Journal
logged c ino j = (act c (get_entry ino j).1 (get_entry ino j).0).0

find-Below :
    (n : ℕ) (m behind : Map ℕ) (ino : Uuid) (a : ℕ)
    → Below n (m ++ behind)
    → find ino m ≡ some a
    → a < n
unfolding find
find-Below n [] behind ino a h e = absurd (cc e)
find-Below n ((k, b) ∷ m) behind ino a (low, below) e = elim (Bool-cases (k == ino)) [
  | inl same ↦ let e' = rw same at e in ground arith
  | inr other ↦ let h = find-Below b m behind ino a below (rw other at e) in omega arith
]

open_tx_found :
    (ino : Uuid) (a : ℕ) (j : Journal) → find ino j.table ≡ some a → open_tx ino j ≡ j.heap a
unfolding open_tx get_entry
open_tx_found ino a j e = ground arith

open_tx_new :
    (ino : Uuid) (j : Journal) → find ino j.table ≡ none → open_tx ino j ≡ new_transaction ino
unfolding open_tx get_entry make_entry
open_tx_new ino j e = ground arith

-- The entry is in the table once it has been asked for.
get_entry_filed :
    (ino : Uuid) (j : Journal) → find ino (get_entry ino j).0.table ≡ some (get_entry ino j).1
unfolding get_entry make_entry
get_entry_filed ino j = elim (Option-cases (find ino j.table)) [
  | inl e ↦ rw (e, get_entry) (find-put_self ino j.next j.table)
  | inr (a, e) ↦ rw (e, get_entry) e
]

make_entry_table :
    (ino ino' : Uuid) (j : Journal)
    → (ino == ino') ≡ false
    → find ino' (make_entry ino j).table ≡ find ino' j.table
unfolding make_entry
make_entry_table ino ino' j other = ground (arith, find-put ino ino' j.next j.table)

make_entry_heap :
    (ino : Uuid) (b : ℕ) (j : Journal) → b < j.next → (make_entry ino j).heap b ≡ j.heap b
unfolding make_entry
make_entry_heap ino b j low = ground arith

make_entry_other :
    (ino ino' : Uuid) (j : Journal)
    → IsSound j
    → (ino == ino') ≡ false
    → open_tx ino' (make_entry ino j) ≡ open_tx ino' j
make_entry_other ino ino' j s other =
    let same = make_entry_table ino ino' j other in
    elim (Option-cases (find ino' j.table)) [
      | inl e ↦ open_tx_new ino' (make_entry ino j) (same ∙ e) ∙ sym (open_tx_new ino' j e)
      | inr (b, e) ↦
          let low = find-Below j.next j.table j.taken ino' b s.descending e in
          open_tx_found ino' b (make_entry ino j) (same ∙ e)
          ∙ make_entry_heap ino b j low
          ∙ sym (open_tx_found ino' b j e)
    ]

get_entry_other :
    (ino ino' : Uuid) (j : Journal)
    → IsSound j
    → (ino == ino') ≡ false
    → open_tx ino' (get_entry ino j).0 ≡ open_tx ino' j
unfolding get_entry
get_entry_other ino ino' j s other = elim (Option-cases (find ino j.table)) [
  | inl e ↦ rw (e, get_entry) (make_entry_other ino ino' j s other)
  | inr (a, e) ↦ rw (e, get_entry) refl
]

act_other : (c : Call) (a b : ℕ) (j : Journal) → (a ≡ b → ⊥) → (act c a j).0.heap b ≡ j.heap b
unfolding act
act_other c a b j h = ground arith

act_table :
    (c : Call) (a : ℕ) (j : Journal) (k : Uuid) → find k (act c a j).0.table ≡ find k j.table
unfolding act
act_table c a j k = refl

-- A call on one directory's transaction leaves what another directory has.
act_apart :
    (c : Call) (ino ino' : Uuid) (a : ℕ) (j : Journal)
    → IsSound j
    → find ino j.table ≡ some a
    → (ino == ino') ≡ false
    → open_tx ino' (act c a j).0 ≡ open_tx ino' j
act_apart c ino ino' a j s filed other = elim (Option-cases (find ino' j.table)) [
  | inl e ↦ open_tx_new ino' (act c a j).0 (act_table c a j ino' ∙ e) ∙ sym (open_tx_new ino' j e)
  | inr (b, e) ↦
      let mine = (open_at j.heap j.table j.taken ino a s.all_open filed).1 in
      let its = (open_at j.heap j.table j.taken ino' b s.all_open e).1 in
      open_tx_found ino' b (act c a j).0 (act_table c a j ino' ∙ e)
      ∙ act_other c a b j (λ h. apart mine its (ap j.heap h))
      ∙ sym (open_tx_found ino' b j e)
]
  where
    apart : {x y : Transaction} → x.s_ino ≡ ino → y.s_ino ≡ ino' → x ≡ y → ⊥
    apart p q e =
        let same : ino ≡ ino' = sym p ∙ ap (λ t. t.s_ino) e ∙ q in
        let eq = (==_iff ino ino').1 same in cc (eq, other)

act_self :
    (c : Call) (ino : Uuid) (a : ℕ) (j : Journal)
    → find ino j.table ≡ some a
    → open_tx ino (act c a j).0 ≡ after (apply c (j.heap a))
unfolding act
act_self c ino a j filed = open_tx_found ino a (act c a j).0 filed ∙ ground arith

-- The transaction of each directory after a call: that of the call's directory has taken it.
pub open_tx-logged :
    (c : Call) (ino ino' : Uuid) (j : Journal)
    → IsSound j
    → open_tx ino' (logged c ino j)
      ≡ (if ino == ino' then after (apply c (open_tx ino j)) else open_tx ino' j)
unfolding logged open_tx
open_tx-logged c ino ino' j s = elim (Bool-cases (ino == ino')) [
  | inl e ↦
      let same = eq_of_== ino ino' e in
      rw (e, ← same)
        (act_self c ino (get_entry ino j).1 (get_entry ino j).0 (get_entry_filed ino j))
  | inr e ↦ rw e (
      act_apart c ino ino' (get_entry ino j).1 (get_entry ino j).0 (get_entry-IsSound ino j s)
        (get_entry_filed ino j) e
      ∙ get_entry_other ino ino' j s e)
]

module _ {io : IoCtx} {to_string : Uuid → Bytes} where
  get_entry_low :
      {j : Journal}
      → Reach io to_string j
      → (ino : Uuid) → (get_entry ino j).1 < (get_entry ino j).0.next
  get_entry_low {j} r ino =
      let s = Reach-IsSound (next r (gets j ino)) in
      find-Below (get_entry ino j).0.next (get_entry ino j).0.table (get_entry ino j).0.taken ino
        (get_entry ino j).1 s.descending (get_entry_filed ino j)

  -- A call leads from what the journal can come to, to what it can come to.
  pub logged-Reach :
      {j : Journal}
      → Reach io to_string j
      → (c : Call) (ino : Uuid) → Reach io to_string (logged c ino j)
  unfolding logged
  logged-Reach {j} r c ino =
      next (next r (gets j ino))
        (acts (get_entry ino j).0 c (get_entry ino j).1 (get_entry_low r ino))

  -- The loop of the journal returns in its first round, unless another thread comes in between.
  pub retry-logged :
      {j : Journal}
      → Reach io to_string j
      → (c : Call) (ino : Uuid) (fuel : ℕ)
      → retry (suc fuel) c ino j ≡ (logged c ino j, some (apply c (open_tx ino j)))
  unfolding logged open_tx
  retry-logged r c ino fuel = (retry_first r c ino fuel).0
