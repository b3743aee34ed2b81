-- ===== src/Journal/Sound.antt =====
-- What holds of the open transactions of a client, client/journal/journal_table.cpp and commit.cpp,
-- however its threads interleave.
use mathlib.Core.Path.{subst}
use nmfs.Transaction.Sync.{commit}
use mathlib.Core.List.{append-nil}
use nmfs.Prelude.{
  ℕ, ◌+◌, ◌<◌, ◌≡◌, refl, sym, ap, ◌∙◌, Bytes, true, false, none, List, [], ◌∷◌, ◌++◌, arith,
  if◌then◌else◌, Bool-cases, Option-cases, inl, inr, ◌⊎◌,
}
use nmfs.Prelude.Tests.{◌==◌}
use nmfs.Exec.{ok}
use nmfs.Map.{Map, find, put, erase_missing}
use nmfs.Uuid.{Uuid}
use nmfs.Rados.Store.{IoCtx}
use nmfs.Transaction.{Transaction, new_transaction}
use nmfs.Transaction.Calls.{Call, apply, after, apply_committed, apply_open, apply-s_ino}
use nmfs.Transaction.Sync.Commit.{commit_lem, mapped_ok}
use nmfs.Journal.{
  new_journal, Journal, get_entry, make_entry, act, replace_map, commit_first, committed_first,
  dispatch, issue, store,
}
use nmfs.Journal.Steps.{Step, gets, acts, takes, commits, dispatches, Reach, start, next}
use nmfs.Journal.Listing.{
  AllOpen, AllOpen-store_above, AllOpen-store_same, AllOpen-without, Below, Below-without, listed,
  listed-without,
}

pub record IsSound (j : Journal) : Type 0 where
  pub descending : Below j.next (j.table ++ j.taken)
  pub all_open : AllOpen j.heap (j.table ++ j.taken)
  pub covered :
      (a : ℕ) → a < j.next → (j.heap a).committed ≡ false → listed a (j.table ++ j.taken) ≡ true

store_committed :
    (a b : ℕ) (x : Transaction) (heap : ℕ → Transaction)
    → x.committed ≡ (heap a).committed
    → (store a x heap b).committed ≡ (heap b).committed
store_committed a b x heap h = ground arith

-- A call leaves a transaction as open or committed as it was.
apply-committed : (c : Call) (tx : Transaction) → (after (apply c tx)).committed ≡ tx.committed
apply-committed c tx = elim (Bool-cases tx.committed) [
  | inl e ↦ ap (λ o. (after o).committed) (apply_committed c tx e)
  | inr e ↦ (apply_open c tx e).1 ∙ sym e
]

act-IsSound : (c : Call) (a : ℕ) (j : Journal) → IsSound j → IsSound (act c a j).0
unfolding act
act-IsSound c a j s = record {
  descending = s.descending;
  all_open =
      AllOpen-store_same a (after (apply c (j.heap a))) j.heap (j.table ++ j.taken)
        (apply-committed c (j.heap a)) (apply-s_ino c (j.heap a)) s.all_open;
  covered = λ b low open_. s.covered b low (
      sym (store_committed a b (after (apply c (j.heap a))) j.heap (apply-committed c (j.heap a)))
      ∙ open_);
}

newer :
    (b : ℕ) (j : Journal) (x : Transaction)
    → b < j.next + 1
    → ((b == j.next) ≡ true) ⊎ ((b == j.next) ≡ false)
    → IsSound j
    → (store j.next x j.heap b).committed ≡ false
    → (if b == j.next then true else listed b (j.table ++ j.taken)) ≡ true
newer b j x low (inl e) s o = rw e
newer b j x low (inr e) s o =
    let other : (j.next == b) ≡ false = ground arith in
    rw e (s.covered b (ground arith) (rw other at o))

make_entry-IsSound :
    (ino : Uuid) (j : Journal) → find ino j.table ≡ none → IsSound j → IsSound (make_entry ino j)
unfolding make_entry put new_transaction
make_entry-IsSound ino j fresh s = record {
  descending = rw (erase_missing ino j.table fresh) (omega arith, s.descending);
  all_open = rw (erase_missing ino j.table fresh) (
    ground arith,
    ground arith,
    AllOpen-store_above j.next j.next (new_transaction ino) j.heap (j.table ++ j.taken)
        (omega arith) s.descending s.all_open,
  );
  covered = λ b low open_.
      rw (erase_missing ino j.table fresh) (newer b j _ low (Bool-cases (b == j.next)) s open_);
}

pub get_entry-IsSound : (ino : Uuid) (j : Journal) → IsSound j → IsSound (get_entry ino j).0
unfolding get_entry
get_entry-IsSound ino j s = elim (Option-cases (find ino j.table)) [
  | inl e ↦ rw (e, get_entry) (make_entry-IsSound ino j e s)
  | inr (a, e) ↦ rw (e, get_entry) s
]

replace_map-IsSound : (j : Journal) → j.taken ≡ [] → IsSound j → IsSound (replace_map j)
unfolding replace_map
replace_map-IsSound j e s =
    let all : j.table ++ j.taken ≡ j.table = rw e (append-nil j.table) in
    record {
      descending = rw⁻¹ all s.descending;
      all_open = rw⁻¹ all s.all_open;
      covered = λ b low o. rw⁻¹ all (s.covered b low o);
    }

-- What is open after a committed transaction has been written is another one.
written_apart :
    (a b : ℕ) (x : Transaction) (heap : ℕ → Transaction)
    → x.committed ≡ true
    → (store a x heap b).committed ≡ false
    → ((b == a) ≡ false) × ((a == b) ≡ false)
written_apart a b x heap c o = elim (Bool-cases (a == b)) [
  | inl e ↦ absurd (let o' = rw e at o in cc (c, o'))
  | inr e ↦ (ground arith, e)
]

committed_first-IsSound :
    (j : Journal) (ino : Uuid) (a : ℕ) (rest : Map ℕ) (tx : Transaction)
    → j.taken ≡ (ino, a) ∷ rest
    → tx.committed ≡ true
    → IsSound j
    → IsSound (committed_first ino a rest tx j)
unfolding committed_first issue
committed_first-IsSound j ino a rest tx e closed s =
    let below = rw e at s.descending in
    record {
      descending = Below-without j.next j.table ino a rest below;
      all_open = AllOpen-without j.next tx j.heap j.table ino a rest below (rw e at s.all_open);
      covered = λ b low open_.
          let other = written_apart a b tx j.heap closed open_ in
          sym (listed-without b a j.table ino rest other.0)
          ∙ (rw e at s.covered b low (rw other.1 at open_));
    }

commit_first-IsSound :
    (io : IoCtx) (to_string : Uuid → Bytes) (j j' : Journal) (fuel : ℕ) (ino : Uuid) (a : ℕ)
    (rest : Map ℕ) (s s' : io.State)
    → j.taken ≡ (ino, a) ∷ rest
    → commit_first io to_string fuel ino a rest j s ≡ (ok j', s')
    → IsSound j
    → IsSound j'
unfolding commit_first
commit_first-IsSound io to_string j j' fuel ino a rest s s' e h sound =
    let (tx, run, same) =
      mapped_ok (commit io to_string fuel (j.heap a) s) (λ tx. committed_first ino a rest tx j) j'
        s' h in
    subst IsSound same (
      committed_first-IsSound j ino a rest tx e
        (commit_lem io to_string fuel (j.heap a) tx s s' run).0 sound)

dispatch-IsSound : (i : ℕ) (j : Journal) → IsSound j → IsSound (dispatch i j).0
unfolding dispatch
dispatch-IsSound i j s = go (j.queues i) refl
  where
    go : (q : List ℕ) → j.queues i ≡ q → IsSound (dispatch i j).0
    go [] e = rw (e, dispatch) s
    go (a ∷ rest) e =
        rw (e, dispatch)
          (record { descending = s.descending; all_open = s.all_open; covered = s.covered })

module _ {io : IoCtx} {to_string : Uuid → Bytes} where
  Step-IsSound : {j j' : Journal} → Step io to_string j j' → IsSound j → IsSound j'
  Step-IsSound (gets j ino) s = get_entry-IsSound ino j s
  Step-IsSound (acts j c a low) s = act-IsSound c a j s
  Step-IsSound (takes j e) s = replace_map-IsSound j e s
  Step-IsSound (commits j j' fuel ino a rest st st' e h) s =
      commit_first-IsSound io to_string j j' fuel ino a rest st st' e h s
  Step-IsSound (dispatches j i) s = dispatch-IsSound i j s

  pub Reach-IsSound : {j : Journal} → Reach io to_string j → IsSound j
  unfolding new_journal
  Reach-IsSound start = record {
    descending = tt;
    all_open = tt;
    covered = λ a low o. absurd (omega arith);
  }
  Reach-IsSound (next r st) = Step-IsSound st (Reach-IsSound r)
