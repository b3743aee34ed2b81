-- ===== src/Transaction/Sync/Directory.antt =====
-- What sync() of client/journal/transaction.cpp makes of the directory, against the calls that the
-- transaction has taken.
use mathlib.Core.Path.{subst}
use nmfs.Prelude.{
  ◌⊎◌, Bytes, ◌≡◌, refl, ap, ◌∙◌, Bool, true, false, List, [], ◌∷◌, arith, ==_iff, inl, inr,
}
use nmfs.Map.{Map, IsMap, find, find-put, find-erase, find-cons, find-empty}
use nmfs.Uuid.{Uuid}
use nmfs.Dentry.{Dentry, add_child, delete_child}
use nmfs.Transaction.{
  new_transaction, Transaction, new_transaction, accepted, refused, threw, Outcome,
}
use nmfs.Transaction.Calls.{
  after, apply-IsWellFormed, new_transaction-IsWellFormed, Call, apply, IsWellFormed,
  apply-IsWellFormed, new_transaction-IsWellFormed,
}
use nmfs.Transaction.Effect.{Names, overlay, name_effect, apply-name_effect}
use nmfs.Transaction.Sync.{apply_entries}

abbrev pub names_of : Dentry → Names
names_of d name = find name d.child_list

-- The loop of sync() over the entries changes the list of the directory as the entries say.
pub apply_entries-overlay :
    (m : Map (Bool × Uuid)) (d : Dentry) (n : Bytes)
    → IsMap m
    → names_of (apply_entries m d) n ≡ overlay m (names_of d) n
unfolding apply_entries overlay add_child delete_child
apply_entries-overlay [] d n u = rw (find-empty {V = Bool × Uuid})
apply_entries-overlay ((name, (true, ino)) ∷ m) d n u =
    apply_entries-overlay m (add_child name ino d) n u.1
    ∙ ground (
      arith,
      find-cons n name (true, ino) m,
      find-put name n ino d.child_list,
      u.0,
      ==_iff name n,
    )
apply_entries-overlay ((name, (false, ino)) ∷ m) d n u =
    apply_entries-overlay m (delete_child name d) n u.1
    ∙ ground (
      arith,
      find-cons n name (false, ino) m,
      find-erase {V = Uuid} name n d.child_list,
      u.0,
      ==_iff name n,
    )

-- Calls in turn; the first one that is not accepted ends them.
unfoldable pub run : List Call → Transaction → Outcome
run [] tx = accepted tx
run (c ∷ cs) tx = elim (apply c tx) [
  | accepted tx' ↦ run cs tx'
  | refused tx' ↦ refused tx'
  | threw tx' ↦ threw tx'
]

-- What calls in turn do to the names of a directory.
unfoldable pub effects : List Call → Names → Names
effects [] names = names
effects (c ∷ cs) names = effects cs (name_effect c names)

Outcome-cases :
    (o : Outcome)
    → ((tx : Transaction) × (o ≡ accepted tx))
      ⊎ (((tx : Transaction) × (o ≡ refused tx)) ⊎ ((tx : Transaction) × (o ≡ threw tx)))
Outcome-cases (accepted tx) = inl (tx, refl)
Outcome-cases (refused tx) = inr (inl (tx, refl))
Outcome-cases (threw tx) = inr (inr (tx, refl))

same_names :
    (c : Call) (tx tx' : Transaction) (base : Names)
    → apply c tx ≡ accepted tx'
    → overlay tx'.dentries base ≡ name_effect c (overlay tx.dentries base)
same_names c tx tx' base e i n = apply-name_effect c tx tx' base n e i

run-effects :
    (cs : List Call) (tx tx' : Transaction) (base : Names)
    → IsWellFormed tx
    → run cs tx ≡ accepted tx'
    → IsWellFormed tx' × (overlay tx'.dentries base ≡ effects cs (overlay tx.dentries base))
unfolding run effects
run-effects [] tx tx' base wf h =
    let e : tx ≡ tx' = cc h in
    subst (λ t. IsWellFormed t × (overlay t.dentries base ≡ overlay tx.dentries base)) e (wf, refl)
run-effects (c ∷ cs) tx tx' base wf h = elim (Outcome-cases (apply c tx)) [
  | inl (tx1, e) ↦
      let (wf', eff) =
        run-effects cs tx1 tx' base
          (subst (λ o. IsWellFormed (after o)) e (apply-IsWellFormed c tx wf)) (rw (e, run) at h) in
      (wf', eff ∙ ap (effects cs) (same_names c tx tx1 base e))
  | inr (inl (tx1, e)) ↦ absurd (let h' = rw (e, run) at h in cc h')
  | inr (inr (tx1, e)) ↦ absurd (let h' = rw (e, run) at h in cc h')
]

no_overlay : (base : Names) → overlay [] base ≡ base
unfolding overlay find
no_overlay base = refl

-- Calls that a new transaction accepts in turn, and the loop of sync() over the entries that they
-- leave, make of a directory the one on which those calls were made one after the other: for each
-- name the inode number, or nothing.
pub run-apply_entries :
    (cs : List Call) (ino : Uuid) (tx : Transaction) (d : Dentry) (n : Bytes)
    → run cs (new_transaction ino) ≡ accepted tx
    → find n (apply_entries tx.dentries d).child_list ≡ effects cs (λ k. find k d.child_list) n
unfolding new_transaction overlay
run-apply_entries cs ino tx d n h =
    let (wf, eff) =
      run-effects cs (new_transaction ino) tx (names_of d) (new_transaction-IsWellFormed ino) h in
    apply_entries-overlay tx.dentries d n wf.names
    ∙ ap (λ f. f n) (eff ∙ ap (effects cs) (no_overlay (names_of d)))
