-- ===== src/Transaction/Sync/Commit.antt =====
-- What commit() of client/journal/transaction.cpp returns.
use nmfs.Prelude.{ℕ, Bytes, Bool, ◌≡◌, true, false, Option, if◌then◌else◌, ap, sym}
use nmfs.Exec.{Result, ok, err, Exec, continue, pure, raise, logic_error, ◌>>=◌}
use nmfs.Uuid.{Uuid}
use nmfs.Rados.Store.{IoCtx}
use nmfs.Transaction.{Transaction}
use nmfs.Transaction.Serial as Serial
use nmfs.Transaction.Sync.{commit, append, size_of}
use nmfs.Rados.{stat, write}
use nmfs.Rados.Key as Key

-- Of two steps of which the whole returns, the first has returned.
bind_ok {ℓ} :
    {S A B : Type ℓ} (m : Exec S A) (f : A → Exec S B) (s s' : S) {b : B}
    → (m >>= f) s ≡ (ok b, s')
    → (a : A) × (s1 : S) × (f a s1 ≡ (ok b, s'))
bind_ok {S = S} {A = A} {B = B} m f s s' {b} h = go (m s) h
  where
    go : (r : Result A × S) → continue r f ≡ (ok b, s') → (a : A) × (s1 : S) × (f a s1 ≡ (ok b, s'))
    go (ok a, s1) h = (a, s1, h)
    go (err e, s1) h = absurd (cc h)

-- Of a step that is followed by no other that could throw, the value is known.
pub mapped_ok {ℓ} :
    {S A B : Type ℓ} (r : Result A × S) (f : A → B) (b : B) (s' : S)
    → continue r (λ a. pure (f a)) ≡ (ok b, s')
    → (a : A) × (r ≡ (ok a, s')) × (f a ≡ b)
mapped_ok (ok a, s1) f b s' h = (a, (let e : s1 ≡ s' = cc h in ap (λ s. (ok a, s)) e), cc h)
mapped_ok (err e, s1) f b s' h = absurd (cc h)

module _ (io : IoCtx) (to_string : Uuid → Bytes) where
  -- What is written of `tx` once the size of the journal is known.
  abbrev write_at : Transaction → Option ℕ → Exec io.State ℕ
  write_at tx size =
      write io Key.journal (to_string tx.s_ino) (Serial.serialize tx) (size_of io to_string size)

  abbrev closed_at : Transaction → Option ℕ → Transaction
  closed_at tx size = record tx { committed = true; offset = size_of io to_string size }

  appended :
      (fuel : ℕ) (tx tx' : Transaction) (s s' : io.State)
      → append io to_string fuel tx s ≡ (ok tx', s')
      → (size : Option ℕ) × (closed_at tx size ≡ tx')
  unfolding append
  appended fuel tx tx' s s' h =
      let (size, s1, h1) =
        bind_ok (stat io fuel Key.journal (to_string tx.s_ino))
          (λ size. write_at tx size >>= λ _. pure (closed_at tx size)) s s' {b = tx'} h in
      let (n, _, e) = mapped_ok (write_at tx size s1) (λ n. closed_at tx size) tx' s' h1 in
      (size, e)

  committed_by :
      (fuel : ℕ) (tx tx' : Transaction) (s s' : io.State) (b : Bool)
      → (if b then raise logic_error else append io to_string fuel tx) s ≡ (ok tx', s')
      → (size : Option ℕ) × (closed_at tx size ≡ tx')
  committed_by fuel tx tx' s s' true h = absurd (cc h)
  committed_by fuel tx tx' s s' false h = appended fuel tx tx' s s' h

  -- A transaction that commit() leaves is committed, and of the directory that it was of.
  pub commit_lem :
      (fuel : ℕ) (tx tx' : Transaction) (s s' : io.State)
      → commit io to_string fuel tx s ≡ (ok tx', s')
      → (tx'.committed ≡ true) × (tx'.s_ino ≡ tx.s_ino)
  unfolding commit
  commit_lem fuel tx tx' s s' h =
      let (size, e) = committed_by fuel tx tx' s s' tx.committed h in
      (ap (λ t. t.committed) (sym e), ap (λ t. t.s_ino) (sym e))
