-- ===== src/Transaction/Sync/Mark.antt =====
-- The write of checkpoint() of client/journal/transaction.cpp, which is to clear the valid bit of a
-- transaction in the journal.
use nmfs.Prelude.{
  ◌-◌, false, if◌then◌else◌, ℕ, Option, refl, ◌+◌, Bytes, ◌≡◌, true, false, some, [], ◌∷◌, arith,
  get_elem?, ◌∙◌,
}
use nmfs.Exec.{ok}
use nmfs.Uuid.{Uuid}
use nmfs.Rados.Store.{IoCtx, IsStore}
use nmfs.Rados.Key as Key
use nmfs.Rados.Overwrite.{between}
use nmfs.Rados.WriteLoop.{byte_at}
use nmfs.Rados.Hole.{IsCapped}
use nmfs.Rados.Write.{write-IsWritten}
use nmfs.Transaction.{Transaction}
use nmfs.Transaction.Sync.{clear_mark}

first_byte :
    (o : ℕ) (x : Option ℕ)
    → (if between o (o + 1) o then get_elem? (0 ∷ []) (o - o) else x) ≡ some 0
first_byte o x =
    let within : between o (o + 1) o ≡ true = ground arith in
    let start : o - o ≡ 0 = omega arith in rw (within, start)

fifth_byte :
    (o end : ℕ) (x y z : Option ℕ)
    → (if between o (o + 1) (o + 4) then x else if between end o (o + 4) then y else z) ≡ z
fifth_byte o end x y z =
    let behind : between o (o + 1) (o + 4) ≡ false = ground arith in
    let outside : between end o (o + 4) ≡ false = ground arith in rw (behind, outside)

module _ {io : IoCtx} (st : IsStore io) (to_string : Uuid → Bytes) where
  -- The byte `i` of the journal of the transaction's directory.
  abbrev journal_byte : Transaction → io.State → ℕ → Option ℕ
  journal_byte tx s i = byte_at st Key.journal (to_string tx.s_ino) s i

  -- On a cluster where no call fails, and for a journal none of whose objects is above 4 MiB, the
  -- write zeros the first byte of the transaction, which is the lowest of its size, and leaves the
  -- byte behind the four bytes of the size as it was, which is the valid bit.
  pub clear_mark_misses :
      (tx : Transaction) (s : io.State)
      → IsCapped st Key.journal (to_string tx.s_ino) s
      → (s' : io.State) × (clear_mark io to_string tx s ≡ (ok tt, s'))
        × (journal_byte tx s' tx.offset ≡ some 0)
        × (journal_byte tx s' (tx.offset + 4) ≡ journal_byte tx s (tx.offset + 4))
  unfolding clear_mark
  clear_mark_misses tx s c =
      let (s', run, w) =
        write-IsWritten st Key.journal (to_string tx.s_ino) (0 ∷ []) tx.offset s c in
      (
        s',
        rw run refl,
        w.bytes tx.offset ∙ first_byte tx.offset _,
        w.bytes (tx.offset + 4) ∙ fifth_byte tx.offset _ _ _ _,
      )
