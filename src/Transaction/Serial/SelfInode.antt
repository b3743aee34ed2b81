-- ===== src/Transaction/Serial/SelfInode.antt =====
-- What deserialize() of client/journal/transaction.cpp makes of a transaction that holds the inode
-- of its directory.
use mathlib.Core.List.{append_assoc}
use nmfs.Prelude.{
  ℕ, zero, suc, ◌+◌, ◌<◌, ◌≤◌, Bytes, ◌≡◌, refl, ◌∙◌, ap, Bool, true, false, Option, none, some, [],
  ◌∷◌, ◌++◌, length, drop, drop-append, length-append, arith,
}
use nmfs.Map.{Map}
use nmfs.Codec.{le_bytes, get_le, get_bytes, get_le-append, length-le_bytes}
use nmfs.Uuid.{Uuid}
use nmfs.Inode.{Inode, s_islnk}
use nmfs.Inode.Layout as Layout
use nmfs.Inode.Layout.RoundTrip.{CoreFits, length-serialize_inode}
use nmfs.Transaction.{Transaction, new_transaction}
use nmfs.Transaction.Serial.{
  Parsed, parsed, broken, need, ◌>>=◌, Reader, sized, s_inode_bytes, dentry_bytes, f_inode_bytes,
  body_bytes, serialize, get_s_inode, get_dentries, deserialize, minus_one, sizeof_inode,
  journal_inode,
}
use nmfs.Transaction.Serial.Entries.{get_byte}
use nmfs.Transaction.Serial.Files.{deserialize_file, differs, reloaded}

past_end : (n : ℕ) (bs : Bytes) → length bs ≤ n → drop n bs ≡ []
past_end zero [] h = refl
past_end (suc n) [] h = refl
past_end zero (b ∷ bs) h = absurd (omega arith)
past_end (suc n) (b ∷ bs) h = past_end n bs (omega arith)

nothing_left : get_le 1 [] ≡ none
unfolding get_le get_bytes
nothing_left = refl

length-s_inode :
    (i : Inode)
    → CoreFits i.core
    → s_islnk i.core.i_mode ≡ false
    → i.core.link_target_len ≡ 0
    → length (Layout.serialize i) ≡ 104
length-s_inode i h other e =
    length-serialize_inode i h.ino (record { target = λ l. absurd (cc (l, other)) }) ∙ omega arith

-- What get_s_inode() does behind the size.
skip :
    (read : Reader) (i : Inode) (rest : Bytes) (n : ℕ)
    → CoreFits i.core
    → s_islnk i.core.i_mode ≡ false
    → n < minus_one
    → length (Layout.serialize i ++ rest) ≤ sizeof_inode
    → ◌≡◌ {A = Parsed (Option Inode × Bytes)}
        (elim (nmfs.Prelude.Tests.◌==◌ n minus_one) [
          | true ↦ parsed (none, Layout.serialize i ++ rest)
          | false ↦ (do
            i' ← need (Layout.deserialize read (Layout.serialize i ++ rest) journal_inode)
            parsed (some i', drop sizeof_inode (Layout.serialize i ++ rest)))
        ])
        (parsed (some (reloaded i), []))
skip read i rest n h other small short =
    rw (differs n minus_one small, deserialize_file read i journal_inode rest h other)
      (ap (λ r. parsed (some (reloaded i), r)) (past_end sizeof_inode _ short))

-- The inode is read as it was written, but what is skipped is more than that.
get_s_inode-s_inode_bytes :
    (read : Reader) (i : Inode) (rest : Bytes)
    → CoreFits i.core
    → s_islnk i.core.i_mode ≡ false
    → i.core.link_target_len ≡ 0
    → length rest ≤ 88
    → get_s_inode read (s_inode_bytes (some i) ++ rest) ≡ parsed (some (reloaded i), [])
unfolding get_s_inode s_inode_bytes sized
get_s_inode-s_inode_bytes read i rest h other e short =
    let size : length (Layout.serialize i) ≡ 104 = length-s_inode i h other e in
    simp append_assoc (
      rw (get_le-append 4 (length (Layout.serialize i)) _ (omega arith)) (
        skip read i rest (length (Layout.serialize i)) h other (omega arith)
          (omega (arith, length-append (Layout.serialize i) rest))))

no_entries : (fuel : ℕ) (m : Map (Bool × Uuid)) → get_dentries fuel [] m ≡ broken
unfolding get_dentries
no_entries zero m = refl
no_entries (suc fuel) m = rw nothing_left

-- Where a transaction holds the inode of its directory and the parts behind it take 88 bytes or
-- fewer, deserialize() skips over all of them and reads on past the end of the buffer.
pub deserialize-serialize_self :
    (read : Reader) (tx : Transaction) (ino : Uuid) (i : Inode)
    → tx.s_inode ≡ some i
    → CoreFits i.core
    → s_islnk i.core.i_mode ≡ false
    → i.core.link_target_len ≡ 0
    → length (dentry_bytes tx.dentries ++ f_inode_bytes tx.f_inodes) ≤ 88
    → deserialize read (serialize tx) (new_transaction ino) ≡ broken
unfolding deserialize serialize body_bytes new_transaction
deserialize-serialize_self read tx ino i e h other len short = rw (
  drop-append 4 (le_bytes 4 (4 + length (body_bytes tx))) (body_bytes tx) (length-le_bytes 4 _),
  get_byte 1 _ (omega arith),
  e,
  get_s_inode-s_inode_bytes read i (dentry_bytes tx.dentries ++ f_inode_bytes tx.f_inodes) h other
      len short,
  no_entries,
)
