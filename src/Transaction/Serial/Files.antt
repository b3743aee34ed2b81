-- ===== src/Transaction/Serial/Files.antt =====
-- The loop over the inodes of files in deserialize() of client/journal/transaction.cpp, on what
-- serialize() writes for them.
use mathlib.Core.List.{append_assoc}
use nmfs.Prelude.{
  ℕ, zero, suc, ◌+◌, ◌^◌, ◌<◌, ◌≤◌, ◌≢◌, Bytes, ◌==◌, ==-refl, ==_iff, eq_of_==, ◌≡◌, refl, sym, ap,
  ◌∙◌, Bool, true, false, not, Option, none, some, [], ◌∷◌, ◌++◌, length, drop, drop-append,
  take-append, length-append, if◌then◌else◌, arith, Bool-cases, Option-cases, ltb, inl, inr, ◌⊎◌,
}
use nmfs.Map.{Map, IsMap, find, put, find-cons, find-empty}
use nmfs.Codec.{le_bytes, get_le, get_bytes, get_le-append, le_value, length-le_bytes}
use nmfs.Uuid.{Uuid}
use nmfs.Inode.{Inode, s_islnk}
use nmfs.Inode.Layout as Layout
use nmfs.Inode.Layout.RoundTrip.{CoreFits, get_core-append}
use nmfs.Transaction.Serial.{
  Parsed, parsed, duplicated, broken, need, ◌>>=◌, Reader, sized, f_inode_bytes, get_f_inodes,
  minus_one, journal_inode,
}
use nmfs.Transaction.Serial.Entries.{Apart, Apart-tail, put_all}

-- An inode of a file in a journal: it is listed under its number, is no link, and fits its form.
pub record IsFile (ino : Uuid) (i : Inode) : Type 0 where
  pub number : i.core.i_ino ≡ ino
  pub fits : CoreFits i.core
  pub no_link : s_islnk i.core.i_mode ≡ false
  pub short : length (Layout.serialize i) < 2 ^ 31

abbrev pub AreFiles : Map (Option Inode) → Type 0
AreFiles [] = Unit {0}
AreFiles ((ino, none) ∷ m) = AreFiles m
AreFiles ((ino, some i) ∷ m) = IsFile ino i × AreFiles m

-- An inode that is no link is read from its own bytes, whatever follows them.
pub deserialize_file :
    (read : Reader) (i j : Inode) (rest : Bytes)
    → CoreFits i.core
    → s_islnk i.core.i_mode ≡ false
    → Layout.deserialize read (Layout.serialize i ++ rest) j ≡ some (record j { core = i.core })
unfolding Layout.deserialize Layout.serialize
deserialize_file read i j rest h other = simp append_assoc (rw (get_core-append i.core _ h, other))

-- A file's inode as it is read from a journal: its core, and the location.
abbrev pub reloaded : Inode → Inode
reloaded i = record journal_inode { core = i.core }

-- The inodes that a journal carries: a deleted file is not written.
pub live : Map (Option Inode) → Map (Option Inode)
live [] = []
live ((ino, none) ∷ m) = live m
live ((ino, some i) ∷ m) = (ino, some (reloaded i)) ∷ live m

abbrev pub live_file : Option (Option Inode) → Option (Option Inode)
live_file (some (some i)) = some (some (reloaded i))
live_file _ = none

pub find-live :
    (k : Bytes) (m : Map (Option Inode)) → IsMap m → find k (live m) ≡ live_file (find k m)
unfolding live
find-live k [] u = rw find-empty
find-live k ((ino, none) ∷ m) u =
    ground (arith, find-live k m u.1, find-cons k ino none m, ==_iff ino k)
find-live k ((ino, some i) ∷ m) u = ground (
  arith,
  find-live k m u.1,
  find-cons k ino (some i) m,
  find-cons k ino (some (reloaded i)) (live m),
)

pub live-IsMap : (m : Map (Option Inode)) → IsMap m → IsMap (live m)
unfolding live
live-IsMap [] u = tt
live-IsMap ((ino, none) ∷ m) u = live-IsMap m u.1
live-IsMap ((ino, some i) ∷ m) u = (find-live ino m u.1 ∙ ap live_file u.0, live-IsMap m u.1)

length-sized : (bs rest : Bytes) → length (sized bs ++ rest) ≡ 4 + length bs + length rest
unfolding sized
length-sized bs rest = simp (length-append, length-le_bytes)

pub get_minus_one : get_le 4 (le_bytes 4 minus_one) ≡ some (minus_one, [])
unfolding get_le get_bytes le_bytes le_value
get_minus_one = refl

pub differs : (a b : ℕ) → a < b → nmfs.Prelude.Tests.◌==◌ a b ≡ false
differs a b h = ground arith

not_doubled {ℓ κ} :
    {A : Type ℓ} {B : Type κ} (o : Option A) {p : Parsed B}
    → o ≡ none
    → (elim o [ some _ ↦ duplicated | none ↦ p ]) ≡ p
not_doubled none e = refl
not_doubled (some a) e = cc

low_case :
    {B : Type 0} (n : ℕ) (x y : B)
    → n < 2 ^ 31
    → (elim (ltb n (2 ^ 31)) [ false ↦ x | true ↦ y ]) ≡ y
low_case n x y h = let low : ltb n (2 ^ 31) ≡ true = ground arith in rw low

-- A round of the loop behind the size.
file_case :
    (read : Reader) (fuel : ℕ) (ino : Uuid) (i : Inode) (rest : Bytes) (acc : Map (Option Inode))
    → IsFile ino i
    → find i.core.i_ino acc ≡ none
    → (n : ℕ) → length (Layout.serialize i) ≡ n
    → (elim (nmfs.Prelude.Tests.◌==◌ n minus_one) [
      | true ↦ parsed acc
      | false ↦ (do
        i' ← need (Layout.deserialize read (Layout.serialize i ++ rest) journal_inode)
        elim (find i'.core.i_ino acc) [
          | some _ ↦ duplicated
          | none ↦ elim (ltb n (2 ^ 31)) [
            | false ↦ broken
            | true ↦
                get_f_inodes read fuel
                  (drop n (Layout.serialize i ++ rest))
                  (put i'.core.i_ino (some i') acc)
          ]
        ])
    ])
      ≡ get_f_inodes read fuel rest (put i.core.i_ino (some (reloaded i)) acc)
file_case read fuel ino i rest acc file fresh n e =
    rw
      (
        differs n minus_one (omega (arith, file.short)),
        deserialize_file read i journal_inode rest file.fits file.no_link,
      )
      (not_doubled _ fresh
        ∙ low_case n _ _ (omega (arith, file.short))
        ∙ ap (λ r. get_f_inodes read fuel r (put i.core.i_ino (some (reloaded i)) acc))
            (drop-append n (Layout.serialize i) rest e))

file_round :
    (read : Reader) (fuel : ℕ) (ino : Uuid) (i : Inode) (rest : Bytes) (acc : Map (Option Inode))
    → IsFile ino i
    → find ino acc ≡ none
    → get_f_inodes read (suc fuel) (sized (Layout.serialize i) ++ rest) acc
      ≡ get_f_inodes read fuel rest (put ino (some (reloaded i)) acc)
unfolding get_f_inodes sized
file_round read fuel ino i rest acc file fresh =
    simp append_assoc (
      rw (get_le-append 4 (length (Layout.serialize i)) _ (omega (arith, file.short))) (
        file_case read fuel ino i rest acc file (ap (λ k. find k acc) file.number ∙ fresh)
          (length (Layout.serialize i)) refl))
    ∙ ap (λ k. get_f_inodes read fuel rest (put k (some (reloaded i)) acc)) file.number

pub get_f_inodes-f_inode_bytes :
    (read : Reader) (fuel : ℕ) (m acc : Map (Option Inode))
    → length (f_inode_bytes m) < fuel
    → AreFiles m
    → IsMap m
    → Apart (live m) acc
    → get_f_inodes read fuel (f_inode_bytes m) acc ≡ parsed (put_all (live m) acc)
unfolding get_f_inodes f_inode_bytes live put_all sized
get_f_inodes-f_inode_bytes read zero m acc h a u p = absurd (omega arith)
get_f_inodes-f_inode_bytes read (suc fuel) [] acc h a u p = rw get_minus_one
get_f_inodes-f_inode_bytes read (suc fuel) ((ino, none) ∷ m) acc h a u p =
    get_f_inodes-f_inode_bytes read (suc fuel) m acc h a u.1 p
get_f_inodes-f_inode_bytes read (suc fuel) ((ino, some i) ∷ m) acc h (file, others) u p =
    file_round read fuel ino i (f_inode_bytes m) acc file
      (p ino (some (reloaded i)) (rw (find-cons, ==-refl ino)))
    ∙ get_f_inodes-f_inode_bytes read fuel m (put ino (some (reloaded i)) acc)
        (omega (arith, length-sized (Layout.serialize i) (f_inode_bytes m), h)) others u.1
        (Apart-tail ino (some (reloaded i)) (live m) acc (find-live ino m u.1 ∙ ap live_file u.0) p)
