-- ===== src/Transaction/Serial/Entries.antt =====
-- The loop over the entries in deserialize() of client/journal/transaction.cpp, on what
-- serialize() writes for them.
use mathlib.Core.List.{append_assoc}
use nmfs.Prelude.{
  ℕ, zero, suc, ◌^◌, ◌<◌, Bytes, ◌==◌, ==-refl, ==_iff, eq_of_==, ◌≡◌, refl, ◌∙◌, Bool, true, false,
  none, some, [], ◌∷◌, ◌++◌, length, arith, Bool-cases, inl, inr, ◌⊎◌,
}
use nmfs.Map.{Map, IsMap, find, put, find-cons, find-put, find-empty}
use nmfs.Codec.{get_le, get_bytes, get_length-append, get_bytes-append, le_value}
use nmfs.Uuid.{Uuid}
use nmfs.Transaction.Serial.{parsed, sized, dentry_bytes, get_dentries}

-- No key of one map is in the other.
abbrev pub Apart {ℓ} : {V : Type ℓ} → Map V → Map V → Type ℓ
Apart {V = V} m acc = (k : Bytes) (v : V) → find k m ≡ some v → find k acc ≡ none

pub Apart-head {ℓ} :
    {V : Type ℓ} (name : Bytes) (v : V) (m acc : Map V)
    → Apart ((name, v) ∷ m) acc
    → find name acc ≡ none
Apart-head name v m acc a = a name v (rw (find-cons, ==-refl name))

pub Apart-tail {ℓ} :
    {V : Type ℓ} (name : Bytes) (v : V) (m acc : Map V)
    → find name m ≡ none
    → Apart ((name, v) ∷ m) acc
    → Apart m (put name v acc)
Apart-tail name v m acc once a k w e = elim (Bool-cases (name == k)) [
  | inl same ↦ absurd (cc (e, once, eq_of_== name k same))
  | inr other ↦ rw (find-put, other) (a k w (rw (find-cons, other) e))
]

unfoldable pub put_all {ℓ} : {V : Type ℓ} → Map V → Map V → Map V
put_all [] acc = acc
put_all ((k, v) ∷ m) acc = put_all m (put k v acc)

-- The names are shorter than 2^31, which an int32_t can say, and the inode numbers have their size.
abbrev pub AreEntries : Map (Bool × Uuid) → Type 0
AreEntries [] = Unit {0}
AreEntries ((name, (added, ino)) ∷ m) = (length name < 2 ^ 31) × (length ino ≡ 16) × AreEntries m

pub get_byte : (b : ℕ) (rest : Bytes) → b < 256 → get_le 1 (b ∷ rest) ≡ some (b, rest)
unfolding get_le get_bytes le_value
get_byte b rest h = ground arith

pub get_dentries-dentry_bytes :
    (fuel : ℕ) (m acc : Map (Bool × Uuid)) (rest : Bytes)
    → length m < fuel
    → AreEntries m
    → IsMap m
    → Apart m acc
    → get_dentries fuel (dentry_bytes m ++ rest) acc ≡ parsed (put_all m acc, rest)
unfolding get_dentries dentry_bytes put_all sized
get_dentries-dentry_bytes zero m acc rest f h u a = absurd (omega arith)
get_dentries-dentry_bytes (suc fuel) [] acc rest f h u a = rw (get_byte 255 rest (omega arith))
get_dentries-dentry_bytes (suc fuel) ((name, (true, ino)) ∷ m) acc rest f (short, sixteen, others) u
      a =
    simp append_assoc (
      rw
        (
          get_byte 1 _ (omega arith),
          get_length-append (length name) _ short,
          get_bytes-append (length name) name _ refl,
          get_bytes-append 16 ino _ sixteen,
          Apart-head name (true, ino) m acc a,
        )
        (get_dentries-dentry_bytes fuel m (put name (true, ino) acc) rest (omega arith) others u.1
          (Apart-tail name (true, ino) m acc u.0 a)))
get_dentries-dentry_bytes (suc fuel) ((name, (false, ino)) ∷ m) acc rest f (short, sixteen, others)
      u a =
    simp append_assoc (
      rw
        (
          get_byte 0 _ (omega arith),
          get_length-append (length name) _ short,
          get_bytes-append (length name) name _ refl,
          get_bytes-append 16 ino _ sixteen,
          Apart-head name (false, ino) m acc a,
        )
        (get_dentries-dentry_bytes fuel m (put name (false, ino) acc) rest (omega arith) others u.1
          (Apart-tail name (false, ino) m acc u.0 a)))

split_key {ℓ} :
    {V : Type ℓ} (k j : Bytes) (v : V) (m acc : Map V)
    → find j m ≡ none
    → ((j == k) ≡ true) ⊎ ((j == k) ≡ false)
    → (elim (find k m) [ some w ↦ some w | none ↦ find k (put j v acc) ])
      ≡ (elim (find k ((j, v) ∷ m)) [ some w ↦ some w | none ↦ find k acc ])
split_key k j v m acc once c = ground (arith, find-put j k v acc, find-cons k j v m, ==_iff j k)

pub find-put_all {ℓ} :
    {V : Type ℓ} (k : Bytes) (m acc : Map V)
    → IsMap m
    → find k (put_all m acc) ≡ (elim (find k m) [ some v ↦ some v | none ↦ find k acc ])
unfolding put_all
find-put_all k [] acc u = rw find-empty
find-put_all k ((j, v) ∷ m) acc u =
    find-put_all k m (put j v acc) u.1 ∙ split_key k j v m acc u.0 (Bool-cases (j == k))
