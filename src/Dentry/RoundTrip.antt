-- ===== src/Dentry/RoundTrip.antt =====
-- deserialize() of client/meta/dentry.cpp on what serialize() writes.
use mathlib.Core.List.{append_assoc}
use nmfs.Prelude.{
  ◌+◌, ◌*◌, ◌^◌, ◌<◌, Bytes, ◌≡◌, refl, none, some, [], ◌∷◌, ◌++◌, arith, length, length-append,
  ◌∙◌,
}
use nmfs.Map.{Map, find, insert, find-insert, find-empty, find-cons}
use nmfs.Codec.{
  HasNoZero, c_string_same, le_bytes, get_le-append, get_length-append, get_bytes-append,
  length-le_bytes,
}
use nmfs.Uuid.{Uuid}
use nmfs.Dentry.{
  Dentry, entry_bytes, deserialize_loop, serialize, deserialize, total_name_length, raw_size,
}

-- The names hold no zero byte, their length fits a signed int, and the inode numbers have their size.
abbrev pub AreEntries : Map Uuid → Type 0
AreEntries [] = Unit {0}
AreEntries ((name, ino) ∷ m) =
    HasNoZero name × (length name < 2 ^ 31) × (length ino ≡ 16) × AreEntries m

-- The map after each entry has been inserted in turn.
insert_all : Map Uuid → Map Uuid → Map Uuid
insert_all [] m = m
insert_all ((name, ino) ∷ new) m = insert_all new (insert name ino m)

find-insert_all :
    (n : Bytes) (new m : Map Uuid)
    → find n (insert_all new m) ≡ (elim (find n m) [ some ino ↦ some ino | none ↦ find n new ])
unfolding insert_all
find-insert_all n [] m = ground (arith, find-empty {V = Uuid} n)
find-insert_all n ((name, ino) ∷ new) m =
    find-insert_all n new (insert name ino m)
    ∙ ground (arith, find-insert name n ino m, find-cons n name ino new)

deserialize_loop-entry_bytes :
    (new m : Map Uuid) (rest : Bytes)
    → AreEntries new
    → deserialize_loop (length new) (entry_bytes new ++ rest) m ≡ some (insert_all new m)
unfolding deserialize_loop entry_bytes insert_all
deserialize_loop-entry_bytes [] m rest h = refl
deserialize_loop-entry_bytes ((name, ino) ∷ new) m rest (no_zero, short, sixteen, others) =
    simp append_assoc (
      rw
        (
          get_length-append (length name) _ short,
          get_bytes-append (length name) name _ refl,
          get_bytes-append 16 ino _ sixteen,
          c_string_same name no_zero,
        )
        (deserialize_loop-entry_bytes new (insert name ino m) rest others))

-- For a list of fewer than 2^31 children, whose names hold no zero byte and are shorter than 2^31,
-- and whose inode numbers have 16 bytes: the children that an empty list reads from a buffer which
-- starts with the serialised list, and may hold anything after it, are those that were written.
pub deserialize-serialize_children :
    (d : Dentry) (rest : Bytes)
    → AreEntries d.child_list
    → length d.child_list < 2 ^ 31
    → (d' : Dentry) × (deserialize (serialize d ++ rest) (record d { child_list = [] }) ≡ some d')
      × ((n : Bytes) → find n d'.child_list ≡ find n d.child_list)
unfolding deserialize serialize
deserialize-serialize_children d rest h few = (
  record d { child_list = insert_all d.child_list [] },
  simp append_assoc (
      rw (
        get_le-append 8 (length d.child_list) _ (omega arith),
        deserialize_loop-entry_bytes d.child_list [] _ h,
      )),
  λ n. find-insert_all n d.child_list [] ∙ rw (find-empty {V = Uuid} n) refl,
)

length-entry_bytes :
    (m : Map Uuid)
    → AreEntries m
    → length (entry_bytes m) ≡ length m * 4 + total_name_length m + length m * 16
unfolding entry_bytes total_name_length
length-entry_bytes [] h = omega arith
length-entry_bytes ((name, ino) ∷ m) (_, _, sixteen, others) = omega (
  arith,
  length-append (le_bytes 4 (length name)) (name ++ (ino ++ entry_bytes m)),
  length-append name (ino ++ entry_bytes m),
  length-append ino (entry_bytes m),
  length-le_bytes 4 (length name),
  length-entry_bytes m others,
)

-- sync() writes the whole list: the serialised form is one byte longer than `raw_size`.
length-serialize_children :
    (d : Dentry) → AreEntries d.child_list → length (serialize d) ≡ raw_size d + 1
unfolding serialize raw_size
length-serialize_children d h = omega (
  arith,
  length-append (le_bytes 8 (length d.child_list)) (entry_bytes d.child_list ++ 0 ∷ []),
  length-append (entry_bytes d.child_list) (0 ∷ []),
  length-le_bytes 8 (length d.child_list),
  length-entry_bytes d.child_list h,
)
