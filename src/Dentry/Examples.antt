-- ===== src/Dentry/Examples.antt =====
-- The theorems on client/meta/dentry.cpp at a directory with one child.
use nmfs.Prelude.{Bytes, ◌≡◌, refl, some, [], ◌∷◌, ◌++◌, replicate, arith}
use nmfs.Map.{find}
use nmfs.Dentry.{Dentry, serialize, deserialize}
use nmfs.Dentry.RoundTrip.{AreEntries, deserialize-serialize_children}

abbrev one_child : Dentry
one_child = record { this_ino = replicate 16 1; child_list = (b'a' ∷ [], replicate 16 2) ∷ [] }

one_child-AreEntries : AreEntries one_child.child_list
one_child-AreEntries = ((omega arith, tt), omega arith, refl, tt)

deserialize-serialize_children_example :
    (d' : Dentry) × (deserialize
        (serialize one_child ++ 9 ∷ [])
        (record one_child { child_list = [] })
      ≡ some d')
    × ((n : Bytes) → find n d'.child_list ≡ find n one_child.child_list)
deserialize-serialize_children_example =
    deserialize-serialize_children one_child (9 ∷ []) one_child-AreEntries (omega arith)
