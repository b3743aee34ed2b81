-- ===== src/Dentry.antt =====
-- client/meta/dentry.hpp and dentry.cpp: the list of the children of a directory, and its layout in
-- the directory's object. Where memory is read past the end of the buffer, or
-- a name has a negative length, the model has `none`.
pub mod RoundTrip
pub mod Children
pub mod Pool
mod Examples
use nmfs.Prelude.{
  ℕ, zero, suc, ◌+◌, ◌*◌, Bytes, Option, none, some, List, [], ◌∷◌, ◌++◌, map, length, take,
  if◌then◌else◌,
}
use nmfs.Prelude.Tests.{◌==◌}
use nmfs.Map.{Map, find, put, erase, insert}
use nmfs.Codec.{le_bytes, get_le, get_length, get_bytes, c_string, ◌>>=◌}
use nmfs.Uuid.{Uuid, nil_uuid}

pub record Dentry : Type 0 where
  pub this_ino : Uuid
  pub child_list : Map Uuid

-- dentry(ino, true), for mkdir
unfoldable pub new_dentry : Uuid → Dentry
new_dentry ino = record { this_ino = ino; child_list = [] }

unfoldable pub add_child : Bytes → Uuid → Dentry → Dentry
add_child filename ino d = record d { child_list = put filename ino d.child_list }

unfoldable pub delete_child : Bytes → Dentry → Dentry
delete_child filename d = record d { child_list = erase filename d.child_list }

unfoldable pub get_child_ino : Bytes → Dentry → Uuid
unfolding nil_uuid
get_child_ino child_name d = elim (find child_name d.child_list) [
  | none ↦ nil_uuid
  | some ino ↦ ino
]

unfoldable pub get_child_num : Dentry → ℕ
get_child_num d = length d.child_list

total_name_length : Map Uuid → ℕ
total_name_length [] = 0
total_name_length ((name, ino) ∷ m) = length name + total_name_length m

unfoldable pub get_total_name_length : Dentry → ℕ
unfolding total_name_length
get_total_name_length d = total_name_length d.child_list

-- The names that fill_filler() hands to the filler: ".", ".." and the children.
unfoldable pub fill_filler : Dentry → List Bytes
fill_filler d = (b'.' ∷ []) ∷ (b'.' ∷ b'.' ∷ []) ∷ map (λ e. e.0) d.child_list

entry_bytes : Map Uuid → Bytes
entry_bytes [] = []
entry_bytes ((name, ino) ∷ m) = le_bytes 4 (length name) ++ (name ++ (ino ++ entry_bytes m))

-- serialize(), with the one byte that is allocated beyond `raw_size`
unfoldable pub serialize : Dentry → Bytes
unfolding entry_bytes
serialize d = le_bytes 8 (length d.child_list) ++ (entry_bytes d.child_list ++ 0 ∷ [])

-- raw_size, the number of bytes that sync() writes
unfoldable pub raw_size : Dentry → ℕ
unfolding get_total_name_length
raw_size d =
    let child_num = length d.child_list in
    8 + child_num * 4 + get_total_name_length d + child_num * 16

-- The loop of deserialize(), on the number of children left. Its counter is an int, which does not
-- overflow below 2^31 children.
deserialize_loop : ℕ → Bytes → Map Uuid → Option (Map Uuid)
unfolding c_string
deserialize_loop zero raw m = some m
deserialize_loop (suc n) raw m = do
  (name_length, raw) ← get_length raw
  (name, raw) ← get_bytes name_length raw
  (ino, raw) ← get_bytes 16 raw
  deserialize_loop n raw (insert (c_string name) ino m)

unfoldable pub deserialize : Bytes → Dentry → Option Dentry
unfolding deserialize_loop
deserialize raw d = do
  (child_num, raw) ← get_le 8 raw
  children ← deserialize_loop child_num raw d.child_list
  some (record d { child_list = children })
