-- ===== src/Uuid.antt =====
-- client/meta/uuid_controller.cpp: inode numbers, and their two halves as the messages carry them.
pub mod Halves
mod Examples
use nmfs.Prelude.{ℕ, ◌+◌, ◌%◌, Bytes, ◌++◌, ◌∷◌, [], take, drop, replicate}
use nmfs.Codec.{le_bytes, le_value}

-- boost::uuids::uuid, sixteen bytes
abbrev pub Uuid : Type 0
Uuid = Bytes

unfoldable pub nil_uuid : Uuid
nil_uuid = replicate 16 0

unfoldable pub get_prefix_from_uuid : Uuid → ℕ
get_prefix_from_uuid id = le_value (take 8 id)

unfoldable pub get_postfix_from_uuid : Uuid → ℕ
get_postfix_from_uuid id = le_value (take 8 (drop 8 id))

unfoldable pub splice_prefix_and_postfix : ℕ → ℕ → Uuid
splice_prefix_and_postfix prefix postfix = le_bytes 8 prefix ++ le_bytes 8 postfix

-- nil_uuid() with one added to its last byte
unfoldable pub get_root_ino : Uuid
unfolding nil_uuid
get_root_ino = take 15 nil_uuid ++ (0 + 1) % 256 ∷ []
