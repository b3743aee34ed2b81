-- ===== src/Path/Examples.antt =====
-- The theorems on client/util.cpp at the paths "/a/b" and "b".
use nmfs.Prelude.{◌≡◌, [], ◌∷◌, ◌++◌, arith, Bytes}
use nmfs.Exec.{ok, err, runtime_error, overrun}
use nmfs.Path.{get_parent_dir_path, get_filename_from_path}
use nmfs.Path.Split.{or_root, path_parts, no_delimiter}

abbrev dir : Bytes
dir = b'/' ∷ b'a' ∷ []

path_parts_example :
    (get_parent_dir_path (dir ++ b'/' ∷ b'b' ∷ []) ≡ ok (or_root dir))
    × (get_filename_from_path (dir ++ b'/' ∷ b'b' ∷ []) ≡ ok (b'b' ∷ []))
path_parts_example = path_parts dir [] b'b' (omega arith, tt)

no_delimiter_example :
    (get_parent_dir_path (b'b' ∷ []) ≡ err runtime_error)
    × (get_filename_from_path (b'b' ∷ []) ≡ err overrun)
no_delimiter_example = no_delimiter b'b' [] (omega arith, tt)
