-- ===== src/Path.antt =====
-- client/util.cpp: the two parts of a path. A std::string_view is a list of bytes.
pub mod Split
mod Examples
use nmfs.Prelude.{
  ℕ, zero, suc, ◌+◌, ◌-◌, Bytes, Bool, true, false, Option, none, some, [], ◌∷◌, length, take, drop,
  get_elem?, ◌&&◌, if◌then◌else◌,
}
use nmfs.Prelude.Tests.{◌==◌}
use nmfs.Exec.{Result, ok, err, runtime_error, overrun}

-- path[i] == path_delimiter
abbrev pub is_delimiter : Bytes → ℕ → Bool
is_delimiter path i = elim (get_elem? path i) [ some c ↦ c == b'/' | none ↦ false ]

-- The loop of get_parent_dir_path(), from position `i` down to 1.
unfoldable pub parent_loop : Bytes → ℕ → Option ℕ
parent_loop path zero = none
parent_loop path (suc i) =
    let below = parent_loop path i in if is_delimiter path (suc i) then some (suc i) else below

parent_of : Bytes → Option ℕ → Result Bytes
parent_of path (some i) = ok (take i path)
parent_of path none = if is_delimiter path 0 then ok (take 1 path) else err runtime_error

unfoldable pub get_parent_dir_path : Bytes → Result Bytes
unfolding parent_loop parent_of
get_parent_dir_path [] = err runtime_error
get_parent_dir_path (c ∷ cs) = parent_of (c ∷ cs) (parent_loop (c ∷ cs) (length cs))

-- The loop of get_filename_from_path(), from position `i` down to 0. Its index is unsigned, so that
-- it does not end there: it goes on at the largest number, past the end of the path.
unfoldable pub filename_loop : Bytes → ℕ → Option ℕ
filename_loop path zero = if is_delimiter path 0 then some 0 else none
filename_loop path (suc i) =
    let below = filename_loop path i in if is_delimiter path (suc i) then some (suc i) else below

filename_of : Bytes → Option ℕ → Result Bytes
filename_of path (some i) = ok (drop (i + 1) path)
filename_of path none = err overrun

unfoldable pub get_filename_from_path : Bytes → Result Bytes
unfolding filename_loop filename_of
get_filename_from_path [] = err runtime_error
get_filename_from_path (c ∷ cs) =
    if length cs == 0 && is_delimiter (c ∷ cs) 0
    then ok (take 1 (c ∷ cs))
    else filename_of (c ∷ cs) (filename_loop (c ∷ cs) (length cs))
