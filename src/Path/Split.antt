-- ===== src/Path/Split.antt =====
-- The functions of client/util.cpp on a path whose last name is given.
use native.Mathlib.Decide.{ℕ_discrete}
use nmfs.Prelude.{
  ◌&&◌, take-append, ℕ, zero, suc, ◌+◌, ◌<◌, ◌≤◌, ◌≡◌, ◌≢◌, refl, ap, ◌∙◌, Bytes, Bool, true, false,
  none, some, [], ◌∷◌, ◌++◌, length, drop, arith, length-append,
}
use nmfs.Prelude.Tests.{◌==◌}
use nmfs.Exec.{ok, err, runtime_error, overrun}
use nmfs.Path.{
  is_delimiter, parent_loop, parent_of, get_parent_dir_path, filename_loop, filename_of,
  get_filename_from_path,
}

-- A name of a file: no byte of it is the delimiter.
abbrev pub IsName : Bytes → Type 0
IsName [] = Unit {0}
IsName (c ∷ cs) = (c ≢ b'/') × IsName cs

name_byte : (name : Bytes) (i : ℕ) → IsName name → is_delimiter name i ≡ false
name_byte [] i h = refl
name_byte (c ∷ cs) zero h = ground arith
name_byte (c ∷ cs) (suc i) h = name_byte cs i h.1

behind :
    (dir name : Bytes) (j : ℕ)
    → length dir < j
    → IsName name
    → is_delimiter (dir ++ b'/' ∷ name) j ≡ false
behind [] name zero low h = absurd (omega arith)
behind [] name (suc j) low h = name_byte name j h
behind (c ∷ dir) name zero low h = absurd (omega arith)
behind (c ∷ dir) name (suc j) low h = behind dir name j (omega arith) h

at_end : (dir name : Bytes) → is_delimiter (dir ++ b'/' ∷ name) (length dir) ≡ true
at_end [] name = refl
at_end (c ∷ dir) name = at_end dir name

-- The last delimiter of a path.
abbrev IsLast : Bytes → ℕ → Type 0
IsLast path k = (is_delimiter path k ≡ true) × ((j : ℕ) → k < j → is_delimiter path j ≡ false)

IsLast-at : (dir name : Bytes) → IsName name → IsLast (dir ++ b'/' ∷ name) (length dir)
IsLast-at dir name h = (at_end dir name, λ j low. behind dir name j low h)

parent_loop_finds :
    (path : Bytes) (k i : ℕ) → 0 < k → k ≤ i → IsLast path k → parent_loop path i ≡ some k
unfolding parent_loop
parent_loop_finds path k zero p h l = absurd (omega arith)
parent_loop_finds path k (suc i) p h (here, after) = elim (ℕ_discrete k (suc i)) [
  | yes e ↦ rw (← e, here)
  | no n ↦
      rw (after (suc i) (omega arith)) (parent_loop_finds path k i p (omega arith) (here, after))
]

parent_loop_misses :
    (path : Bytes) (i : ℕ)
    → ((j : ℕ) → 0 < j → is_delimiter path j ≡ false)
    → parent_loop path i ≡ none
unfolding parent_loop
parent_loop_misses path zero h = refl
parent_loop_misses path (suc i) h = rw (h (suc i) (omega arith)) (parent_loop_misses path i h)

filename_loop_finds :
    (path : Bytes) (k i : ℕ) → k ≤ i → IsLast path k → filename_loop path i ≡ some k
unfolding filename_loop
filename_loop_finds path k zero h (here, after) = let e : k ≡ 0 = omega arith in rw (← e, here)
filename_loop_finds path k (suc i) h (here, after) = elim (ℕ_discrete k (suc i)) [
  | yes e ↦ rw (← e, here)
  | no n ↦
      rw (after (suc i) (omega arith)) (filename_loop_finds path k i (omega arith) (here, after))
]

parent_below :
    (c : ℕ) (dir name : Bytes)
    → IsName name
    → get_parent_dir_path ((c ∷ dir) ++ b'/' ∷ name) ≡ ok (c ∷ dir)
unfolding get_parent_dir_path parent_of
parent_below c dir name h =
    rw
      (
        parent_loop_finds ((c ∷ dir) ++ b'/' ∷ name) (length (c ∷ dir))
            (length (dir ++ b'/' ∷ name)) (omega arith)
            (omega (arith, length-append dir (b'/' ∷ name))) (IsLast-at (c ∷ dir) name h),
        parent_of,
      )
      (ap ok (take-append (length (c ∷ dir)) (c ∷ dir) (b'/' ∷ name) refl))

parent_root : (name : Bytes) → IsName name → get_parent_dir_path (b'/' ∷ name) ≡ ok (b'/' ∷ [])
unfolding get_parent_dir_path parent_of
parent_root name h =
    rw (parent_loop_misses (b'/' ∷ name) (length name) (λ j low. behind [] name j low h), parent_of)

drop_behind : (dir name : Bytes) (b n : ℕ) → n ≡ length dir + 1 → drop n (dir ++ b ∷ name) ≡ name
drop_behind [] name b zero h = absurd (omega arith)
drop_behind [] name b (suc n) h = ap (λ k. drop k name) (let e : n ≡ 0 = omega arith in e)
drop_behind (c ∷ dir) name b zero h = absurd (omega arith)
drop_behind (c ∷ dir) name b (suc n) h = drop_behind dir name b n (omega arith)

and_false : (b : Bool) → (b && false) ≡ false
and_false true = refl
and_false false = refl

no_root : (n : ℕ) (b : Bool) → 0 < n → (n == 0 && b) ≡ false
no_root n b h = ground arith

-- Where more than one byte is given, the loop is entered.
filename_lem :
    (path : Bytes) (d k : ℕ)
    → 0 < length path
    → k ≤ length path
    → IsLast (d ∷ path) k
    → get_filename_from_path (d ∷ path) ≡ ok (drop (k + 1) (d ∷ path))
unfolding get_filename_from_path filename_of
filename_lem path d k more low l =
    rw (no_root (length path) (is_delimiter (d ∷ path) 0) more)
      (rw (filename_loop_finds (d ∷ path) k (length path) low l, filename_of) refl)

filename_below :
    (dir name : Bytes) (c : ℕ)
    → IsName (c ∷ name)
    → get_filename_from_path (dir ++ b'/' ∷ c ∷ name) ≡ ok (c ∷ name)
filename_below [] name c h =
    filename_lem (c ∷ name) b'/' 0 (omega arith) (omega arith) (IsLast-at [] (c ∷ name) h)
filename_below (d ∷ dir) name c h =
    let size : length (dir ++ b'/' ∷ c ∷ name) ≡ length dir + (2 + length name) =
      length-append dir (b'/' ∷ c ∷ name) ∙ omega arith in
    filename_lem (dir ++ b'/' ∷ c ∷ name) d (length (d ∷ dir)) (omega arith) (omega arith)
      (IsLast-at (d ∷ dir) (c ∷ name) h)
    ∙ ap ok (drop_behind (d ∷ dir) (c ∷ name) b'/' (length (d ∷ dir) + 1) refl)

-- The directory of a path, which is the root where nothing is in front of the last delimiter.
abbrev pub or_root : Bytes → Bytes
or_root [] = b'/' ∷ []
or_root (c ∷ dir) = c ∷ dir

-- A path that ends in a name, behind a delimiter, is taken apart into the path of the parent, the
-- root where nothing is in front of that delimiter, and the name.
pub path_parts :
    (dir name : Bytes) (c : ℕ)
    → IsName (c ∷ name)
    → (get_parent_dir_path (dir ++ b'/' ∷ c ∷ name) ≡ ok (or_root dir))
      × (get_filename_from_path (dir ++ b'/' ∷ c ∷ name) ≡ ok (c ∷ name))
path_parts [] name c h = (parent_root (c ∷ name) h, filename_below [] name c h)
path_parts (d ∷ dir) name c h = (parent_below d dir (c ∷ name) h, filename_below (d ∷ dir) name c h)

filename_loop_misses :
    (path : Bytes) (i : ℕ) → ((j : ℕ) → is_delimiter path j ≡ false) → filename_loop path i ≡ none
unfolding filename_loop
filename_loop_misses path zero h = rw (h 0)
filename_loop_misses path (suc i) h = rw (h (suc i)) (filename_loop_misses path i h)

-- A path without a delimiter is refused by get_parent_dir_path(), while the loop of
-- get_filename_from_path() leaves the path and reads past its bytes.
pub no_delimiter :
    (c : ℕ) (path : Bytes)
    → IsName (c ∷ path)
    → (get_parent_dir_path (c ∷ path) ≡ err runtime_error)
      × (get_filename_from_path (c ∷ path) ≡ err overrun)
unfolding get_parent_dir_path parent_of get_filename_from_path filename_of
no_delimiter c path h =
    let first = name_byte (c ∷ path) 0 h in
    (
      rw
          (
            parent_loop_misses (c ∷ path) (length path) (λ j low. name_byte (c ∷ path) j h),
            parent_of,
          )
          (rw first),
      rw (first, and_false)
          (rw
            (
              filename_loop_misses (c ∷ path) (length path) (λ j. name_byte (c ∷ path) j h),
              filename_of,
            )
            refl),
    )
