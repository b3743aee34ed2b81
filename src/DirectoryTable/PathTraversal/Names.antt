-- ===== src/DirectoryTable/PathTraversal/Names.antt =====
-- The parsing of directory_table::path_traversal(), client/in_memory/directory_table.cpp, against
-- the names that a path is put together from.
use mathlib.Core.Path.{fun_ext}
use mathlib.Core.List.{append_assoc}
use nmfs.Prelude.{
  ℕ, zero, suc, ◌+◌, ◌-◌, ◌≤◌, ◌<◌, Bytes, Bool, true, false, ◌≡◌, ◌≢◌, refl, ap, ◌∙◌, none, some,
  List, [], ◌∷◌, ◌++◌, length, drop, leb, arith, if◌then◌else◌, length-append, take-append,
  drop-append,
}
use nmfs.Prelude.Tests.{◌==◌}
use nmfs.Exec.{Exec, pure, ◌>>=◌}
use nmfs.Uuid.{get_root_ino}
use nmfs.Path.{is_delimiter}
use nmfs.Path.Split.{IsName}
use nmfs.Rados.Store.{IoCtx}
use nmfs.DentryTable.Inodes.{deref, get_this_dir_inode}
use nmfs.DirectoryTable.{get_dentry_table}
use nmfs.DirectoryTable.PathTraversal.{
  bound_loop, set_name_bound, substr, step_into, path_loop, path_traversal,
}
use nmfs.World.{World, Outside}

-- A path: each name behind a delimiter, and maybe one more delimiter at the end.
abbrev pub path_of : List Bytes → Bytes → Bytes
path_of [] tail = tail
path_of (name ∷ names) tail = b'/' ∷ (name ++ path_of names tail)

abbrev pub tail_of : Bool → Bytes
tail_of true = b'/' ∷ []
tail_of false = []

-- No name is empty, and none has a delimiter.
abbrev pub AreNames : List Bytes → Type 0
AreNames [] = Unit {0}
AreNames (name ∷ names) = (0 < length name) × IsName name × AreNames names

module _ (io : IoCtx) (out : Outside) where
  -- The way along names, one after the other.
  abbrev pub walk : List Bytes → ℕ → ℕ → Exec (World io.State) ℕ
  walk [] parent target = pure target
  walk (name ∷ names) parent target = do
    next ← step_into io out name parent
    walk names next.0 next.1

  abbrev pub walk_from_root : List Bytes → Exec (World io.State) ℕ
  walk_from_root names = do
    parent ← get_dentry_table io out get_root_ino false
    this_dir ← get_this_dir_inode io out parent
    target ← deref this_dir
    walk names parent target

is_delimiter-append :
    (front rest : Bytes) (i : ℕ)
    → i ≡ length front
    → is_delimiter (front ++ rest) i ≡ is_delimiter rest 0
is_delimiter-append [] rest zero h = refl
is_delimiter-append [] rest (suc i) h = absurd (omega arith)
is_delimiter-append (c ∷ front) rest zero h = absurd (omega arith)
is_delimiter-append (c ∷ front) rest (suc i) h = is_delimiter-append front rest i (omega arith)

-- What stands behind a name: nothing, or a delimiter.
abbrev Ends : Bytes → Type 0
Ends [] = Unit {0}
Ends (c ∷ rest) = c ≡ b'/'

path_of-Ends : (names : List Bytes) (slash : Bool) → Ends (path_of names (tail_of slash))
path_of-Ends [] true = refl
path_of-Ends [] false = tt
path_of-Ends (name ∷ names) slash = refl

later :
    (b : ℕ)
    → b ≢ b'/'
    → (next i n : ℕ) → next ≡ i + 1 + n
    → (if b == b'/' then i else next) ≡ i + suc n
later b h next i n e = ground arith

bound_loop_lem :
    (front name rest : Bytes) (i n : ℕ)
    → i ≡ length front
    → n ≡ length name + length rest
    → IsName name
    → Ends rest
    → bound_loop (front ++ (name ++ rest)) i n ≡ i + length name
unfolding bound_loop
bound_loop_lem front [] [] i zero hi hn h e = omega arith
bound_loop_lem front [] [] i (suc n) hi hn h e = absurd (omega arith)
bound_loop_lem front [] (c ∷ rest) i zero hi hn h e = absurd (omega arith)
bound_loop_lem front [] (c ∷ rest) i (suc n) hi hn h e =
    rw (is_delimiter-append front (c ∷ rest) i hi) (ground arith)
bound_loop_lem front (b ∷ name) rest i zero hi hn h e = absurd (omega arith)
bound_loop_lem front (b ∷ name) rest i (suc n) hi hn h e =
    let further =
      bound_loop_lem (front ++ b ∷ []) name rest (i + 1) n
        (omega (arith, length-append front (b ∷ []))) (omega arith) h.1 e in
    let same = append_assoc front (b ∷ []) (name ++ rest) in
    rw (is_delimiter-append front (b ∷ (name ++ rest)) i hi) (
      later b (h.0) (bound_loop (front ++ b ∷ (name ++ rest)) (i + 1) n) i (length name)
        (rw⁻¹ same further))

-- A round of the loop: what set_name_bound() finds behind `front`.
set_name_bound_end :
    (front : Bytes) (slash : Bool) → set_name_bound (front ++ tail_of slash) (length front) ≡ none
unfolding set_name_bound
set_name_bound_end front true = rw (length-append front (tail_of true)) (ground arith)
set_name_bound_end front false = rw (length-append front []) (ground arith)

leb_above : (a b : ℕ) → b < a → leb a b ≡ false
leb_above a b h = ground arith

set_name_bound_name :
    (front name rest : Bytes)
    → 0 < length name
    → IsName name
    → Ends rest
    → set_name_bound (front ++ b'/' ∷ (name ++ rest)) (length front)
      ≡ some (length front + 1, length front + 1 + length name)
unfolding set_name_bound
set_name_bound_name front name rest more h e =
    let size : length (front ++ b'/' ∷ (name ++ rest))
        ≡ length front + (1 + (length name + length rest)) =
      length-append front (b'/' ∷ (name ++ rest)) ∙ omega (arith, length-append name rest) in
    let same = append_assoc front (b'/' ∷ []) (name ++ rest) in
    let bound =
      bound_loop_lem (front ++ b'/' ∷ []) name rest (length front + 1)
        (length (front ++ b'/' ∷ (name ++ rest)) - (length front + 1))
        (omega (arith, length-append front (b'/' ∷ []))) (omega (arith, size)) h e in
    let bound' = rw same at bound in
    let above : length front + 1 < length (front ++ b'/' ∷ (name ++ rest)) = omega (arith, size) in
    rw (bound', leb_above _ _ above) refl

substr_name :
    (front name rest : Bytes)
    → substr (front ++ b'/' ∷ (name ++ rest)) (length front + 1) (length front + 1 + length name)
      ≡ name
substr_name front name rest =
    let same = append_assoc front (b'/' ∷ []) (name ++ rest) in
    let behind =
      drop-append (length front + 1) (front ++ b'/' ∷ []) (name ++ rest)
        (omega (arith, length-append front (b'/' ∷ []))) in
    let behind' : drop (length front + 1) (front ++ b'/' ∷ (name ++ rest)) ≡ name ++ rest =
      rw same at behind in
    let count : length front + 1 + length name - (length front + 1) ≡ length name = omega arith in
    rw (behind', count) (take-append (length name) name rest refl)

module _ (io : IoCtx) (out : Outside) where
  path_loop_end :
      (fuel : ℕ) (path : Bytes) (stop parent target : ℕ)
      → set_name_bound path stop ≡ none
      → path_loop io out (suc fuel) path stop parent target ≡ pure target
  unfolding path_loop
  path_loop_end fuel path stop parent target e = rw (e, path_loop) refl

  path_loop_step :
      (fuel : ℕ) (path : Bytes) (stop parent target start stop' : ℕ)
      → set_name_bound path stop ≡ some (start, stop')
      → path_loop io out (suc fuel) path stop parent target ≡ (
          step_into io out (substr path start stop') parent >>= λ next.
          path_loop io out fuel path stop' next.0 next.1)
  unfolding path_loop
  path_loop_step fuel path stop parent target start stop' e = rw (e, path_loop) refl

  -- The loop from behind `front` on.
  path_loop-walk :
      (names : List Bytes) (slash : Bool) (fuel : ℕ) (front : Bytes) (parent target : ℕ)
      → length names < fuel
      → AreNames names
      → path_loop io out fuel (front ++ path_of names (tail_of slash)) (length front) parent target
        ≡ walk io out names parent target
  path_loop-walk names slash zero front parent target h are = absurd (omega arith)
  path_loop-walk [] slash (suc fuel) front parent target h are =
      path_loop_end fuel (front ++ tail_of slash) (length front) parent target
        (set_name_bound_end front slash)
  path_loop-walk (name ∷ names) slash (suc fuel) front parent target h (more, is, are) =
      let rest = path_of names (tail_of slash) in
      let size : length front + 1 + length name ≡ length (front ++ b'/' ∷ name) =
        omega (arith, length-append front (b'/' ∷ name)) in
      let same : (front ++ b'/' ∷ name) ++ rest ≡ front ++ b'/' ∷ (name ++ rest) =
        append_assoc front (b'/' ∷ name) rest in
      path_loop_step fuel (front ++ b'/' ∷ (name ++ rest)) (length front) parent target
        (length front + 1) (length front + 1 + length name)
        (set_name_bound_name front name rest more is (path_of-Ends names slash))
      ∙ rw (substr_name front name rest) (
          ap (λ (k : ℕ × ℕ → Exec (World io.State) ℕ). step_into io out name parent >>= k)
            (fun_ext (λ (next : ℕ × ℕ).
              rw (size, ← same)
                (path_loop-walk names slash fuel (front ++ b'/' ∷ name) next.0 next.1 (omega arith)
                  are))))

  length-path_of :
      (names : List Bytes) (tail : Bytes)
      → AreNames names
      → length names ≤ length (path_of names tail)
  length-path_of [] tail h = omega arith
  length-path_of (name ∷ names) tail (more, is, are) =
      omega (arith, length-append name (path_of names tail), length-path_of names tail are)

  -- path_traversal() of a path that is put together from names, each behind a delimiter, and ends
  -- with one more delimiter or not, does what a walk along the list of the names does that starts
  -- from the root's table and inode: with the same result or exception and the same state after
  -- it. No name is empty or has a delimiter, and there may be none.
  pub path_traversal-walk :
      (names : List Bytes) (slash : Bool)
      → AreNames names
      → path_traversal io out (path_of names (tail_of slash)) ≡ walk_from_root io out names
  unfolding path_traversal
  path_traversal-walk names slash are =
      let path = path_of names (tail_of slash) in
      let enough = length-path_of names (tail_of slash) are in
      ap
        (λ (k : ℕ → ℕ → Exec (World io.State) ℕ). do
          parent ← get_dentry_table io out get_root_ino false
          this_dir ← get_this_dir_inode io out parent
          target ← deref this_dir
          k parent target)
        (fun_ext (λ (parent : ℕ). fun_ext (λ (target : ℕ).
          path_loop-walk names slash (length path + 1) [] parent target (omega arith) are)))
