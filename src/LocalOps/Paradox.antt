-- ===== src/LocalOps/Paradox.antt =====
-- The test of local_rename_same_parent(), client/fs_ops/local_ops.cpp, for a move of a directory
-- into itself.
use nmfs.Prelude.{
  Bytes, true, false, ◌≡◌, refl, sym, ap, ◌∙◌, none, some, [], ◌∷◌, ◌++◌, length, get_elem?, arith,
  Bool-cases, inl, inr,
}
use nmfs.Prelude.Tests.{◌==◌, ==_iff}
use nmfs.Exec.{ok, err, out_of_range}
use nmfs.Path.Split.{IsName}
use nmfs.LocalOps.Rename.{starts_with, is_paradox}

starts_with-append : (dir x y : Bytes) → starts_with (dir ++ x) (dir ++ y) ≡ starts_with x y
unfolding starts_with
starts_with-append [] x y = refl
starts_with-append (c ∷ dir) x y = ground (arith, starts_with-append dir x y)

get_elem?-append :
    (dir x y : Bytes) → get_elem? (dir ++ x) (length (dir ++ y)) ≡ get_elem? x (length y)
get_elem?-append [] x y = refl
get_elem?-append (c ∷ dir) x y = get_elem?-append dir x y

-- The test is about the last parts of the paths.
is_paradox-append :
    (dir old new : Bytes) → is_paradox (dir ++ old) (dir ++ new) ≡ is_paradox old new
unfolding is_paradox
is_paradox-append dir old new = rw (starts_with-append dir new old, get_elem?-append dir new old)

starts_with_self : (p : Bytes) → starts_with p p ≡ true
unfolding starts_with
starts_with_self [] = refl
starts_with_self (c ∷ p) = ground (arith, starts_with_self p)

pub is_paradox_same : (p : Bytes) → is_paradox p p ≡ err out_of_range
unfolding is_paradox
is_paradox_same p = rw (starts_with_self p, past p) refl
  where
    past : (p : Bytes) → get_elem? p (length p) ≡ none
    past [] = refl
    past (c ∷ p) = past p

starts_with_longer : (p q : Bytes) → starts_with (p ++ q) p ≡ true
unfolding starts_with
starts_with_longer [] q = refl
starts_with_longer (c ∷ p) q = ground (arith, starts_with_longer p q)

pub is_paradox_below : (p rest : Bytes) → is_paradox p (p ++ b'/' ∷ rest) ≡ ok true
unfolding is_paradox
is_paradox_below p rest = rw (starts_with_longer p (b'/' ∷ rest), next p) refl
  where
    next : (p : Bytes) → get_elem? (p ++ b'/' ∷ rest) (length p) ≡ some b'/'
    next [] = refl
    next (c ∷ p) = next p

-- Names that differ: neither is a path into the other.
is_paradox_names : (old new : Bytes) → IsName new → (old ≡ new → ⊥) → is_paradox old new ≡ ok false
unfolding is_paradox starts_with
is_paradox_names [] [] h d = absurd (d refl)
is_paradox_names [] (c ∷ new) h d = ground arith
is_paradox_names (b ∷ old) [] h d = refl
is_paradox_names (b ∷ old) (c ∷ new) h d = elim (Bool-cases (c == b)) [
  | inl e ↦
      let same : b ≡ c = sym ((==_iff c b).0 e) in
      let rest = is_paradox_names old new h.1 (λ t. d (cc (same, t))) in rw e rest
  | inr e ↦ rw e refl
]

pub is_paradox_apart :
    (dir old new : Bytes)
    → IsName new
    → (old ≡ new → ⊥)
    → is_paradox (dir ++ b'/' ∷ old) (dir ++ b'/' ∷ new) ≡ ok false
is_paradox_apart dir old new h d =
    rw (← assoc dir old, ← assoc dir new)
      (is_paradox-append (dir ++ b'/' ∷ []) old new ∙ is_paradox_names old new h d)
  where
    assoc : (xs ys : Bytes) → (xs ++ b'/' ∷ []) ++ ys ≡ xs ++ b'/' ∷ ys
    assoc [] ys = refl
    assoc (x ∷ xs) ys = ap (◌∷◌ x) (assoc xs ys)
