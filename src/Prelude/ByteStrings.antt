-- ===== src/Prelude/ByteStrings.antt =====
-- Byte strings, as `std::string` and the raw buffers hold them, and their comparison.
use Prim.Native.Nat.{ℕ}
use mathlib.Core.Path.{◌≡◌, refl, subst}
use mathlib.Core.Logic.{◌↔◌}
use mathlib.Core.Bool.{Bool, true, false, ◌&&◌}
use mathlib.Core.List.{List, [], ◌∷◌}
use native.Mathlib.Omega.{arith}
use nmfs.Prelude.Tests.{◌==◌ as nat_eq}

abbrev pub Bytes : Type 0
Bytes = List ℕ

infix 50 ◌==◌
unfoldable pub ◌==◌ : Bytes → Bytes → Bool
[] == [] = true
[] == (y ∷ ys) = false
(x ∷ xs) == [] = false
(x ∷ xs) == (y ∷ ys) = nat_eq x y && (xs == ys)

pub ==-refl : (xs : Bytes) → (xs == xs) ≡ true
unfolding ◌==◌
==-refl [] = refl
==-refl (x ∷ xs) = ground (arith, ==-refl xs)

pub eq_of_== : (xs ys : Bytes) → (xs == ys) ≡ true → xs ≡ ys
unfolding ◌==◌
eq_of_== [] [] h = refl
eq_of_== [] (y ∷ ys) h = cc
eq_of_== (x ∷ xs) [] h = cc
eq_of_== (x ∷ xs) (y ∷ ys) h = ground (arith, eq_of_== xs ys)

pub ==_iff : (xs ys : Bytes) → ((xs == ys) ≡ true) ↔ (xs ≡ ys)
==_iff xs ys = (eq_of_== xs ys, λ e. subst (λ zs. (xs == zs) ≡ true) e (==-refl xs))
