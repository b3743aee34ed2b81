-- ===== src/Rados/Key/Injective.antt =====
-- The names of objects of lib/rados_io/rados_io.cpp, taken apart into category, key and number.
use nmfs.Prelude.{
  ℕ, zero, suc, ◌+◌, ◌-◌, ◌*◌, ◌/◌, ◌%◌, ◌<◌, ◌≤◌, Bytes, ◌≡◌, refl, ap, sym, ◌∙◌, [], ◌∷◌, ◌++◌,
  arith, ltb, Bool-cases, inl, inr,
}
use nmfs.Rados.Key.{Category, inode, get_prefix, to_decimal_loop, to_decimal, obj_key}

-- The number that a row of digits stands for.
value_of : ℕ → Bytes → ℕ
value_of acc [] = acc
value_of acc (c ∷ cs) = value_of (acc * 10 + (c - b'0')) cs

value_of-snoc :
    (acc : ℕ) (cs : Bytes) (c : ℕ) → value_of acc (cs ++ c ∷ []) ≡ value_of acc cs * 10 + (c - b'0')
unfolding value_of
value_of-snoc acc [] c = refl
value_of-snoc acc (d ∷ cs) c = value_of-snoc (acc * 10 + (d - b'0')) cs c

value_of-to_decimal_loop : (fuel n : ℕ) → n < fuel → value_of 0 (to_decimal_loop fuel n) ≡ n
unfolding to_decimal_loop value_of
value_of-to_decimal_loop zero n h = absurd (omega arith)
value_of-to_decimal_loop (suc fuel) n h = elim (Bool-cases (ltb n 10)) [
  | inl small ↦ rw small (omega arith)
  | inr big ↦
      rw (big, value_of-snoc 0 (to_decimal_loop fuel (n / 10)) (b'0' + n % 10))
        (ground (arith, value_of-to_decimal_loop fuel (n / 10)))
]

to_decimal_injective : (m n : ℕ) → to_decimal m ≡ to_decimal n → m ≡ n
unfolding to_decimal
to_decimal_injective m n e =
    sym (value_of-to_decimal_loop (m + 1) m (omega arith))
    ∙ (ap (value_of 0) e ∙ value_of-to_decimal_loop (n + 1) n (omega arith))

-- No `#` in a row of digits.
abbrev AreDigits : Bytes → Type 0
AreDigits [] = Unit {0}
AreDigits (c ∷ cs) = (b'0' ≤ c) × AreDigits cs

AreDigits-snoc : (cs : Bytes) (c : ℕ) → b'0' ≤ c → AreDigits cs → AreDigits (cs ++ c ∷ [])
AreDigits-snoc [] c h d = (h, tt)
AreDigits-snoc (x ∷ cs) c h d = (d.0, AreDigits-snoc cs c h d.1)

to_decimal_loop-AreDigits : (fuel n : ℕ) → AreDigits (to_decimal_loop fuel n)
unfolding to_decimal_loop
to_decimal_loop-AreDigits zero n = tt
to_decimal_loop-AreDigits (suc fuel) n = elim (Bool-cases (ltb n 10)) [
  | inl small ↦ rw small (omega arith, tt)
  | inr big ↦ rw big (
      AreDigits-snoc (to_decimal_loop fuel (n / 10)) (b'0' + n % 10) (omega arith)
        (to_decimal_loop-AreDigits fuel (n / 10)))
]

no_mark : (k d : Bytes) → AreDigits (k ++ b'#' ∷ d) → ⊥
no_mark [] d h = omega arith
no_mark (c ∷ k) d h = no_mark k d h.1

-- The last `#` parts a name in one way only.
split_at_mark :
    (k k' d d' : Bytes)
    → AreDigits d
    → AreDigits d'
    → k ++ b'#' ∷ d ≡ k' ++ b'#' ∷ d'
    → (k ≡ k') × (d ≡ d')
split_at_mark [] [] d d' h h' e = (refl, cc e)
split_at_mark [] (c ∷ k') d d' h h' e =
    let e' : d ≡ k' ++ b'#' ∷ d' = cc e in absurd (no_mark k' d' (rw e' at h))
split_at_mark (c ∷ k) [] d d' h h' e =
    let e' : k ++ b'#' ∷ d ≡ d' = cc e in absurd (no_mark k d (rw (← e') at h'))
split_at_mark (c ∷ k) (c' ∷ k') d d' h h' e =
    let r = split_at_mark k k' d d' h h' (cc e) in (cc (e, r.0), r.1)

prefix_injective :
    (c c' : Category) (x y : Bytes) → get_prefix c ++ x ≡ get_prefix c' ++ y → (c ≡ c') × (x ≡ y)
unfolding get_prefix
prefix_injective inode c' x y e = ground arith
prefix_injective _ c' x y e = ground arith

-- The names that obj_key makes of two files' pieces are equal only if category, key and number are.
pub obj_key_injective :
    (c c' : Category) (k k' : Bytes) (n n' : ℕ)
    → obj_key c k n ≡ obj_key c' k' n'
    → (c ≡ c') × (k ≡ k') × (n ≡ n')
unfolding obj_key to_decimal
obj_key_injective c c' k k' n n' e =
    let (same, rest) = prefix_injective c c' _ _ e in
    let (keys, digits) =
      split_at_mark k k' _ _ (to_decimal_loop-AreDigits (n + 1) n)
        (to_decimal_loop-AreDigits (n' + 1) n') rest in
    (same, keys, to_decimal_injective n n' digits)
