-- ===== src/Rados/Overwrite.antt =====
-- A write into one object of lib/rados_io/rados_io.cpp, byte by byte.
use nmfs.Prelude.{
  ℕ, ◌+◌, ◌-◌, ◌<◌, ◌≤◌, Bytes, ◌≡◌, ap, ◌∙◌, Bool, ◌&&◌, ◌++◌, length, take, drop, get_elem?,
  replicate, arith, ltb, leb, Bool-cases, inl, inr, ltb→lt, if◌then◌else◌, length-take,
  length-append, get_elem?-append_left, get_elem?-append_right, get_elem?-take, get_elem?-drop,
}
use nmfs.Rados.Store.{overwrite}

-- Is a position within a range?
abbrev pub between : ℕ → ℕ → ℕ → Bool
between from to i = leb from i && ltb i to

module _ (old value : Bytes) (offset : ℕ) (h : offset ≤ length old) where
  padded : Bytes
  padded = old ++ replicate (offset - length old) 0

  length-front : length (take offset padded) ≡ offset
  unfolding padded
  length-front =
      omega
        (arith, length-take offset padded, length-append old (replicate (offset - length old) 0))

  before : (i : ℕ) → i < offset → get_elem? (overwrite old value offset) i ≡ get_elem? old i
  unfolding padded
  before i p =
      get_elem?-append_left (take offset padded) _ i (omega (arith, length-front))
      ∙ (get_elem?-take offset padded i p ∙ get_elem?-append_left old _ i (omega arith))

  inside :
      (i : ℕ)
      → offset ≤ i
      → i < offset + length value
      → get_elem? (overwrite old value offset) i ≡ get_elem? value (i - offset)
  unfolding padded
  inside i p q =
      get_elem?-append_right (take offset padded) _ i (omega (arith, length-front))
      ∙ (ap (get_elem? (value ++ drop (offset + length value) old)) (ap (λ k. i - k) length-front)
          ∙ get_elem?-append_left value _ (i - offset) (omega arith))

  behind :
      (i : ℕ)
      → offset + length value ≤ i
      → get_elem? (overwrite old value offset) i ≡ get_elem? old i
  unfolding padded
  behind i p =
      get_elem?-append_right (take offset padded) _ i (omega (arith, length-front))
      ∙ (ap (get_elem? (value ++ drop (offset + length value) old)) (ap (λ k. i - k) length-front)
          ∙ (get_elem?-append_right value _ (i - offset) (omega arith)
              ∙ (get_elem?-drop (offset + length value) old (i - offset - length value)
                  ∙ ap (get_elem? old) (omega arith))))

  -- Inside the range the new bytes, outside of it the old ones.
  pub get_elem?-overwrite :
      (i : ℕ)
      → get_elem? (overwrite old value offset) i ≡ (
          if between offset (offset + length value) i
          then get_elem? value (i - offset)
          else get_elem? old i)
  get_elem?-overwrite i = elim (Bool-cases (leb offset i)) [
    | inr low ↦ rw low (before i (ground arith))
    | inl reached ↦ elim (Bool-cases (ltb i (offset + length value))) [
      | inl within ↦ rw (reached, within) (inside i (ground arith) (ltb→lt _ _ within))
      | inr over ↦ rw (reached, over) (behind i (ground arith))
    ]
  ]
