-- ===== src/Map.antt =====
-- The hash maps and ordered maps of the program (`tsl::robin_map`, `std::map`), keyed by names and
-- inode numbers. The order of the entries stands for the order of an iteration over the table.
use nmfs.Prelude.{
  ◌+◌, Bytes, ◌==◌, ==_iff, ==-refl, ◌≡◌, refl, Option, none, some, List, [], ◌∷◌, arith, length,
  if◌then◌else◌,
}

abbrev pub Map {ℓ} : Type ℓ → Type ℓ
Map V = List (Bytes × V)

module _ {ℓ} {V : Type ℓ} where
  -- map.find(k), with `none` for map.end()
  unfoldable pub find : Bytes → Map V → Option V
  find k [] = none
  find k ((j, v) ∷ m) = if j == k then some v else find k m

  -- map.erase(k)
  unfoldable pub erase : Bytes → Map V → Map V
  erase k [] = []
  erase k ((j, v) ∷ m) = let rest = erase k m in if j == k then rest else (j, v) ∷ rest

  -- map[k] = v, or a write through the iterator that `insert` returns
  unfoldable pub put : Bytes → V → Map V → Map V
  put k v m = (k, v) ∷ erase k m

  -- map.insert({k, v}) where its result is not looked at: an entry that is there stays
  unfoldable pub insert : Bytes → V → Map V → Map V
  insert k v m = elim (find k m) [ some _ ↦ m | none ↦ put k v m ]

  -- No key stands twice.
  abbrev pub IsMap : Map V → Type ℓ
  IsMap [] = Unit
  IsMap ((k, v) ∷ m) = (find k m ≡ none) × IsMap m

  pub find-empty : (k : Bytes) → find k [] ≡ none
  unfolding find
  find-empty k = refl

  pub find-cons :
      (k j : Bytes) (v : V) (m : Map V)
      → find k ((j, v) ∷ m) ≡ (if j == k then some v else find k m)
  unfolding find
  find-cons k j v m = refl

  pub find-erase :
      (k j : Bytes) (m : Map V) → find j (erase k m) ≡ (if k == j then none else find j m)
  unfolding find erase
  find-erase k j [] = ground arith
  find-erase k j ((i, v) ∷ m) = ground (arith, find-erase k j m, ==_iff i k, ==_iff i j, ==_iff k j)

  pub find-put :
      (k j : Bytes) (v : V) (m : Map V) → find j (put k v m) ≡ (if k == j then some v else find j m)
  unfolding find put
  find-put k j v m = ground (arith, find-erase k j m)

  pub find-insert :
      (k j : Bytes) (v : V) (m : Map V)
      → find j (insert k v m)
        ≡ (elim (find j m) [ some w ↦ some w | none ↦ if k == j then some v else none ])
  unfolding insert
  find-insert k j v m = ground (arith, find-put k j v m, ==_iff k j)

  pub find-put_self : (k : Bytes) (v : V) (m : Map V) → find k (put k v m) ≡ some v
  find-put_self k v m = simp (find-put, ==-refl)

  pub find-erase_self : (k : Bytes) (m : Map V) → find k (erase k m) ≡ none
  find-erase_self k m = simp (find-erase, ==-refl)

  pub erase-IsMap : (k : Bytes) (m : Map V) → IsMap m → IsMap (erase k m)
  unfolding erase
  erase-IsMap k [] h = h
  erase-IsMap k ((j, v) ∷ m) h = ground (arith, erase-IsMap k m h.1, find-erase k j m)

  pub put-IsMap : (k : Bytes) (v : V) (m : Map V) → IsMap m → IsMap (put k v m)
  unfolding put
  put-IsMap k v m h = (find-erase_self k m, erase-IsMap k m h)

  -- A key that is not there is erased without effect.
  pub erase_missing : (k : Bytes) (m : Map V) → find k m ≡ none → erase k m ≡ m
  unfolding find erase
  erase_missing k [] h = refl
  erase_missing k ((j, v) ∷ m) h = ground (arith, erase_missing k m)

  -- A key that is there is one entry fewer once it is erased.
  pub length-erase :
      (k : Bytes) (m : Map V) {v : V}
      → IsMap m
      → find k m ≡ some v
      → length (erase k m) + 1 ≡ length m
  unfolding find erase
  length-erase k [] h e = cc
  length-erase k ((j, w) ∷ m) {v} h e =
      ground (arith, length-erase k m {v = v} h.1, erase_missing k m, ==_iff j k)

pub ruleset map_laws = (find-empty, find-put, find-erase, find-put_self, find-erase_self)
