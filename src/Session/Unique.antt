-- ===== src/Session/Unique.antt =====
-- The numbers that manager/session/session_impl.cpp gives to clients, over any number of calls.
use nmfs.Prelude.{
  ℕ, zero, suc, ◌+◌, ◌^◌, ◌<◌, ◌≤◌, ◌≡◌, ◌⊎◌, inl, inr, refl, List, [], ◌∷◌, arith, ltb, Bool-cases,
  ltb→lt,
}
use nmfs.Exec.{Result, ok, err}
use nmfs.Rados.Store.{IoCtx}
use nmfs.Session.{mount, no_id, client_bits}

module _ (io : IoCtx) where
  abbrev add_id : Result ℕ → List ℕ → List ℕ
  add_id (ok id) ids = id ∷ ids
  add_id (err e) ids = ids

  -- The numbers that so many calls of mount() return, those that throw left out.
  unfoldable pub mounts : ℕ → ℕ → io.State → List ℕ
  mounts zero next_id s = []
  mounts (suc n) next_id s =
      let ((r, next_id'), s') = mount io next_id s in add_id r (mounts n next_id' s')

  -- Each number is the one that stands for none, or below the limit and above all before it.
  abbrev pub AreFresh : ℕ → List ℕ → Type 0
  AreFresh low [] = Unit {0}
  AreFresh low (id ∷ ids) =
      ((id ≡ no_id) × AreFresh low ids)
      ⊎ ((low ≤ id) × (id < 2 ^ client_bits) × AreFresh (id + 1) ids)

  AreFresh-higher : (a b : ℕ) (ids : List ℕ) → a ≤ b → AreFresh b ids → AreFresh a ids
  AreFresh-higher a b [] h f = tt
  AreFresh-higher a b (id ∷ ids) h (inl (none, rest)) = inl (none, AreFresh-higher a b ids h rest)
  AreFresh-higher a b (id ∷ ids) h (inr (low, high, rest)) = inr (omega arith, high, rest)

  added :
      (r : Result ℕ) (next_id : ℕ) (ids : List ℕ)
      → next_id < 2 ^ client_bits
      → AreFresh (next_id + 1) ids
      → AreFresh next_id (add_id (nmfs.Session.answer io next_id r) ids)
  added (ok n) next_id ids h f = inr (omega arith, h, f)
  added (err e) next_id ids h f = AreFresh-higher next_id (next_id + 1) ids (omega arith) f

  -- No two clients get the same number below 2^24, whatever the object store does: over any calls
  -- of mount(), each number is larger than all before it, or the one that says that none is left.
  pub mounts-AreFresh : (n next_id : ℕ) (s : io.State) → AreFresh next_id (mounts n next_id s)
  unfolding mounts mount
  mounts-AreFresh zero next_id s = tt
  mounts-AreFresh (suc n) next_id s = elim (Bool-cases (ltb next_id (2 ^ client_bits))) [
    | inl e ↦
        rw (e, mounts, mount) (added _ next_id _ (ltb→lt _ _ e) (mounts-AreFresh n (next_id + 1) _))
    | inr e ↦ rw (e, mounts, mount) (inl (refl, mounts-AreFresh n next_id s))
  ]
