-- ===== src/Rados/Remove.antt =====
-- remove() and exist() of lib/rados_io/rados_io.cpp over the objects of a file.
use native.Mathlib.Decide.{ℕ_discrete}
use nmfs.Prelude.{
  ℕ, zero, suc, ◌+◌, ◌<◌, ◌≤◌, ◌≡◌, ◌⊎◌, refl, sym, ap, ◌∙◌, Bytes, ◌==◌, ==-refl, eq_of_==, false,
  none, some, arith, inl, inr, Bool-cases,
}
use nmfs.Exec.{ok}
use nmfs.Rados.Store.{IoCtx, IsStore}
use nmfs.Rados.Key.{Category, obj_key}
use nmfs.Rados.Key.Injective.{obj_key_injective}
use nmfs.Rados.{remove, remove_loop, exist}

module _ {io : IoCtx} (st : IsStore io) (category : Category) (key : Bytes) where
  open st use {content, removed, remove_lem, content-removed, stat_lem}

  abbrev object : ℕ → Bytes
  object n = obj_key category key n

  -- The file consists of its first `d` objects from `n` on: they are there, and the next is not.
  pub record HasObjects (s : io.State) (n d : ℕ) : Type 0 where
    pub there : (k : ℕ) → n ≤ k → k < n + d → (bs : Bytes) × (content s (object k) ≡ some bs)
    pub at_end : content s (object (n + d)) ≡ none

  -- They are gone, and nothing else is.
  pub record IsRemoved (s s' : io.State) (n d : ℕ) : Type 0 where
    pub gone : (k : ℕ) → n ≤ k → k ≤ n + d → content s' (object k) ≡ none
    pub kept :
        (j : Bytes)
        → (content s' j ≡ content s j) ⊎ ((k : ℕ) × (n ≤ k) × (k < n + d) × (object k ≡ j))

  same_number : (m n : ℕ) → object m ≡ object n → m ≡ n
  same_number m n e = (obj_key_injective category category key key m n e).2

  -- An object that is removed leaves the later ones.
  removed-HasObjects :
      (s : io.State) (n d : ℕ)
      → HasObjects s n (suc d)
      → HasObjects (removed s (object n)) (n + 1) d
  removed-HasObjects s n d h = record {
    there = λ k low high.
        let (bs, e) = h.there k (omega arith) (omega arith) in (bs, later k (omega arith) ∙ e);
    at_end =
        later (n + 1 + d) (omega arith)
        ∙ ap (λ k. content s (object k)) (let e : n + 1 + d ≡ n + suc d = omega arith in e)
        ∙ h.at_end;
  }
    where
      later : (k : ℕ) → n < k → content (removed s (object n)) (object k) ≡ content s (object k)
      later k low = elim (Bool-cases (object n == object k)) [
        | inl e ↦ absurd (let e' = same_number n k (eq_of_== _ _ e) in omega arith)
        | inr e ↦ content-removed s (object n) (object k) ∙ rw e
      ]

  removed-IsRemoved :
      (s s' : io.State) (n d : ℕ)
      → IsRemoved (removed s (object n)) s' (n + 1) d
      → IsRemoved s s' n (suc d)
  removed-IsRemoved s s' n d r = record {
    gone = λ k low high. elim (ℕ_discrete n k) [
      | no e ↦ r.gone k (omega arith) (omega arith)
      | yes e ↦ ap (λ k. content s' (object k)) (sym e) ∙ first
    ];
    kept = λ j. elim (r.kept j) [
      | inr (k, low, high, e) ↦ inr (k, omega arith, omega arith, e)
      | inl same ↦ elim (Bool-cases (object n == j)) [
        | inl e ↦ inr (n, omega arith, omega arith, eq_of_== _ _ e)
        | inr e ↦ inl (same ∙ content-removed s (object n) j ∙ rw e)
      ]
    ];
  }
    where
      first : content s' (object n) ≡ none
      first = elim (r.kept (object n)) [
        | inl same ↦ same ∙ content-removed s (object n) (object n) ∙ rw (==-refl (object n))
        | inr (k, low, high, e) ↦ absurd (let e' = same_number k n e in omega arith)
      ]

  remove_loop-IsRemoved :
      (d fuel n : ℕ) (s : io.State)
      → d < fuel
      → HasObjects s n d
      → (s' : io.State) × (remove_loop io fuel category key n s ≡ (ok tt, s')) × IsRemoved s s' n d
  unfolding remove_loop
  remove_loop-IsRemoved d zero n s f h = absurd (omega arith)
  remove_loop-IsRemoved zero (suc fuel) n s f h =
      let none_there : content s (object n) ≡ none =
        ap (λ k. content s (object k)) (let e : n ≡ n + 0 = omega arith in e) ∙ h.at_end in
      (
        s,
        rw (remove_lem s, remove_loop) (rw none_there),
        record {
          gone = λ k low high.
              ap (λ k. content s (object k)) (let e : k ≡ n = omega arith in e) ∙ none_there;
          kept = λ j. inl refl;
        },
      )
  remove_loop-IsRemoved (suc d) (suc fuel) n s f h =
      let (bs, e) = h.there n (omega arith) (omega arith) in
      let (s', run, r) =
        remove_loop-IsRemoved d fuel (n + 1) (removed s (object n)) (omega arith)
          (removed-HasObjects s n d h) in
      (s', rw (remove_lem s, remove_loop) (rw (e, remove_loop) run), removed-IsRemoved s s' n d r)

  exist_gone :
      (s : io.State) → content s (object 0) ≡ none → exist io category key s ≡ (ok false, s)
  unfolding exist
  exist_gone s e = rw (stat_lem s, exist) (rw (e, exist))

  -- On a cluster where no call fails, remove() of a file of `d` objects ends within any fuel above
  -- `d`, and leaves none of them; every other object is as it was, and exist() finds the file no
  -- more.
  pub remove-IsRemoved :
      (d fuel : ℕ) (s : io.State)
      → d < fuel
      → HasObjects s 0 d
      → (s' : io.State) × (remove io fuel category key s ≡ (ok tt, s'))
        × IsRemoved s s' 0 d
        × (exist io category key s' ≡ (ok false, s'))
  unfolding remove
  remove-IsRemoved d fuel s f h =
      let (s', run, r) = remove_loop-IsRemoved d fuel 0 s f h in
      (s', run, r, exist_gone s' (r.gone 0 (omega arith) (omega arith)))
