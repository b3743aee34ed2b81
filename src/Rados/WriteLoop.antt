-- ===== src/Rados/WriteLoop.antt =====
-- The loop of write() of lib/rados_io/rados_io.cpp, byte by byte over the objects of a file.
use native.Mathlib.Decide.{ℕ_discrete}
use nmfs.Prelude.{
  ℕ, zero, suc, ◌+◌, ◌-◌, ◌/◌, ◌%◌, ◌<◌, ◌≤◌, ◌≢◌, Bytes, ◌==◌, ==-refl, ==_iff, ◌≡◌, refl, ap, ◌∙◌,
  true, false, Option, length, take, drop, get_elem?, arith, ltb, Bool-cases, inl, inr, ltb→lt,
  if◌then◌else◌, length-take, length-drop, get_elem?-take, get_elem?-drop,
}
use nmfs.Exec.{ok}
use nmfs.Rados.Store.{IoCtx, IsStore, obj_size, bytes_of}
use nmfs.Rados.Key.{Category, obj_key}
use nmfs.Rados.Key.Injective.{obj_key_injective}
use nmfs.Rados.Overwrite.{between, get_elem?-overwrite}
use nmfs.Rados.Steps.{write_loop_end, write_loop_step}
use nmfs.Rados.{write_loop, sub_len, next_bound}

-- A range that starts in the object of `i` is the same range when positions count from the object.
same_range :
    (cursor i len : ℕ)
    → cursor / obj_size ≡ i / obj_size
    → between (cursor % obj_size) (cursor % obj_size + len) (i % obj_size)
      ≡ between cursor (cursor + len) i
same_range cursor i len e = ground arith

other_range :
    (cursor i len : ℕ)
    → cursor / obj_size ≢ i / obj_size
    → cursor % obj_size + len ≤ obj_size
    → between cursor (cursor + len) i ≡ false
other_range cursor i len d h = ground arith

-- The bytes of a range are those of its first piece and those of the rest.
two_pieces :
    (cursor stop m i : ℕ) (value : Bytes) (b : Option ℕ)
    → cursor < stop
    → m ≡ sub_len cursor stop
    → (if between (next_bound cursor) stop i
        then get_elem? (drop m value) (i - next_bound cursor)
        else if between cursor (cursor + m) i
        then get_elem? (take m value) (i - cursor)
        else b)
      ≡ (if between cursor stop i then get_elem? value (i - cursor) else b)
two_pieces cursor stop m i value b p e = elim (Bool-cases (between (next_bound cursor) stop i)) [
  | inl late ↦
      let reached : between cursor stop i ≡ true = ground arith in
      rw (late, reached)
        (get_elem?-drop m value (i - next_bound cursor) ∙ ap (get_elem? value) (ground arith))
  | inr early ↦ rw early (elim (Bool-cases (between cursor (cursor + m) i)) [
    | inl first ↦
        let reached : between cursor stop i ≡ true = ground arith in
        rw (first, reached) (get_elem?-take m value (i - cursor) (ground arith))
    | inr outside ↦
        let missed : between cursor stop i ≡ false = ground arith in rw (outside, missed)
  ])
]

abbrev rest_of : ℕ → ℕ → ℕ → ℕ → Bytes → Option ℕ → Option ℕ
rest_of n cursor stop i value b =
    if between (next_bound cursor) stop i
    then get_elem? (drop n value) (i - next_bound cursor)
    else b

sums :
    (sum n : ℕ) (value : Bytes)
    → n ≤ length value
    → sum + n + length (drop n value) ≡ sum + length value
sums sum n value h = omega (arith, length-drop n value)

module _ {io : IoCtx} (st : IsStore io) (category : Category) (key : Bytes) where
  open st use {content, written, content-written}

  -- The byte at a position of a file, whichever object it is in.
  unfoldable pub byte_at : io.State → ℕ → Option ℕ
  byte_at s i =
      get_elem? (bytes_of (content s (obj_key category key (i / obj_size)))) (i % obj_size)

  -- Does the object of the cursor reach up to it?
  abbrev pub Reaches : io.State → ℕ → Type 0
  Reaches s cursor =
      cursor % obj_size ≤ length (bytes_of (content s (obj_key category key (cursor / obj_size))))

  obj_key_ne : (m n : ℕ) → m ≢ n → (obj_key category key m == obj_key category key n) ≡ false
  obj_key_ne m n d = elim (Bool-cases (obj_key category key m == obj_key category key n)) [
    | inr e ↦ e
    | inl e ↦ absurd (d (obj_key_injective category category key key m n ((==_iff _ _).0 e)).2)
  ]

  -- One write_obj() changes the bytes of its range, and no other byte of the file.
  byte_at-written :
      (s : io.State) (piece : Bytes) (cursor i : ℕ)
      → Reaches s cursor
      → cursor % obj_size + length piece ≤ obj_size
      → byte_at (written s (obj_key category key (cursor / obj_size)) piece (cursor % obj_size)) i
        ≡ (if between cursor (cursor + length piece) i
            then get_elem? piece (i - cursor)
            else byte_at s i)
  unfolding byte_at
  byte_at-written s piece cursor i r fits = elim (ℕ_discrete (cursor / obj_size) (i / obj_size)) [
    | yes e ↦
        rw (content-written s, ← e, ==-refl (obj_key category key (cursor / obj_size)))
          (get_elem?-overwrite _ piece (cursor % obj_size) r (i % obj_size)
            ∙ rw (
              same_range cursor i (length piece) e,
              let shift : i % obj_size - cursor % obj_size ≡ i - cursor = omega arith in shift,
            ))
    | no d ↦ rw (content-written s, obj_key_ne _ _ d, other_range cursor i (length piece) d fits)
  ]

  -- The objects of all other files are as they were.
  abbrev pub SameOthers : io.State → io.State → Type 0
  SameOthers s s' =
      (j : Bytes) → ((n : ℕ) → obj_key category key n ≢ j) → content s' j ≡ content s j

  others-written :
      (s : io.State) (n : ℕ) (piece : Bytes) (offset : ℕ)
      → SameOthers s (written s (obj_key category key n) piece offset)
  others-written s n piece offset j d = elim (Bool-cases (obj_key category key n == j)) [
    | inr e ↦ rw (content-written s, e)
    | inl e ↦ absurd (d n ((==_iff _ _).0 e))
  ]

  -- Every round that the loop needs is within its fuel.
  pub record Fits (fuel cursor stop : ℕ) : Type 0 where
    pub near : cursor / obj_size ≤ stop / obj_size + 1
    pub rounds_left : stop / obj_size + 2 ≤ fuel + cursor / obj_size

  -- The state after one round of the loop.
  abbrev after_round : io.State → ℕ → ℕ → Bytes → io.State
  after_round s cursor stop value =
      written s (obj_key category key (cursor / obj_size)) (take (sub_len cursor stop) value)
        (cursor % obj_size)

  pub write_round :
      (fuel cursor stop sum : ℕ) (value : Bytes) (s : io.State)
      → cursor < stop
      → length (take (sub_len cursor stop) value) ≡ sub_len cursor stop
      → write_loop io (suc fuel) category key value cursor stop sum s
        ≡ write_loop io fuel category key
            (drop (sub_len cursor stop) value)
            (next_bound cursor)
            stop
            (sum + sub_len cursor stop)
            (after_round s cursor stop value)
  write_round fuel cursor stop sum value s p e =
      write_loop_step st category key fuel cursor stop sum value s p
      ∙ ap
          (λ k.
            write_loop io fuel category key (drop k value) (next_bound cursor) stop (sum + k)
              (after_round s cursor stop value))
          e

  byte_at_round :
      (s : io.State) (cursor stop i : ℕ) (value : Bytes)
      → Reaches s cursor
      → length (take (sub_len cursor stop) value) ≡ sub_len cursor stop
      → byte_at (after_round s cursor stop value) i ≡ (
          if between cursor (cursor + sub_len cursor stop) i
          then get_elem? (take (sub_len cursor stop) value) (i - cursor)
          else byte_at s i)
  byte_at_round s cursor stop i value r e =
      byte_at-written s (take (sub_len cursor stop) value) cursor i r (omega (arith, e))
      ∙ ap
          (λ k.
            if between cursor (cursor + k) i
            then get_elem? (take (sub_len cursor stop) value) (i - cursor)
            else byte_at s i)
          e

  others_round :
      (s : io.State) (cursor stop : ℕ) (value : Bytes)
      → SameOthers s (after_round s cursor stop value)
  others_round s cursor stop value =
      others-written s (cursor / obj_size) (take (sub_len cursor stop) value) (cursor % obj_size)

  pub write_loop_bytes :
      (fuel cursor stop sum : ℕ) (value : Bytes) (s : io.State)
      → Fits fuel cursor stop
      → length value ≡ stop - cursor
      → Reaches s cursor
      → (s' : io.State) × (write_loop io fuel category key value cursor stop sum s
          ≡ (ok (sum + length value), s'))
        × ((i : ℕ)
            → byte_at s' i
              ≡ (if between cursor stop i then get_elem? value (i - cursor) else byte_at s i))
        × SameOthers s s'
  write_loop_bytes zero cursor stop sum value s f l r =
      absurd (omega (arith, f.near, f.rounds_left))
  write_loop_bytes (suc fuel) cursor stop sum value s f l r = elim (Bool-cases (ltb cursor stop)) [
    | inr over ↦ (
      s,
      write_loop_end st category key fuel cursor stop sum value s (ground arith)
          ∙ ap (λ k. (ok k, s))
              (let none_left : sum ≡ sum + length value = ground arith in none_left),
      λ i. let missed : between cursor stop i ≡ false = ground arith in rw missed,
      λ j d. refl,
    )
    | inl more ↦
        let n = sub_len cursor stop in
        let more' : cursor < stop = ltb→lt cursor stop more in
        let whole : length (take n value) ≡ n = omega (arith, length-take n value) in
        let (s', run, bytes, others) =
          write_loop_bytes fuel (next_bound cursor) stop (sum + n) (drop n value)
            (after_round s cursor stop value)
            (record { near = omega (arith, f.near); rounds_left = omega (arith, f.rounds_left) })
            (omega (arith, length-drop n value)) (omega arith) in
        (
          s',
          write_round fuel cursor stop sum value s more' whole
              ∙ (run ∙ ap (λ k. (ok k, s')) (sums sum n value (omega arith))),
          λ i.
              bytes i
              ∙ (ap (λ b. rest_of n cursor stop i value b)
                    (byte_at_round s cursor stop i value r whole)
                  ∙ two_pieces cursor stop n i value (byte_at s i) more' refl),
          λ j d. others j d ∙ others_round s cursor stop value j d,
        )
  ]
