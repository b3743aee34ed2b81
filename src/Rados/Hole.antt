-- ===== src/Rados/Hole.antt =====
-- How write() of lib/rados_io/rados_io.cpp finds the end of a file and fills the hole behind it.
use native.Mathlib.Decide.{ℕ_discrete}
use nmfs.Prelude.{
  ℕ, zero, suc, ◌+◌, ◌-◌, ◌*◌, ◌/◌, ◌%◌, ◌<◌, ◌≤◌, Bytes, ◌≡◌, refl, ap, ◌∙◌, true, false, Option,
  none, some, length, get_elem?, ◌⊎◌, arith, ltb, Bool-cases, inl, inr, ltb→lt, if◌then◌else◌,
  tests, length-replicate, get_elem?-replicate, get_elem?_within, Option-cases,
}
use nmfs.Exec.{ok}
use nmfs.Rados.Store.{IoCtx, IsStore, Reply, obj_size, bytes_of}
use nmfs.Rados.Key.{Category, obj_key}
use nmfs.Rados.Overwrite.{between}
use nmfs.Rados.WriteLoop.{byte_at, Reaches, SameOthers, write_loop_bytes}
use nmfs.Rados.{zerofill, lb_file_size, fill_hole, rounds}
use nmfs.Rados.ZeroFill.{zeros, forget, zerofill_loop_lem}

module _ {io : IoCtx} (st : IsStore io) (category : Category) (key : Bytes) where
  open st use {content, written, stat_lem}

  -- Where a file ends, of which objects above `n` are not looked at: at the end of the last object
  -- that there is, or at 0 if there is none.
  pub data IsEnd (n : ℕ) (s : io.State) : ℕ → Type 0 where
    empty : ((k : ℕ) → k ≤ n → content s (obj_key category key k) ≡ none) → IsEnd n s 0
    last :
        (m : ℕ) (bs : Bytes)
        → m ≤ n
        → content s (obj_key category key m) ≡ some bs
        → ((k : ℕ) → m < k → k ≤ n → content s (obj_key category key k) ≡ none)
        → IsEnd n s (m * obj_size + length bs)

  none_at :
      (s : io.State) (n k : ℕ)
      → content s (obj_key category key n) ≡ none
      → k ≡ n
      → content s (obj_key category key k) ≡ none
  none_at s n k e same = rw same e

  -- lb_file_size() reports no object where there is none, and the end of the last one otherwise.
  lb_file_size_cases :
      (n : ℕ) (s : io.State)
      → ((lb_file_size io category key n s ≡ Reply.enoent)
          × ((k : ℕ) → k ≤ n → content s (obj_key category key k) ≡ none))
        ⊎ ((m : ℕ) × (bs : Bytes) × (m ≤ n)
            × (lb_file_size io category key n s ≡ Reply.done (m * obj_size + length bs))
            × (content s (obj_key category key m) ≡ some bs)
            × ((k : ℕ) → m < k → k ≤ n → content s (obj_key category key k) ≡ none))
  unfolding lb_file_size
  lb_file_size_cases zero s = elim (Option-cases (content s (obj_key category key 0))) [
    | inl e ↦
        inl (
          rw (stat_lem s, lb_file_size) (rw (e, lb_file_size)),
          λ k h. none_at s 0 k e (omega arith),
        )
    | inr (bs, e) ↦ inr (
      0,
      bs,
      omega arith,
      rw (stat_lem s, lb_file_size)
          (rw (e, lb_file_size)
            (ap Reply.done
              (let at_start : length bs ≡ 0 * obj_size + length bs = omega arith in at_start))),
      e,
      λ k above h. absurd (omega arith),
    )
  ]
  lb_file_size_cases (suc n) s = elim (Option-cases (content s (obj_key category key (suc n)))) [
    | inl e ↦
        let down : lb_file_size io category key (suc n) s ≡ lb_file_size io category key n s =
          rw (stat_lem s, lb_file_size) (rw (e, lb_file_size)) in
        let here_or_below : (k : ℕ)
            → (k ≤ n → content s (obj_key category key k) ≡ none)
            → k ≤ suc n
            → content s (obj_key category key k) ≡ none =
          λ k below h. elim (ℕ_discrete k (suc n)) [
            | yes same ↦ none_at s (suc n) k e same
            | no d ↦ below (omega arith)
          ] in
        elim (lb_file_size_cases n s) [
          | inl (gone, none_there) ↦ inl (down ∙ gone, λ k h. here_or_below k (none_there k) h)
          | inr (m, bs, below, found, there, none_above) ↦ inr (
            m,
            bs,
            omega arith,
            down ∙ found,
            there,
            λ k above h. here_or_below k (none_above k above) h,
          )
        ]
    | inr (bs, e) ↦ inr (
      suc n,
      bs,
      omega arith,
      rw (stat_lem s, lb_file_size) (rw (e, lb_file_size)),
      e,
      λ k above h. absurd (omega arith),
    )
  ]

  -- No object of the file is longer than an object can be.
  abbrev pub IsCapped : io.State → Type 0
  IsCapped s = (n : ℕ) → length (bytes_of (content s (obj_key category key n))) ≤ obj_size

  -- A byte that is there makes the object reach up to the next position.
  byte_at-Reaches :
      (s : io.State) (i j : ℕ) {b : ℕ}
      → i + 1 ≡ j
      → byte_at st category key s i ≡ some b
      → Reaches st category key s j
  unfolding byte_at
  byte_at-Reaches s i j h e = elim (ℕ_discrete (j % obj_size) 0) [
    | yes z ↦ rw z (omega arith)
    | no d ↦
        let same : j / obj_size ≡ i / obj_size = omega arith in
        rw same (omega (arith, get_elem?_within _ (i % obj_size) e))
  ]

  pub record Filled (s s1 : io.State) (from offset : ℕ) : Type 0 where
    pub bytes :
        (i : ℕ)
        → byte_at st category key s1 i
          ≡ (if between from offset i then some 0 else byte_at st category key s i)
    pub others : SameOthers st category key s s1
    pub reaches : Reaches st category key s1 offset

  zeros_read :
      (from offset i : ℕ) (b : Option ℕ)
      → (if between from offset i then get_elem? (zeros (offset - from)) (i - from) else b)
        ≡ (if between from offset i then some 0 else b)
  zeros_read from offset i b = elim (Bool-cases (between from offset i)) [
    | inr out ↦ rw out
    | inl within ↦ rw within (get_elem?-replicate (offset - from) 0 (i - from) (ground arith))
  ]

  zeros-Filled :
      (s s1 : io.State) (from offset : ℕ)
      → from < offset
      → ((i : ℕ)
          → byte_at st category key s1 i ≡ (
              if between from offset i
              then get_elem? (zeros (offset - from)) (i - from)
              else byte_at st category key s i))
      → SameOthers st category key s s1
      → Filled s s1 from offset
  zeros-Filled s s1 from offset h bytes others =
      let filled = λ (i : ℕ). bytes i ∙ zeros_read from offset i (byte_at st category key s i) in
      let last : between from offset (offset - 1) ≡ true = ground arith in
      record {
        bytes = filled;
        others = others;
        reaches =
            byte_at-Reaches s1 (offset - 1) offset {b = 0} (omega arith)
              (filled (offset - 1) ∙ rw last);
      }

  zerofill_bytes :
      (s : io.State) (from len offset : ℕ)
      → from + len ≡ offset
      → 0 < len
      → Reaches st category key s from
      → (s1 : io.State) × (zerofill io category key len from s ≡ (ok tt, s1))
        × Filled s s1 from offset
  unfolding zerofill
  zerofill_bytes s from len offset stop h r =
      let (s1, run, bytes, others) =
        write_loop_bytes st category key (rounds from offset) from offset 0 (zeros (offset - from))
          s (record { near = omega arith; rounds_left = omega arith })
          (length-replicate (offset - from) 0) r in
      (
        s1,
        rw stop (
            zerofill_loop_lem st category key (rounds from offset) from offset 0 s ∙ ap forget run),
        zeros-Filled s s1 from offset (omega arith) bytes others,
      )

  -- Without a hole nothing is filled.
  unfilled :
      (s : io.State) (from offset : ℕ)
      → offset ≤ from
      → Reaches st category key s offset
      → Filled s s from offset
  unfilled s from offset h r = record {
    bytes = λ i. let out : between from offset i ≡ false = ground arith in rw out;
    others = λ j d. refl;
    reaches = r;
  }

  -- A file whose last object is `m` can be written from its end, and inside that object.
  end-Reaches :
      (s : io.State) (m : ℕ) (bs : Bytes)
      → content s (obj_key category key m) ≡ some bs
      → length bs ≤ obj_size
      → Reaches st category key s (m * obj_size + length bs)
  end-Reaches s m bs e c =
      let size = m * obj_size + length bs in
      elim (ℕ_discrete (size % obj_size) 0) [
        | yes z ↦ rw z (omega arith)
        | no d ↦ let same : size / obj_size ≡ m = omega arith in rw (same, e) (omega arith)
      ]

  offset-Reaches :
      (s : io.State) (m offset : ℕ) (bs : Bytes)
      → content s (obj_key category key m) ≡ some bs
      → length bs ≤ obj_size
      → m ≤ offset / obj_size
      → offset ≤ m * obj_size + length bs
      → Reaches st category key s offset
  offset-Reaches s m offset bs e c below h = elim (ℕ_discrete (offset % obj_size) 0) [
    | yes z ↦ rw z (omega arith)
    | no d ↦ let same : offset / obj_size ≡ m = omega arith in rw (same, e) (omega arith)
  ]

  capped_at :
      (s : io.State) (m : ℕ) (bs : Bytes)
      → IsCapped s
      → content s (obj_key category key m) ≡ some bs
      → length bs ≤ obj_size
  capped_at s m bs c e =
      let h : length (bytes_of (content s (obj_key category key m))) ≤ obj_size = c m in
      let short = rw e at h in short

  pub fill_hole_bytes :
      (s : io.State) (offset : ℕ)
      → IsCapped s
      → (stop : ℕ) × (s1 : io.State) × IsEnd (offset / obj_size) s stop
        × (fill_hole io category key offset (lb_file_size io category key (offset / obj_size) s) s
            ≡ (ok tt, s1))
        × Filled s s1 stop offset
  unfolding fill_hole
  fill_hole_bytes s offset c = elim (lb_file_size_cases (offset / obj_size) s) [
    | inl (none_there, no_object) ↦ rw none_there (elim (Bool-cases (ltb 0 offset)) [
      | inl hole ↦
          let (s1, run, filled) =
            zerofill_bytes s 0 offset offset (omega arith) (ltb→lt _ _ hole) (omega arith) in
          (0, s1, empty no_object, rw hole run, filled)
      | inr start ↦
          (0, s, empty no_object, rw start, unfilled s 0 offset (ground arith) (ground arith))
    ])
    | inr (m, bs, below, found, there, none_above) ↦
        let size = m * obj_size + length bs in
        let short = capped_at s m bs c there in
        let is_end = last m bs below there none_above in
        rw found (elim (Bool-cases (ltb size offset)) [
          | inl hole ↦
              let (s1, run, filled) =
                zerofill_bytes s size (offset - size) offset (omega (tests, hole))
                  (omega (tests, hole)) (end-Reaches s m bs there short) in
              (size, s1, is_end, rw hole run, filled)
          | inr inside ↦ (
            size,
            s,
            is_end,
            rw inside,
            unfilled s size offset (ground arith)
                (offset-Reaches s m offset bs there short below (ground arith)),
          )
        ])
  ]
