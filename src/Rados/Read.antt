-- ===== src/Rados/Read.antt =====
-- read() of lib/rados_io/rados_io.cpp over the objects of a file, and what it reads after a write().
use mathlib.Core.List.{append-nil, append_assoc}
use nmfs.Prelude.{
  ℕ, zero, suc, ◌+◌, ◌-◌, ◌/◌, ◌%◌, ◌<◌, ◌≤◌, Bytes, ◌≡◌, refl, sym, ap, ◌∙◌, true, some, [], ◌∷◌,
  ◌++◌, length, take, drop, get_elem?, arith, ltb, Bool-cases, inl, inr, ltb→lt, tests, length-take,
  length-drop, length-append, get_elem?-take, get_elem?-drop, get_elem?_within, get_elem?_beyond,
  get_elem?-append_left, get_elem?-append_right, Option-cases, list_ext,
}
use nmfs.Exec.{ok}
use nmfs.Rados.Store.{IoCtx, IsStore, obj_size, bytes_of}
use nmfs.Rados.Key.{Category, obj_key}
use nmfs.Rados.Overwrite.{between}
use nmfs.Rados.Steps.{read_loop_end, read_loop_step}
use nmfs.Rados.WriteLoop.{byte_at}
use nmfs.Rados.Hole.{IsCapped}
use nmfs.Rados.Write.{IsWritten, write-IsWritten}
use nmfs.Rados.{read, read_loop, write, sub_len, next_bound, rounds}

module _ {io : IoCtx} (st : IsStore io) (category : Category) (key : Bytes) where
  open st use {content}

  -- Every byte of the range is there.
  abbrev pub HasRange : io.State → ℕ → ℕ → Type 0
  HasRange s cursor stop =
      (i : ℕ) → cursor ≤ i → i < stop → (b : ℕ) × (byte_at st category key s i ≡ some b)

  record Fits (fuel cursor stop : ℕ) : Type 0 where
    near : cursor / obj_size ≤ stop / obj_size + 1
    rounds_left : stop / obj_size + 2 ≤ fuel + cursor / obj_size

  -- The object of a byte that is there.
  object_of :
      (s : io.State) (last n : ℕ) {b : ℕ}
      → byte_at st category key s last ≡ some b
      → last / obj_size ≡ n
      → (bs : Bytes) × (content s (obj_key category key n) ≡ some bs)
        × (last % obj_size < length bs)
  unfolding byte_at
  object_of s last n {b} e same =
      let here : get_elem? (bytes_of (content s (obj_key category key n))) (last % obj_size)
          ≡ some b =
        rw (← same) e in
      elim (Option-cases (content s (obj_key category key n))) [
        | inl gone ↦ absurd (omega (arith, get_elem?_within [] (last % obj_size) (rw gone at here)))
        | inr (bs, there) ↦ (bs, there, get_elem?_within bs (last % obj_size) (rw there at here))
      ]

  -- The object of a cursor before the end is there, and reaches to the end of its piece.
  object_there :
      (s : io.State) (cursor stop : ℕ)
      → HasRange s cursor stop
      → cursor < stop
      → (bs : Bytes) × (content s (obj_key category key (cursor / obj_size)) ≡ some bs)
        × (cursor % obj_size + sub_len cursor stop ≤ length bs)
  object_there s cursor stop has h =
      let last = cursor + sub_len cursor stop - 1 in
      let (b, e) = has last (omega arith) (omega arith) in
      let (bs, there, long) = object_of s last (cursor / obj_size) {b = b} e (omega arith) in
      (bs, there, omega (arith, long))

  -- The bytes of the piece that one round reads.
  piece_bytes :
      (s : io.State) (cursor stop i : ℕ) (bs : Bytes)
      → content s (obj_key category key (cursor / obj_size)) ≡ some bs
      → i < sub_len cursor stop
      → get_elem? (take (sub_len cursor stop) (drop (cursor % obj_size) bs)) i
        ≡ byte_at st category key s (cursor + i)
  unfolding byte_at
  piece_bytes s cursor stop i bs there h =
      let same : (cursor + i) / obj_size ≡ cursor / obj_size = omega arith in
      let place : cursor % obj_size + i ≡ (cursor + i) % obj_size = omega arith in
      rw (same, there)
        (get_elem?-take (sub_len cursor stop) (drop (cursor % obj_size) bs) i h
          ∙ (get_elem?-drop (cursor % obj_size) bs i ∙ ap (get_elem? bs) place))

  pub record IsRead (s : io.State) (cursor stop : ℕ) (bs : Bytes) : Type 0 where
    pub whole : length bs ≡ stop - cursor
    pub bytes :
        (i : ℕ) → i < stop - cursor → get_elem? bs i ≡ byte_at st category key s (cursor + i)

  -- One piece and the rest.
  join-IsRead :
      (s : io.State) (cursor stop : ℕ) (bs rest : Bytes)
      → cursor < stop
      → content s (obj_key category key (cursor / obj_size)) ≡ some bs
      → cursor % obj_size + sub_len cursor stop ≤ length bs
      → IsRead s (next_bound cursor) stop rest
      → IsRead s cursor stop (take (sub_len cursor stop) (drop (cursor % obj_size) bs) ++ rest)
  join-IsRead s cursor stop bs rest p there long r =
      let piece = take (sub_len cursor stop) (drop (cursor % obj_size) bs) in
      let whole : length piece ≡ sub_len cursor stop = omega (
        arith,
        length-take (sub_len cursor stop) (drop (cursor % obj_size) bs),
        length-drop (cursor % obj_size) bs,
      ) in
      record {
        whole = omega (arith, length-append piece rest, r.whole);
        bytes = λ i h. elim (Bool-cases (ltb i (sub_len cursor stop))) [
          | inl first ↦
              get_elem?-append_left piece rest i (omega (tests, first))
              ∙ piece_bytes s cursor stop i bs there (omega (tests, first))
          | inr later ↦
              let behind : length piece ≤ i = ground arith in
              get_elem?-append_right piece rest i behind
              ∙ (r.bytes (i - length piece) (omega arith)
                  ∙ ap (byte_at st category key s) (omega arith))
        ];
      }

  read_loop_bytes :
      (fuel cursor stop : ℕ) (out : Bytes) (s : io.State)
      → Fits fuel cursor stop
      → HasRange s cursor stop
      → (bs : Bytes) × (read_loop io fuel category key cursor stop out s ≡ (ok (out ++ bs), s))
        × IsRead s cursor stop bs
  read_loop_bytes zero cursor stop out s f has = absurd (omega (arith, f.near, f.rounds_left))
  read_loop_bytes (suc fuel) cursor stop out s f has = elim (Bool-cases (ltb cursor stop)) [
    | inr over ↦ (
      [],
      rw append-nil (read_loop_end st category key fuel cursor stop out s (ground arith)),
      record { whole = ground arith; bytes = λ i h. absurd (ground arith) },
    )
    | inl more ↦
        let more' : cursor < stop = ltb→lt cursor stop more in
        let (bs, there, long) = object_there s cursor stop has more' in
        let piece = take (sub_len cursor stop) (drop (cursor % obj_size) bs) in
        let (rest, run, read) =
          read_loop_bytes fuel (next_bound cursor) stop (out ++ piece) s
            (record { near = omega (arith, f.near); rounds_left = omega (arith, f.rounds_left) })
            (λ i low high. has i (omega arith) high) in
        (
          piece ++ rest,
          read_loop_step st category key fuel cursor stop out s more' there
              ∙ (run ∙ ap (λ bs'. (ok bs', s)) (append_assoc out piece rest)),
          join-IsRead s cursor stop bs rest more' there long read,
        )
  ]

  -- A range all of whose bytes are there is read whole, within the rounds of the loop.
  pub read-IsRead :
      (len offset : ℕ) (s : io.State)
      → HasRange s offset (offset + len)
      → (bs : Bytes) × (read io category key len offset s ≡ (ok bs, s))
        × IsRead s offset (offset + len) bs
  unfolding read
  read-IsRead len offset s has =
      read_loop_bytes (rounds offset (offset + len)) offset (offset + len) [] s
        (record { near = omega arith; rounds_left = omega arith }) has

  some_byte : (bs : Bytes) (i : ℕ) → i < length bs → (b : ℕ) × (get_elem? bs i ≡ some b)
  some_byte [] i h = absurd (omega arith)
  some_byte (b ∷ bs) zero h = (b, refl)
  some_byte (b ∷ bs) (suc i) h = some_byte bs i (omega arith)

  new_bytes :
      (s s' : io.State) (value : Bytes) (offset : ℕ)
      → IsWritten st category key s s' value offset
      → (i : ℕ) → offset ≤ i
      → i < offset + length value
      → byte_at st category key s' i ≡ get_elem? value (i - offset)
  new_bytes s s' value offset w i low high =
      let within : between offset (offset + length value) i ≡ true = ground arith in
      w.bytes i ∙ rw within

  same_bytes :
      (s : io.State) (value bs : Bytes) (offset i : ℕ)
      → IsRead s offset (offset + length value) bs
      → ((i : ℕ)
          → offset ≤ i
          → i < offset + length value
          → byte_at st category key s i ≡ get_elem? value (i - offset))
      → get_elem? bs i ≡ get_elem? value i
  same_bytes s value bs offset i r new = elim (Bool-cases (ltb i (length value))) [
    | inl within ↦
        r.bytes i (omega (tests, within))
        ∙ (new (offset + i) (omega arith) (omega (tests, within))
            ∙ ap (get_elem? value) (omega arith))
    | inr behind ↦
        get_elem?_beyond bs i (ground (arith, r.whole))
        ∙ sym (get_elem?_beyond value i (ground arith))
  ]

  -- On a cluster where no call fails, what write() has put at an offset of a file with no object
  -- above 4 MiB, read() returns from there: the same bytes, and all of them.
  pub read-write :
      (value : Bytes) (offset : ℕ) (s : io.State)
      → IsCapped st category key s
      → (s' : io.State) × (write io category key value offset s ≡ (ok (length value), s'))
        × (read io category key (length value) offset s' ≡ (ok value, s'))
  read-write value offset s c =
      let (s', run, w) = write-IsWritten st category key value offset s c in
      let new = new_bytes s s' value offset w in
      let (bs, back, r) = read-IsRead (length value) offset s' (λ i low high.
        let (b, e) = some_byte value (i - offset) (omega arith) in (b, new i low high ∙ e)) in
      (
        s',
        run,
        back
            ∙ ap (λ v. (ok v, s')) (list_ext bs value (λ i. same_bytes s' value bs offset i r new)),
      )
