-- ===== src/Rados/Steps.antt =====
-- One round of each loop of lib/rados_io/rados_io.cpp, on a cluster where no call fails.
use nmfs.Prelude.{
  ℕ, suc, ◌+◌, ◌/◌, ◌%◌, ◌<◌, ◌≤◌, Bytes, ◌≡◌, none, some, [], ◌++◌, length, take, drop, arith, ltb,
  lt→ltb, false,
}
use nmfs.Exec.{ok, err, no_such_object}
use nmfs.Rados.Store.{IoCtx, IsStore, obj_size}
use nmfs.Rados.Key.{Category, obj_key}
use nmfs.Rados.{read_loop, read_obj, write_loop, write_obj, sub_len, next_bound}

not_ltb : (a b : ℕ) → b ≤ a → ltb a b ≡ false
not_ltb a b h = ground arith

module _ {io : IoCtx} (st : IsStore io) where
  open st use {content, written, read_lem, write_lem}

  pub read_obj_there :
      (k : Bytes) (len offset : ℕ) (s : io.State) {bs : Bytes}
      → content s k ≡ some bs
      → read_obj io k len offset s ≡ (ok (take len (drop offset bs)), s)
  unfolding read_obj
  read_obj_there k len offset s e = rw (read_lem s k len offset, read_obj) (rw (e, read_obj))

  pub read_obj_missing :
      (k : Bytes) (len offset : ℕ) (s : io.State)
      → content s k ≡ none
      → read_obj io k len offset s ≡ (err (no_such_object []), s)
  unfolding read_obj
  read_obj_missing k len offset s e = rw (read_lem s k len offset, read_obj) (rw (e, read_obj))

  pub write_obj_lem :
      (k value : Bytes) (offset : ℕ) (s : io.State)
      → write_obj io k value offset s ≡ (ok (length value), written s k value offset)
  unfolding write_obj
  write_obj_lem k value offset s = rw (write_lem s k value offset, write_obj)

module _ {io : IoCtx} (st : IsStore io) (category : Category) (key : Bytes) where
  open st use {content, written}

  pub read_loop_end :
      (fuel cursor stop : ℕ) (out : Bytes) (s : io.State)
      → stop ≤ cursor
      → read_loop io (suc fuel) category key cursor stop out s ≡ (ok out, s)
  unfolding read_loop
  read_loop_end fuel cursor stop out s h = rw (not_ltb cursor stop h, read_loop)

  pub read_loop_step :
      (fuel cursor stop : ℕ) (out : Bytes) (s : io.State) {bs : Bytes}
      → cursor < stop
      → content s (obj_key category key (cursor / obj_size)) ≡ some bs
      → read_loop io (suc fuel) category key cursor stop out s
        ≡ read_loop io fuel category key
            (next_bound cursor)
            stop
            (out ++ take (sub_len cursor stop) (drop (cursor % obj_size) bs))
            s
  unfolding read_loop
  read_loop_step fuel cursor stop out s h e = rw (
    lt→ltb cursor stop h,
    read_loop,
    read_obj_there st _ (sub_len cursor stop) (cursor % obj_size) s e,
  )

  pub read_loop_gap :
      (fuel cursor stop : ℕ) (out : Bytes) (s : io.State)
      → cursor < stop
      → content s (obj_key category key (cursor / obj_size)) ≡ none
      → read_loop io (suc fuel) category key cursor stop out s ≡ (err (no_such_object out), s)
  unfolding read_loop
  read_loop_gap fuel cursor stop out s h e = rw (
    lt→ltb cursor stop h,
    read_loop,
    read_obj_missing st _ (sub_len cursor stop) (cursor % obj_size) s e,
  )

  pub write_loop_end :
      (fuel cursor stop sum : ℕ) (value : Bytes) (s : io.State)
      → stop ≤ cursor
      → write_loop io (suc fuel) category key value cursor stop sum s ≡ (ok sum, s)
  unfolding write_loop
  write_loop_end fuel cursor stop sum value s h = rw (not_ltb cursor stop h, write_loop)

  pub write_loop_step :
      (fuel cursor stop sum : ℕ) (value : Bytes) (s : io.State)
      → cursor < stop
      → write_loop io (suc fuel) category key value cursor stop sum s
        ≡ write_loop io fuel category key
            (drop (length (take (sub_len cursor stop) value)) value)
            (next_bound cursor)
            stop
            (sum + length (take (sub_len cursor stop) value))
            (written s
              (obj_key category key (cursor / obj_size))
              (take (sub_len cursor stop) value)
              (cursor % obj_size))
  unfolding write_loop
  write_loop_step fuel cursor stop sum value s h =
      rw (lt→ltb cursor stop h, write_loop, write_obj_lem st)
