-- ===== src/Rados.antt =====
-- lib/rados_io/rados_io.hpp and rados_io.cpp: files of bytes over RADOS objects of 4 MiB. Offsets
-- and lengths are not negative, and do not reach 2^63. The log lines are left out.
pub mod Store
pub mod Key
pub mod Overwrite
pub mod WriteLoop
pub mod ZeroFill
pub mod Hole
pub mod Write
pub mod Read
pub mod Remove
pub mod Steps
pub mod Memory
mod Examples
use nmfs.Prelude.{
  ℕ, zero, suc, ◌+◌, ◌-◌, ◌*◌, ◌/◌, ◌%◌, Bytes, Bool, true, false, List, [], ◌++◌, length, take,
  drop, replicate, min, ltb, if◌then◌else◌, Option, none, some,
}
use nmfs.Exec.{
  Result, ok, err, Error, runtime_error, fuel_exhausted, no_such_object, Exec, pure, raise, ◌>>=◌,
  ◌>>◌,
}
use Store.{IoCtx, Reply, obj_size}
use Key.{Category, obj_key}

-- sub_len, the part of the range that lies in the object of the cursor
abbrev pub sub_len : ℕ → ℕ → ℕ
sub_len cursor stop = min ((cursor / obj_size) * obj_size + obj_size - cursor) (stop - cursor)

abbrev pub next_bound : ℕ → ℕ
next_bound cursor = (cursor / obj_size) * obj_size + obj_size

-- One round for each object that the range touches, and one to see that it is at its end.
abbrev pub rounds : ℕ → ℕ → ℕ
rounds cursor stop = stop / obj_size + 2 - cursor / obj_size

module _ (io : IoCtx) where
  open io use {State, io_read, io_write, io_stat, io_remove, io_trunc}

  -- read_obj(): the bytes that are copied into the buffer
  pub read_obj : Bytes → ℕ → ℕ → Exec State Bytes
  read_obj key len offset s = elim (io_read s key len offset) [
    | Reply.done bs ↦ (ok bs, s)
    | Reply.enoent ↦ (err (no_such_object []), s)
    | Reply.failed ↦ (err runtime_error, s)
  ]

  -- write_obj(), which returns the length that it was given
  pub write_obj : Bytes → Bytes → ℕ → Exec State ℕ
  write_obj key value offset s = elim (io_write s key value offset) [
    | Reply.done s' ↦ (ok (length value), s')
    | Reply.enoent ↦ (err runtime_error, s)
    | Reply.failed ↦ (err runtime_error, s)
  ]

  -- truncate_obj()
  pub truncate_obj : Bytes → ℕ → Exec State Unit
  truncate_obj key cut_size s = elim (io_trunc s key cut_size) [
    | Reply.done s' ↦ (ok tt, s')
    | Reply.enoent ↦ (err runtime_error, s)
    | Reply.failed ↦ (err runtime_error, s)
  ]

  -- A no_such_object that leaves the loop of read() holds all that the loop has read.
  abbrev with_read : Bytes → Result Bytes × State → Result Bytes × State
  with_read out (ok bs, s) = (ok (out ++ bs), s)
  with_read out (err (no_such_object bs), s) = (err (no_such_object out), s)
  with_read out (err e, s) = (err e, s)

  -- The loop of read(). `out` is what the buffer holds, and its length is `sum`.
  pub read_loop : ℕ → Category → Bytes → ℕ → ℕ → Bytes → Exec State Bytes
  unfolding read_obj
  read_loop zero category key cursor stop out = raise fuel_exhausted
  read_loop (suc fuel) category key cursor stop out = elim (ltb cursor stop) [
    | false ↦ pure out
    | true ↦ do
      out ← λ s. with_read out (
          read_obj (obj_key category key (cursor / obj_size)) (sub_len cursor stop)
            (cursor % obj_size) s)
      read_loop fuel category key (next_bound cursor) stop out
  ]

  pub read : Category → Bytes → ℕ → ℕ → Exec State Bytes
  unfolding read_loop
  read category key len offset =
      read_loop (rounds offset (offset + len)) category key offset (offset + len) []

  -- The loop of write(): `value` is what is left to write, and `sum` what has been written.
  pub write_loop : ℕ → Category → Bytes → Bytes → ℕ → ℕ → ℕ → Exec State ℕ
  unfolding write_obj
  write_loop zero category key value cursor stop sum = raise fuel_exhausted
  write_loop (suc fuel) category key value cursor stop sum = elim (ltb cursor stop) [
    | false ↦ pure sum
    | true ↦ do
      n ←
          write_obj (obj_key category key (cursor / obj_size)) (take (sub_len cursor stop) value)
            (cursor % obj_size)
      write_loop fuel category key (drop n value) (next_bound cursor) stop (sum + n)
  ]

  -- zerofill(): the loop of write() over a buffer of zeros that is read from its start each time
  pub zerofill_loop : ℕ → Category → Bytes → ℕ → ℕ → Exec State Unit
  unfolding write_obj
  zerofill_loop zero category key cursor stop = raise fuel_exhausted
  zerofill_loop (suc fuel) category key cursor stop = elim (ltb cursor stop) [
    | false ↦ pure tt
    | true ↦ do
      write_obj (obj_key category key (cursor / obj_size)) (replicate (sub_len cursor stop) 0)
          (cursor % obj_size)
      zerofill_loop fuel category key (next_bound cursor) stop
  ]

  pub zerofill : Category → Bytes → ℕ → ℕ → Exec State Unit
  unfolding zerofill_loop
  zerofill category key len offset =
      zerofill_loop (rounds offset (offset + len)) category key offset (offset + len)

  -- The loop over prev_obj_num in write() and truncate(): the end of the last object at or below
  -- object `n`, or `enoent` if there is none.
  pub lb_file_size : Category → Bytes → ℕ → State → Reply ℕ
  lb_file_size category key zero s = elim (io_stat s (obj_key category key 0)) [
    | Reply.done size ↦ Reply.done size
    | Reply.enoent ↦ Reply.enoent
    | Reply.failed ↦ Reply.failed
  ]
  lb_file_size category key (suc n) s = elim (io_stat s (obj_key category key (suc n))) [
    | Reply.done size ↦ Reply.done (suc n * obj_size + size)
    | Reply.enoent ↦ lb_file_size category key n s
    | Reply.failed ↦ Reply.failed
  ]

  -- if (lb_file_size < offset) zerofill(...)
  pub fill_hole : Category → Bytes → ℕ → Reply ℕ → Exec State Unit
  unfolding zerofill
  fill_hole category key offset Reply.failed = raise runtime_error
  fill_hole category key offset Reply.enoent =
      if ltb 0 offset then zerofill category key offset 0 else pure tt
  fill_hole category key offset (Reply.done size) =
      if ltb size offset then zerofill category key (offset - size) size else pure tt

  pub write : Category → Bytes → Bytes → ℕ → Exec State ℕ
  unfolding lb_file_size fill_hole write_loop
  write category key value offset = do
    (λ s. fill_hole category key offset (lb_file_size category key (offset / obj_size) s) s)
    write_loop (rounds offset (offset + length value)) category key value offset
        (offset + length value) 0

  pub exist : Category → Bytes → Exec State Bool
  exist category key s = elim (io_stat s (obj_key category key 0)) [
    | Reply.done _ ↦ (ok true, s)
    | Reply.enoent ↦ (ok false, s)
    | Reply.failed ↦ (err runtime_error, s)
  ]

  -- The loop of stat() from object `n` on, with the size so far.
  pub stat_loop : ℕ → Category → Bytes → ℕ → ℕ → Exec State ℕ
  stat_loop zero category key n size s = (err fuel_exhausted, s)
  stat_loop (suc fuel) category key n size s = elim (io_stat s (obj_key category key n)) [
    | Reply.done obj ↦ stat_loop fuel category key (n + 1) (size + obj) s
    | Reply.enoent ↦ (ok size, s)
    | Reply.failed ↦ (err runtime_error, s)
  ]

  -- stat(): the size, or `none` where it returns false
  pub stat : ℕ → Category → Bytes → Exec State (Option ℕ)
  unfolding stat_loop
  stat fuel category key s = elim (io_stat s (obj_key category key 0)) [
    | Reply.done obj ↦ (do size ← stat_loop fuel category key 1 obj; pure (some size)) s
    | Reply.enoent ↦ (ok none, s)
    | Reply.failed ↦ (err runtime_error, s)
  ]

  -- The loop of remove() from object `n` on.
  pub remove_loop : ℕ → Category → Bytes → ℕ → Exec State Unit
  remove_loop zero category key n s = (err fuel_exhausted, s)
  remove_loop (suc fuel) category key n s = elim (io_remove s (obj_key category key n)) [
    | Reply.done s' ↦ remove_loop fuel category key (n + 1) s'
    | Reply.enoent ↦ (ok tt, s)
    | Reply.failed ↦ (err runtime_error, s)
  ]

  pub remove : ℕ → Category → Bytes → Exec State Unit
  unfolding remove_loop
  remove fuel category key = remove_loop fuel category key 0

  -- ioctx.remove(key) where its result is not looked at
  remove_any : Bytes → State → State
  remove_any key s = elim (io_remove s key) [
    | Reply.done s' ↦ s'
    | Reply.enoent ↦ s
    | Reply.failed ↦ s
  ]

  -- The last loop of truncate(): the objects behind `n`. A stat() that fails is passed over.
  pub cut_loop : ℕ → Category → Bytes → ℕ → Exec State Unit
  unfolding remove_any
  cut_loop zero category key n s = (err fuel_exhausted, s)
  cut_loop (suc fuel) category key n s = elim (io_stat s (obj_key category key (n + 1))) [
    | Reply.done _ ↦
        cut_loop fuel category key (n + 1) (remove_any (obj_key category key (n + 1)) s)
    | Reply.enoent ↦ (ok tt, s)
    | Reply.failed ↦ cut_loop fuel category key (n + 1) s
  ]

  cut : ℕ → Category → Bytes → ℕ → Exec State Unit
  unfolding truncate_obj cut_loop
  cut fuel category key offset = do
    truncate_obj (obj_key category key (offset / obj_size)) (offset - offset / obj_size * obj_size)
    cut_loop fuel category key (offset / obj_size)

  truncate_from : ℕ → Category → Bytes → ℕ → Reply ℕ → Exec State Unit
  unfolding cut zerofill
  truncate_from fuel category key offset Reply.failed = raise runtime_error
  truncate_from fuel category key offset Reply.enoent = zerofill category key offset 0
  truncate_from fuel category key offset (Reply.done size) =
      if ltb size offset
      then zerofill category key (offset - size) size
      else cut fuel category key offset

  -- truncate(), whose result is always 0
  pub truncate : ℕ → Category → Bytes → ℕ → Exec State Unit
  unfolding truncate_from lb_file_size
  truncate fuel category key offset s =
      truncate_from fuel category key offset (lb_file_size category key (offset / obj_size) s) s
