-- ===== src/Rados/Memory.antt =====
-- A cluster in memory, an instance of the interface in Rados/Store.
use nmfs.Prelude.{ℕ, ◌-◌, Bytes, none, some, ◌++◌, ◌≡◌, refl, length, take, drop, replicate, arith}
use nmfs.Map.{Map, find, put, erase, find-put, find-erase}
use nmfs.Rados.Store.{IoCtx, IsStore, Reply, bytes_of, overwrite}

abbrev resized : ℕ → Bytes → Bytes
resized size bs = take size (bs ++ replicate (size - length bs) 0)

abbrev pub memory : IoCtx
memory = record {
  State = Map Bytes;
  io_read = λ s k len offset. elim (find k s) [
    | none ↦ Reply.enoent
    | some bs ↦ Reply.done (take len (drop offset bs))
  ];
  io_write =
      λ s k value offset. Reply.done (put k (overwrite (bytes_of (find k s)) value offset) s);
  io_stat = λ s k. elim (find k s) [ none ↦ Reply.enoent | some bs ↦ Reply.done (length bs) ];
  io_remove = λ s k. elim (find k s) [ none ↦ Reply.enoent | some bs ↦ Reply.done (erase k s) ];
  io_trunc = λ s k size. elim (find k s) [
    | none ↦ Reply.enoent
    | some bs ↦ Reply.done (put k (resized size (bytes_of (find k s))) s)
  ];
}

pub trunc_there :
    (s : Map Bytes) (k : Bytes) (size : ℕ) {bs : Bytes}
    → find k s ≡ some bs
    → memory.io_trunc s k size ≡ Reply.done (put k (resized size (bytes_of (find k s))) s)
trunc_there s k size e = ground arith

abbrev pub memory_store : IsStore memory
memory_store = record {
  content = λ s k. find k s;
  written = λ s k value offset. put k (overwrite (bytes_of (find k s)) value offset) s;
  removed = λ s k. erase k s;
  truncated = λ s k size. put k (resized size (bytes_of (find k s))) s;
  stat_lem = λ s k. refl;
  read_lem = λ s k len offset. refl;
  write_lem = λ s k value offset. refl;
  content-written = λ s k value offset j. find-put k j _ s;
  remove_lem = λ s k. refl;
  content-removed = λ s k j. find-erase k j s;
  trunc_lem = λ s k size e. trunc_there s k size e;
  content-truncated = λ s k size j. find-put k j _ s;
}
