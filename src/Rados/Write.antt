-- ===== src/Rados/Write.antt =====
-- What write() of lib/rados_io/rados_io.cpp leaves of a file.
use nmfs.Prelude.{
  ℕ, ◌+◌, ◌-◌, ◌/◌, Bytes, ◌≡◌, ap, ◌∙◌, some, length, get_elem?, arith, if◌then◌else◌,
}
use nmfs.Exec.{ok}
use nmfs.Rados.Store.{IoCtx, IsStore, obj_size}
use nmfs.Rados.Key.{Category}
use nmfs.Rados.Overwrite.{between}
use nmfs.Rados.WriteLoop.{byte_at, SameOthers, write_loop_bytes}
use nmfs.Rados.{write, rounds}
use nmfs.Rados.Hole.{IsCapped, IsEnd, fill_hole_bytes}

module _ {io : IoCtx} (st : IsStore io) (category : Category) (key : Bytes) where
  open st use {content, written, stat_lem}

  -- What write() leaves: the new bytes in their range, zeros where it starts behind the end of the
  -- file, and all other bytes of the cluster as they were. Only the objects up to that of the offset
  -- are looked at for the end.
  pub record IsWritten (s s' : io.State) (value : Bytes) (offset : ℕ) : Type 0 where
    pub stop : ℕ
    pub is_end : IsEnd st category key (offset / obj_size) s stop
    pub bytes :
        (i : ℕ)
        → byte_at st category key s' i ≡ (
            if between offset (offset + length value) i
            then get_elem? value (i - offset)
            else if between stop offset i
            then some 0
            else byte_at st category key s i)
    pub others : SameOthers st category key s s'

  -- On a cluster where no call fails, and for a file none of whose objects is longer than 4 MiB,
  -- write() ends within its rounds, returns the number of bytes that it was given, and leaves the
  -- new bytes in their range, zeros between the end of the file and the range, and every other
  -- byte of this file and of all other objects as it was. The end is that of the last object there is
  -- up to the one of the offset, and 0 if there is none.
  pub write-IsWritten :
      (value : Bytes) (offset : ℕ) (s : io.State)
      → IsCapped st category key s
      → (s' : io.State) × (write io category key value offset s ≡ (ok (length value), s'))
        × IsWritten s s' value offset
  unfolding write
  write-IsWritten value offset s c =
      let (stop, s1, is_end, fill, filled) = fill_hole_bytes st category key s offset c in
      let (s', run, bytes, others) =
        write_loop_bytes st category key (rounds offset (offset + length value)) offset
          (offset + length value) 0 value s1
          (record { near = omega arith; rounds_left = omega arith }) (omega arith) filled.reaches in
      (
        s',
        rw fill (
            run
            ∙ ap (λ k. (ok k, s')) (let e : 0 + length value ≡ length value = omega arith in e)),
        record {
          stop = stop;
          is_end = is_end;
          bytes = λ i.
              bytes i
              ∙ ap
                  (λ b.
                    if between offset (offset + length value) i
                    then get_elem? value (i - offset)
                    else b)
                  (filled.bytes i);
          others = λ j d. others j d ∙ filled.others j d;
        },
      )
