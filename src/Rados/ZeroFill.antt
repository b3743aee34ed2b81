-- ===== src/Rados/ZeroFill.antt =====
-- The loop of zerofill() of lib/rados_io/rados_io.cpp against that of write().
use nmfs.Prelude.{
  ℕ, zero, suc, ◌+◌, ◌-◌, ◌/◌, ◌%◌, ◌<◌, Bytes, ◌≡◌, refl, sym, ap, ◌∙◌, true, take, drop,
  replicate, arith, ltb, min, Bool-cases, inl, inr, ltb→lt, length-take, length-replicate,
  take-replicate, drop-replicate,
}
use nmfs.Exec.{Result, ok, err}
use nmfs.Rados.Store.{IoCtx, IsStore, obj_size}
use nmfs.Rados.Key.{Category, obj_key}
use nmfs.Rados.Steps.{write_obj_lem}
use nmfs.Rados.WriteLoop.{write_round}
use nmfs.Rados.{write_loop, zerofill_loop, sub_len, next_bound}

-- The result of a call whose number is not looked at.
abbrev pub zeros : ℕ → Bytes
zeros n = replicate n 0

abbrev pub forget : {S : Type 0} → Result ℕ × S → Result (Unit {0}) × S
forget (ok n, s) = (ok tt, s)
forget (err e, s) = (err e, s)

zeros_taken :
    (cursor stop : ℕ)
    → take (sub_len cursor stop) (zeros (stop - cursor)) ≡ zeros (sub_len cursor stop)
zeros_taken cursor stop =
    take-replicate (sub_len cursor stop) (stop - cursor) 0
    ∙ ap zeros
        (let e : min (sub_len cursor stop) (stop - cursor) ≡ sub_len cursor stop = omega arith in e)

zeros_left :
    (cursor stop : ℕ)
    → cursor < stop
    → drop (sub_len cursor stop) (zeros (stop - cursor)) ≡ zeros (stop - next_bound cursor)
zeros_left cursor stop h =
    drop-replicate (sub_len cursor stop) (stop - cursor) 0
    ∙ ap zeros
        (let e : stop - cursor - sub_len cursor stop ≡ stop - next_bound cursor = omega arith in e)

module _ {io : IoCtx} (st : IsStore io) (category : Category) (key : Bytes) where
  open st use {content, written, stat_lem}

  zerofill_loop_step :
      (fuel cursor stop : ℕ) (s : io.State)
      → cursor < stop
      → zerofill_loop io (suc fuel) category key cursor stop s
        ≡ zerofill_loop io fuel category key (next_bound cursor) stop (
            written s
              (obj_key category key (cursor / obj_size))
              (zeros (sub_len cursor stop))
              (cursor % obj_size))
  unfolding zerofill_loop
  zerofill_loop_step fuel cursor stop s h =
      let e : ltb cursor stop ≡ true = ground arith in rw (e, zerofill_loop, write_obj_lem st)

  zeros_written : io.State → ℕ → ℕ → io.State
  zeros_written s cursor stop =
      written s (obj_key category key (cursor / obj_size)) (zeros (sub_len cursor stop))
        (cursor % obj_size)

  zeros_round :
      (fuel cursor stop sum : ℕ) (s : io.State)
      → cursor < stop
      → write_loop io (suc fuel) category key (zeros (stop - cursor)) cursor stop sum s
        ≡ write_loop io fuel category key
            (drop (sub_len cursor stop) (zeros (stop - cursor)))
            (next_bound cursor)
            stop
            (sum + sub_len cursor stop)
            (zeros_written s cursor stop)
  unfolding zeros_written
  zeros_round fuel cursor stop sum s h =
      write_round st category key fuel cursor stop sum (zeros (stop - cursor)) s h (
        omega (
          arith,
          length-take (sub_len cursor stop) (zeros (stop - cursor)),
          length-replicate {A = ℕ} (stop - cursor) 0,
        ))
      ∙ ap
          (λ bs.
            write_loop io fuel category key (drop (sub_len cursor stop) (zeros (stop - cursor)))
              (next_bound cursor) stop (sum + sub_len cursor stop)
              (written s (obj_key category key (cursor / obj_size)) bs (cursor % obj_size)))
          (zeros_taken cursor stop)

  -- zerofill() writes a row of zeros.
  pub zerofill_loop_lem :
      (fuel cursor stop sum : ℕ) (s : io.State)
      → zerofill_loop io fuel category key cursor stop s
        ≡ forget (write_loop io fuel category key (zeros (stop - cursor)) cursor stop sum s)
  unfolding zerofill_loop write_loop zeros_written
  zerofill_loop_lem zero cursor stop sum s = refl
  zerofill_loop_lem (suc fuel) cursor stop sum s = elim (Bool-cases (ltb cursor stop)) [
    | inr over ↦ rw (over, zerofill_loop, write_loop)
    | inl more ↦
        zerofill_loop_step fuel cursor stop s (ltb→lt _ _ more)
        ∙ (zerofill_loop_lem fuel (next_bound cursor) stop (sum + sub_len cursor stop) _
            ∙ ap forget (
                ap
                  (λ bs.
                    write_loop io fuel category key bs (next_bound cursor) stop
                      (sum + sub_len cursor stop) (zeros_written s cursor stop))
                  (sym (zeros_left cursor stop (ltb→lt _ _ more)))
                ∙ sym (zeros_round fuel cursor stop sum s (ltb→lt _ _ more))))
  ]
