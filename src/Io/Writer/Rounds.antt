-- ===== src/Io/Writer/Rounds.antt =====
-- The loop of `BufWriter::flush_buf` of src/io/buffer.rs: how many rounds it takes.
use native.Mathlib.Nat.{mul-le-mul_right}
use vmap_rs.Prelude.{
  ℕ, ◌-◌, length-drop, zero, suc, ◌+◌, ◌*◌, ◌<◌, ◌≤◌, ◌≡◌, refl, ap, ◌∙◌, inl, inr, List, length,
  some, Bool-cases, arith,
}
use vmap_rs.Std.{ok, err, is_interrupted, IoResult, Outcome, returned, unwound, Write}
use vmap_rs.Io.Traits.{is_empty}
use vmap_rs.Io.Ring.{ring_read, consume}
use vmap_rs.Io.Ring.Inv.{IsValid}
use vmap_rs.Io.Ring.Contents.{contents, contents-consume, as_read_slice_all}
use vmap_rs.Io.Writer.Flush.{AfterRound, round_keeps}
use vmap_rs.Io.Writer.{
  BufWriter, Round, break, unwind, again, match_written, written, round, flush_buf,
}
use vmap_rs.Io.Writer.Laws.{Accepts, Patient}

-- A round that goes on has consumed bytes, or used up some of the writer's patience.
module _ {W : Type 0} ⦃write_w : Write W⦄ {accepted : W → List ℕ} {patience : W → ℕ} {limit : ℕ}
    (laws : Accepts write_w accepted) (patient : Patient write_w patience limit) where
  -- Rounds that are enough for what is held and the patience that is left.
  abbrev pub rounds : BufWriter W → ℕ
  rounds w = length (contents w.buf) * suc limit + patience w.inner

  abbrev Falls : BufWriter W → Round W → Type 0
  Falls w (again w') = rounds w' < rounds w
  Falls w _ = Unit

  written-Falls :
      (w : BufWriter W) (out : Outcome (IoResult ℕ)) (inner : W)
      → IsValid w.buf
      → write_w.write w.inner (contents w.buf) ≡ (out, inner)
      → Falls w (written w (out, inner))
  unfolding written match_written
  written-Falls w (returned (ok zero)) inner v e = tt
  written-Falls w (returned (ok (suc n))) inner v e =
      let c = length (contents w.buf) in
      let c' = length (contents (consume w.buf (suc n))) in
      let took = (laws.on_ok w.inner (contents w.buf) (suc n) inner e).0 in
      let left : c' ≡ c - suc n =
        ap length (contents-consume (suc n) v) ∙ length-drop (suc n) (contents w.buf) in
      let fewer : suc c' * suc limit ≤ c * suc limit =
        mul-le-mul_right {m = suc c'} {n = c} (suc limit) (omega arith) in
      omega (arith, patient.within inner, fewer)
  written-Falls w (returned (err x)) inner v e = elim (Bool-cases (is_interrupted x.kind)) [
    | inl i ↦ rw i (omega (arith, patient.waits w.inner (contents w.buf) x inner e i))
    | inr i ↦ rw i tt
  ]
  written-Falls w unwound inner v e = tt

  round-Falls : (w : BufWriter W) → IsValid w.buf → Falls w (round w)
  unfolding round
  round-Falls w v = elim (Bool-cases (is_empty w.buf)) [
    | inl e ↦ rw e tt
    | inr e ↦
        rw (e, as_read_slice_all v)
          (written-Falls w (write_w.write w.inner (contents w.buf)).0
            (write_w.write w.inner (contents w.buf)).1 v refl)
  ]

  run_ends :
      (fuel : ℕ) (w : BufWriter W) (x : Round W)
      → AfterRound accepted w x
      → Falls w x
      → rounds w < suc fuel
      → ((w' : BufWriter W)
          → IsValid w'.buf
          → rounds w' < fuel
          → (p : Outcome (IoResult (Unit {0})) × BufWriter W) × (flush_buf fuel w' ≡ some p))
      → (p : Outcome (IoResult (Unit {0})) × BufWriter W) × ((elim x [
        | break r w' ↦ some (returned r, w')
        | unwind w' ↦ some (unwound, w')
        | again w' ↦ flush_buf fuel w'
      ])
          ≡ some p)
  run_ends fuel w (break r w') k f h rec = ((returned r, w'), refl)
  run_ends fuel w (unwind w') k f h rec = ((unwound, w'), refl)
  run_ends fuel w (again w') k f h rec = rec w' k.valid (omega arith)

  -- The loop ends: with a writer that is interrupted at most `limit` times in a row, `rounds w`
  -- rounds and one more are enough. The ring is valid, and the inner writer keeps to `Accepts` and
  -- `Patient`.
  pub flush_buf_total :
      (fuel : ℕ) (w : BufWriter W)
      → IsValid w.buf
      → rounds w < fuel
      → (p : Outcome (IoResult (Unit {0})) × BufWriter W) × (flush_buf fuel w ≡ some p)
  unfolding flush_buf
  flush_buf_total zero w v h = absurd (omega arith)
  flush_buf_total (suc fuel) w v h =
      run_ends fuel w (round w) (round_keeps accepted laws w v) (round-Falls w v) h
        (flush_buf_total fuel)
