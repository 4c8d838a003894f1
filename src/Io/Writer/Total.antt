-- ===== src/Io/Writer/Total.antt =====
-- The methods of `BufWriter` of src/io/buffer.rs that run the loop of `flush_buf`: rounds that are
-- enough for each.
use vmap_rs.Prelude.{ℕ, ◌<◌, ◌≡◌, inl, inr, List, length, not, some, ltb, Bool-cases}
use vmap_rs.Std.{ok, Result, IoResult, Outcome, returned, Write}
use vmap_rs.Io.Ring.{write_len}
use vmap_rs.Io.Ring.Inv.{IsValid}
use vmap_rs.Io.Writer.{
  BufWriter, after_flush, write_rest, write, flush_inner, flush, IntoInnerError, give_inner,
  into_inner, drop,
}
use vmap_rs.Io.Writer.Laws.{Accepts, Patient}
use vmap_rs.Io.Writer.Rounds.{rounds, flush_buf_total}

module _ {W : Type 0} ⦃write_w : Write W⦄ {accepted : W → List ℕ} {patience : W → ℕ} {limit : ℕ}
    (laws : Accepts write_w accepted) (patient : Patient write_w patience limit) where
  -- With a writer that is interrupted at most `limit` times in a row, `write`, `flush`,
  -- `into_inner` and `drop` end, in the rounds that are enough for `flush_buf`. The ring is valid,
  -- and the inner writer keeps to `Accepts` and `Patient`.
  pub calls_total :
      (fuel : ℕ) (w : BufWriter W) (bs : List ℕ)
      → IsValid w.buf
      → rounds laws patient w < fuel
      → ((p : Outcome (IoResult ℕ) × BufWriter W) × (write fuel w bs ≡ some p))
        × ((p : Outcome (IoResult (Unit {0})) × BufWriter W) × (flush fuel w ≡ some p))
        × ((p : Outcome (Result W (IntoInnerError W))) × (into_inner fuel w ≡ some p))
        × ((p : Outcome (IoResult (Unit {0})) × BufWriter W) × (drop fuel w ≡ some p))
  unfolding write flush into_inner drop
  calls_total fuel w bs v h =
      let (p, ends) = flush_buf_total laws patient fuel w v h in
      (
        elim (Bool-cases (ltb (write_len w.buf) (length bs))) [
          | inl e ↦ (after_flush bs p, rw (e, ends))
          | inr e ↦ (write_rest w bs, rw e)
        ],
        (flush_inner p, rw (ends, flush)),
        (give_inner p, rw (ends, into_inner)),
        elim (Bool-cases (not w.panicked)) [
          | inl e ↦ (p, rw (e, ends))
          | inr e ↦ ((returned (ok tt), w), rw e)
        ],
      )
