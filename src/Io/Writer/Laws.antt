-- ===== src/Io/Writer/Laws.antt =====
-- What a writer that `BufWriter` of src/io/buffer.rs wraps promises, as the documentation of `std::io::Write` states it.
use vmap_rs.Prelude.{ℕ, ◌<◌, ◌≤◌, ◌≡◌, List, ◌++◌, length, take, true}
use vmap_rs.Std.{ok, err, IoError, IoResult, Outcome, is_interrupted, returned, Write}

-- `accepted` is all that the writer has taken so far, in order: a write that returns `Ok(n)` took
-- the first `n` bytes of its argument, and one that returns an error took none; a flush takes none.
pub record Accepts {W : Type 0} (write_w : Write W) (accepted : W → List ℕ) : Type 0 where
  pub on_ok :
      (w : W) (bs : List ℕ) (n : ℕ) (w' : W)
      → write_w.write w bs ≡ (returned (ok n), w')
      → (n ≤ length bs) × (accepted w' ≡ accepted w ++ take n bs)
  pub on_err :
      (w : W) (bs : List ℕ) (e : IoError) (w' : W)
      → write_w.write w bs ≡ (returned (err e), w')
      → accepted w' ≡ accepted w
  pub on_flush :
      (w : W) (out : Outcome (IoResult (Unit {0}))) (w' : W)
      → write_w.flush w ≡ (out, w')
      → accepted w' ≡ accepted w

-- The writer is interrupted at most `limit` times in a row.
pub record Patient {W : Type 0} (write_w : Write W) (patience : W → ℕ) (limit : ℕ) : Type 0 where
  pub within : (w : W) → patience w ≤ limit
  pub waits :
      (w : W) (bs : List ℕ) (e : IoError) (w' : W)
      → write_w.write w bs ≡ (returned (err e), w')
      → is_interrupted e.kind ≡ true
      → patience w' < patience w
