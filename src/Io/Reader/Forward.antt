-- ===== src/Io/Reader/Forward.antt =====
-- `Write for BufReader` in src/io/buffer.rs: the calls go to the inner reader.
use Prim.Native.String.{String}
use vmap_rs.Prelude.{ℕ, List}
use vmap_rs.Std.{IoResult, Outcome, Write, WriteMore}
use vmap_rs.Io.Reader.{BufReader}

module _ {R : Type 0} ⦃write_r : Write R⦄ ⦃more_r : WriteMore R⦄ where
  pub write : BufReader R → List ℕ → Outcome (IoResult ℕ) × BufReader R
  write b buf = let (r, inner) = write_r.write b.inner buf in (r, record b { inner = inner })

  pub write_vectored : BufReader R → List (List ℕ) → Outcome (IoResult ℕ) × BufReader R
  write_vectored b bufs =
      let (r, inner) = more_r.write_vectored b.inner bufs in (r, record b { inner = inner })

  pub write_all : BufReader R → List ℕ → Outcome (IoResult (Unit {0})) × BufReader R
  write_all b buf = let (r, inner) = more_r.write_all b.inner buf in (r, record b { inner = inner })

  pub write_fmt : BufReader R → String → Outcome (IoResult (Unit {0})) × BufReader R
  write_fmt b args =
      let (r, inner) = more_r.write_fmt b.inner args in (r, record b { inner = inner })

  pub flush : BufReader R → Outcome (IoResult (Unit {0})) × BufReader R
  flush b = let (r, inner) = write_r.flush b.inner in (r, record b { inner = inner })
