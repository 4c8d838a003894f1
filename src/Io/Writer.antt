-- ===== src/Io/Writer.antt =====
-- `BufWriter` of src/io/buffer.rs, over any writer. A method returns how it ends and the buffered
-- writer as it is left; the loop of `flush_buf` takes fuel, and `none` means that it ran out.
pub mod Forward
pub mod Laws
pub mod Flush
pub mod Rounds
pub mod Total
pub mod Order
pub mod Parts
use vmap_rs.Prelude.{
  ℕ, zero, suc, List, Bool, true, false, not, Option, none, some, ltb, leb, ◌==◌, if◌then◌else◌,
  length,
}
use vmap_rs.Word.{max_word}
use vmap_rs.Size.{Size}
use vmap_rs.Os.{Call, ◌>>=◌, pure, RingPlatform}
use vmap_rs.Std.{
  Result, ok, err, ErrorKind, IoError, io_error, is_interrupted, IoResult, Outcome, returned,
  unwound, Write, Read,
}
use vmap_rs.Io.Traits.{is_empty, as_read_slice}
use vmap_rs.Io.Ring
use vmap_rs.Io.Ring.{Ring, ring_read}

pub record BufWriter (W : Type 0) : Type 0 where
  pub buf : Ring
  pub inner : W
  pub panicked : Bool

-- `WriterPanicked(Ring)`
pub data WriterPanicked : Type 0 where
  writer_panicked : Ring → WriterPanicked

pub data IntoInnerError (W : Type 0) : Type 0 where
  into_inner_error : BufWriter W → IoError → IntoInnerError W

module _ {W : Type 0} where
  pub from_parts : W → Ring → BufWriter W
  from_parts inner buf = record { buf = buf; inner = inner; panicked = false }

  pub new : {St S : Type 0} → Size → RingPlatform St S → W → ℕ → Call St S (BufWriter W)
  new alloc os inner capacity = do buf ← Ring.new alloc os capacity; pure (from_parts inner buf)

  -- `get_ref` and `get_mut`
  pub get_ref : BufWriter W → W
  get_ref w = w.inner

  pub into_parts : BufWriter W → W × Result Ring WriterPanicked
  into_parts w = (w.inner, if w.panicked then err (writer_panicked w.buf) else ok w.buf)

-- One round of the loop: it breaks with a result, the writer unwinds, or the loop goes on.
pub data Round (W : Type 0) : Type 0 where
  break : IoResult (Unit {0}) → BufWriter W → Round W
  unwind : BufWriter W → Round W
  again : BufWriter W → Round W

module _ {W : Type 0} ⦃write_w : Write W⦄ where
  -- The `match r`; `w` has the ring as it was and `panicked` reset.
  pub match_written : BufWriter W → IoResult ℕ → Round W
  match_written w (ok zero) = break (err (io_error ErrorKind.write_zero)) w
  match_written w (ok (suc n)) = again (record w { buf = Ring.consume w.buf (suc n) })
  match_written w (err e) = if is_interrupted e.kind then again w else break (err e) w

  pub written : BufWriter W → Outcome (IoResult ℕ) × W → Round W
  written w (returned r, inner) = match_written (record w { inner = inner; panicked = false }) r
  written w (unwound, inner) = unwind (record w { inner = inner; panicked = true })

  pub round : BufWriter W → Round W
  round w =
      if is_empty w.buf
      then break (ok tt) w
      else written w (write_w.write w.inner (as_read_slice w.buf max_word))

  pub flush_buf : ℕ → BufWriter W → Option (Outcome (IoResult (Unit {0})) × BufWriter W)
  flush_buf zero w = none
  flush_buf (suc fuel) w = elim (round w) [
    | break r w' ↦ some (returned r, w')
    | unwind w' ↦ some (unwound, w')
    | again w' ↦ flush_buf fuel w'
  ]

  -- Past the first `if` of `write`.
  pub write_direct : BufWriter W → Outcome (IoResult ℕ) × W → Outcome (IoResult ℕ) × BufWriter W
  write_direct w (returned r, inner) = (returned r, record w { inner = inner; panicked = false })
  write_direct w (unwound, inner) = (unwound, record w { inner = inner; panicked = true })

  pub write_rest : BufWriter W → List ℕ → Outcome (IoResult ℕ) × BufWriter W
  write_rest w bs =
      let (r, buf) = Ring.write w.buf bs in
      if leb (Ring.write_len w.buf) (length bs)
      then write_direct w (write_w.write w.inner bs)
      else (returned r, record w { buf = buf })

  pub after_flush :
      List ℕ → Outcome (IoResult (Unit {0})) × BufWriter W → Outcome (IoResult ℕ) × BufWriter W
  after_flush bs (returned (ok _), w) = write_rest w bs
  after_flush bs (returned (err e), w) = (returned (err e), w)
  after_flush bs (unwound, w) = (unwound, w)

  pub write : ℕ → BufWriter W → List ℕ → Option (Outcome (IoResult ℕ) × BufWriter W)
  write fuel w bs =
      if ltb (Ring.write_len w.buf) (length bs)
      then elim (flush_buf fuel w) [ none ↦ none | some p ↦ some (after_flush bs p) ]
      else some (write_rest w bs)

  pub flush_inner :
      Outcome (IoResult (Unit {0})) × BufWriter W → Outcome (IoResult (Unit {0})) × BufWriter W
  flush_inner (returned (ok _), w) =
      let (r, inner) = write_w.flush w.inner in (r, record w { inner = inner })
  flush_inner (returned (err e), w) = (returned (err e), w)
  flush_inner (unwound, w) = (unwound, w)

  pub flush : ℕ → BufWriter W → Option (Outcome (IoResult (Unit {0})) × BufWriter W)
  flush fuel w = elim (flush_buf fuel w) [ none ↦ none | some p ↦ some (flush_inner p) ]

  -- The inner writer, or the error that the flush met; an unwinding flush unwinds.
  pub give_inner :
      Outcome (IoResult (Unit {0})) × BufWriter W → Outcome (Result W (IntoInnerError W))
  give_inner (returned (ok _), w) = returned (ok (into_parts w).0)
  give_inner (returned (err e), w) = returned (err (into_inner_error w e))
  give_inner (unwound, w) = unwound

  pub into_inner : ℕ → BufWriter W → Option (Outcome (Result W (IntoInnerError W)))
  into_inner fuel w = elim (flush_buf fuel w) [ none ↦ none | some p ↦ some (give_inner p) ]

  -- `drop`: what the flush returns is discarded.
  pub drop : ℕ → BufWriter W → Option (Outcome (IoResult (Unit {0})) × BufWriter W)
  drop fuel w = if not w.panicked then flush_buf fuel w else some (returned (ok tt), w)

-- `IntoInnerError` gives back what it was made of.
module _ {W : Type 0} where
  pub error : IntoInnerError W → IoError
  error (into_inner_error w e) = e

  pub into_error : IntoInnerError W → IoError
  into_error (into_inner_error w e) = e

  pub recovered : IntoInnerError W → BufWriter W
  recovered (into_inner_error w e) = w

  pub error_parts : IntoInnerError W → IoError × BufWriter W
  error_parts (into_inner_error w e) = (e, w)

pub ring_of : WriterPanicked → Ring
ring_of (writer_panicked r) = r
