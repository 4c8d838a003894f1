-- ===== src/Io/Reader.antt =====
-- `BufReader` of src/io/buffer.rs, over any reader.
pub mod Stream
pub mod Forward
use vmap_rs.Prelude.{ℕ, List, Bool, ◌&&◌, leb, ◌==◌, if◌then◌else◌, length}
use vmap_rs.Word.{max_word}
use vmap_rs.Size.{Size}
use vmap_rs.Os.{Call, ◌>>=◌, pure, RingPlatform}
use vmap_rs.Std.{ok, err, IoResult, Read, read_slice}
use vmap_rs.Io.Mirror.{view}
use vmap_rs.Io.Traits.{as_read_slice, as_write_slice, fill_slice}
use vmap_rs.Io.Ring
use vmap_rs.Io.Ring.{Ring, ring_read, ring_write}

pub record BufReader (R : Type 0) : Type 0 where
  pub buf : Ring
  pub inner : R
  pub lowat : ℕ

-- The slice that the inner reader is given: the whole writable region.
pub write_region : Ring → List ℕ
write_region r = let slice = as_write_slice r max_word in view r.mem slice.0 slice.1

module _ {R : Type 0} where
  pub new : {St S : Type 0} → Size → RingPlatform St S → R → ℕ → Call St S (BufReader R)
  new alloc os inner capacity = do
    buf ← Ring.new alloc os capacity
    pure (record { buf = buf; inner = inner; lowat = 0 })

  pub lowat : BufReader R → ℕ
  lowat b = b.lowat

  pub set_lowat : BufReader R → ℕ → BufReader R
  set_lowat b val = record b { lowat = val }

  -- `get_ref`, `get_mut`, `deref`, `deref_mut`, `as_ref` and `as_mut`; also `into_inner`, which
  -- drops what is buffered
  pub get_ref : BufReader R → R
  get_ref b = b.inner

  pub buffer : BufReader R → List ℕ
  buffer b = as_read_slice b.buf max_word

  pub consume : BufReader R → ℕ → BufReader R
  consume b amt = record b { buf = Ring.consume b.buf amt }

  -- The inner reader's answer, with the region as it left it.
  pub filled : BufReader R → IoResult ℕ × List ℕ × R → IoResult (List ℕ) × BufReader R
  filled b (ok n, region, inner) =
      let buf = Ring.feed (fill_slice b.buf (as_write_slice b.buf max_word) region) n in
      let b' = record b { buf = buf; inner = inner } in (ok (buffer b'), b')
  filled b (err e, region, inner) =
      let buf = fill_slice b.buf (as_write_slice b.buf max_word) region in
      (err e, record b { buf = buf; inner = inner })

  -- The rest of `read`, from what `fill_buf` gave.
  pub read_filled : List ℕ → IoResult (List ℕ) × BufReader R → IoResult ℕ × List ℕ × BufReader R
  read_filled into (ok rem, b) =
      let (nread, into') = read_slice rem into in (ok nread, into', consume b nread)
  read_filled into (err e, b) = (err e, into, b)

  -- Straight from the inner reader.
  pub read_direct : BufReader R → IoResult ℕ × List ℕ × R → IoResult ℕ × List ℕ × BufReader R
  read_direct b (r, into, inner) = (r, into, record b { inner = inner })

module _ {R : Type 0} ⦃read_r : Read R⦄ where
  pub fill_buf : BufReader R → IoResult (List ℕ) × BufReader R
  fill_buf b =
      if leb (Ring.read_len b.buf) b.lowat
      then filled b (read_r.read b.inner (write_region b.buf))
      else (ok (buffer b), b)

  pub read : BufReader R → List ℕ → IoResult ℕ × List ℕ × BufReader R
  read b into =
      if (Ring.read_len b.buf == 0) && leb (Ring.write_capacity b.buf) (length into)
      then read_direct b (read_r.read b.inner into)
      else read_filled into (fill_buf b)
