-- ===== src/Io/Writer/Forward.antt =====
-- `Read for BufWriter` in src/io/buffer.rs, whose calls go to the inner writer, and the messages of
-- `WriterPanicked`.
use Prim.Native.String.{String}
use vmap_rs.Prelude.{ℕ, List, [], ◌∷◌}
use vmap_rs.Std.{IoResult, Read, ReadMore, DebugStruct}
use vmap_rs.Io.Ring as Ring
use vmap_rs.Io.Writer.{BufWriter, WriterPanicked, writer_panicked, get_ref}

module _ {W : Type 0} where
  pub deref : BufWriter W → W
  deref w = get_ref w

  pub deref_mut : BufWriter W → W
  deref_mut w = get_ref w

  pub as_ref : BufWriter W → W
  unfolding deref
  as_ref w = deref w

  pub as_mut : BufWriter W → W
  unfolding deref_mut
  as_mut w = deref_mut w

module _ {W : Type 0} ⦃read_w : Read W⦄ ⦃more_w : ReadMore W⦄ where
  pub read : BufWriter W → List ℕ → IoResult ℕ × List ℕ × BufWriter W
  read w buf =
      let (r, buf', inner) = read_w.read w.inner buf in (r, buf', record w { inner = inner })

  pub read_vectored : BufWriter W → List (List ℕ) → IoResult ℕ × List (List ℕ) × BufWriter W
  read_vectored w bufs =
      let (r, bufs', inner) = more_w.read_vectored w.inner bufs in
      (r, bufs', record w { inner = inner })

  pub read_to_end : BufWriter W → List ℕ → IoResult ℕ × List ℕ × BufWriter W
  read_to_end w buf =
      let (r, buf', inner) = more_w.read_to_end w.inner buf in (r, buf', record w { inner = inner })

  pub read_to_string : BufWriter W → String → IoResult ℕ × String × BufWriter W
  read_to_string w buf =
      let (r, buf', inner) = more_w.read_to_string w.inner buf in
      (r, buf', record w { inner = inner })

  pub read_exact : BufWriter W → List ℕ → IoResult (Unit {0}) × List ℕ × BufWriter W
  read_exact w buf =
      let (r, buf', inner) = more_w.read_exact w.inner buf in (r, buf', record w { inner = inner })

-- `WriterPanicked::DESCRIPTION`
abbrev pub description : String
description = "writer panicked, unwritten data may remain"

-- `Display for WriterPanicked`
pub display : WriterPanicked → String
display p = description

-- `Debug for WriterPanicked`: the field prints as its two numbers with a slash between them.
pub debug : WriterPanicked → DebugStruct (ℕ × ℕ)
debug (writer_panicked r) = record {
  name = "WriterPanicked";
  fields = ("buffer", (Ring.write_len r, Ring.write_capacity r)) ∷ [];
}
