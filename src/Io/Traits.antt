-- ===== src/Io/Traits.antt =====
-- The traits of src/io/mod.rs: what a buffer gives, and the methods that the traits provide for it.
use vmap_rs.Prelude.{ℕ, List, ◌++◌, Bool, ◌==◌, min, length, take, drop}
use vmap_rs.Std.{IoResult, ok}
use vmap_rs.Io.Mirror.{view, store}

-- The required methods of `SeqRead` and of its supertrait `BufRead`. The pointer gives the memory
-- that it addresses.
pub record SeqRead (B : Type 0) : Type 0 where
  pub as_read_ptr : B → List ℕ
  pub read_offset : B → ℕ
  pub read_len : B → ℕ
  pub consume : B → ℕ → B

-- The required methods of `SeqWrite`. `with_memory` is what a write through the pointer leaves.
pub record SeqWrite (B : Type 0) : Type 0 where
  pub as_write_ptr : B → List ℕ
  pub with_memory : B → List ℕ → B
  pub write_offset : B → ℕ
  pub write_len : B → ℕ
  pub write_capacity : B → ℕ
  pub feed : B → ℕ → B

module _ {B : Type 0} ⦃s : SeqRead B⦄ where
  unfoldable pub is_empty : B → Bool
  is_empty b = s.read_len b == 0

  unfoldable pub as_read_slice : B → ℕ → List ℕ
  as_read_slice b n = view (s.as_read_ptr b) (s.read_offset b) (min (s.read_len b) n)

  -- The result, `into` as it is left, and the buffer.
  unfoldable pub read_from : B → List ℕ → IoResult ℕ × List ℕ × B
  read_from b into =
      let src = as_read_slice b (length into) in
      let len = length src in (ok len, src ++ drop len into, s.consume b len)

module _ {B : Type 0} ⦃s : SeqWrite B⦄ where
  unfoldable pub is_full : B → Bool
  is_full b = s.write_len b == 0

  -- A mutable slice is where it begins and how long it is.
  unfoldable pub as_write_slice : B → ℕ → ℕ × ℕ
  as_write_slice b n = (s.write_offset b, min (s.write_len b) n)

  -- The buffer after the bytes were copied to the front of a slice of it.
  unfoldable pub fill_slice : B → ℕ × ℕ → List ℕ → B
  fill_slice b (at, _) bytes = s.with_memory b (store (s.as_write_ptr b) at bytes)

  unfoldable pub write_into : B → List ℕ → IoResult ℕ × B
  write_into b from =
      let slice = as_write_slice b (length from) in
      let len = slice.1 in (ok len, s.feed (fill_slice b slice (take len from)) len)
