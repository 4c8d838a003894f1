-- ===== src/Span.antt =====
-- `Span` and `SpanMut` of src/lib.rs: reads and writes of scalars in a map or a slice.
pub mod Splice
pub mod Checks
mod Tests
use vmap_rs.Prelude.{
  ℕ, ◌+◌, ◌%◌, ◌==◌, List, ◌++◌, length, take, drop, Bool, ltb, leb, not, if◌then◌else◌,
}
use vmap_rs.Word.{add_word}

-- The bytes of a span, at an address.
pub record Span : Type 0 where
  pub ptr : ℕ
  pub bytes : List ℕ

-- `sealed::Scalar`, with what the language gives for such a type: its size and alignment, and the
-- bytes that a value is in memory.
pub record Scalar (T : Type 0) : Type 0 where
  pub size : ℕ
  pub align : ℕ
  pub to_bytes : T → List ℕ
  pub of_bytes : List ℕ → T

-- How an access ends: it panics, it reaches past the span, or it is made.
pub data Access {ℓ} (A : Type ℓ) : Type ℓ where
  panicked : Access A
  undefined : Access A
  made : A → Access A

pub len : Span → ℕ
len s = length s.bytes

pub is_empty : Span → Bool
is_empty s = len s == 0

-- Whether the assertion holds.
pub assert_capacity : ℕ → ℕ → ℕ → Bool
assert_capacity size offset len = not (ltb len (add_word offset size))

pub assert_alignment : ℕ → ℕ → ℕ → Bool
assert_alignment align offset ptr = add_word ptr offset % align == 0

abbrev pub splice : List ℕ → ℕ → List ℕ → List ℕ
splice xs at bs = take at xs ++ (bs ++ drop (at + length bs) xs)

module _ {T : Type 0} ⦃t : Scalar T⦄ where
  -- A read or write through the pointer, which no check guards.
  pub read_at : Span → ℕ → Access T
  read_at s offset =
      if leb (offset + t.size) (length s.bytes)
      then made (t.of_bytes (take t.size (drop offset s.bytes)))
      else undefined

  pub write_at : Span → ℕ → T → Access Span
  write_at s offset value =
      if leb (offset + t.size) (length s.bytes)
      then made (record s { bytes = splice s.bytes offset (t.to_bytes value) })
      else undefined

  pub read_unaligned : Span → ℕ → Access T
  read_unaligned s offset =
      if assert_capacity t.size offset (len s) then read_at s offset else panicked

  pub read_volatile : Span → ℕ → Access T
  read_volatile s offset =
      if assert_capacity t.size offset (len s)
      then if assert_alignment t.align offset s.ptr then read_at s offset else panicked
      else panicked

  pub write_unaligned : Span → ℕ → T → Access Span
  write_unaligned s offset value =
      if assert_capacity t.size offset (len s) then write_at s offset value else panicked

  pub write_volatile : Span → ℕ → T → Access Span
  write_volatile s offset value =
      if assert_capacity t.size offset (len s)
      then if assert_alignment t.align offset s.ptr then write_at s offset value else panicked
      else panicked
