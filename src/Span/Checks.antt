-- ===== src/Span/Checks.antt =====
-- The checked reads and writes of `Span` and `SpanMut` in src/lib.rs.
use vmap_rs.Prelude.{
  ℕ, ◌+◌, ◌-◌, ◌%◌, ◌==◌, ◌<◌, ◌≤◌, ◌≡◌, refl, sym, ap, ap₂, ◌∙◌, ◌⊎◌, inl, inr, List, length, take,
  drop, true, false, leb, lt→ltb, le→ltb, lt→leb, le→leb, if◌then◌else◌, arith,
}
use vmap_rs.Word.{word, add_word}
use vmap_rs.Span.{
  Span, Scalar, panicked, undefined, made, len, assert_capacity, assert_alignment, splice, read_at,
  write_at, read_unaligned, read_volatile, write_unaligned, write_volatile,
}
use vmap_rs.Span.Splice.{length-splice, splice_self, splice_before, splice_after}

-- What the language promises of a scalar type.
pub record ScalarLaws {T : Type 0} (t : Scalar T) : Type 0 where
  pub long : (v : T) → length (t.to_bytes v) ≡ t.size
  pub same : (v : T) → t.of_bytes (t.to_bytes v) ≡ v

module _ {T : Type 0} ⦃t : Scalar T⦄ where
  -- All four panic; or the unaligned ones are made, and the volatile ones do the same where the
  -- address is aligned and panic where it is not.
  pub record Panics (s : Span) (offset : ℕ) (v : T) : Type 0 where
    pub reads : read_unaligned ⦃t = t⦄ s offset ≡ panicked
    pub writes : write_unaligned s offset v ≡ panicked
    pub reads_volatile : read_volatile ⦃t = t⦄ s offset ≡ panicked
    pub writes_volatile : write_volatile s offset v ≡ panicked

  pub record Made (s : Span) (offset : ℕ) (v : T) : Type 0 where
    pub reads : read_unaligned s offset ≡ made (t.of_bytes (take t.size (drop offset s.bytes)))
    pub writes :
        write_unaligned s offset v
        ≡ made (record s { bytes = splice s.bytes offset (t.to_bytes v) })
    pub aligned :
        add_word s.ptr offset % t.align ≡ 0
        → (read_volatile s offset ≡ made (t.of_bytes (take t.size (drop offset s.bytes))))
          × (write_volatile s offset v
              ≡ made (record s { bytes = splice s.bytes offset (t.to_bytes v) }))
    pub misaligned :
        0 < add_word s.ptr offset % t.align
        → (read_volatile ⦃t = t⦄ s offset ≡ panicked) × (write_volatile s offset v ≡ panicked)

  fits-Made :
      (s : Span) (offset : ℕ) (v : T)
      → assert_capacity t.size offset (len s) ≡ true
      → leb (offset + t.size) (length s.bytes) ≡ true
      → Made s offset v
  unfolding read_unaligned write_unaligned read_volatile write_volatile read_at write_at
      assert_alignment
  fits-Made s offset v c e = record {
    reads = rw (c, e);
    writes = rw (c, e);
    aligned = λ zero. (rw (c, zero, e), rw (c, zero, e));
    misaligned = λ some.
        let no : (add_word s.ptr offset % t.align == 0) ≡ false = ground (arith, some) in
        (rw (c, no), rw (c, no));
  }

  past-Panics :
      (s : Span) (offset : ℕ) (v : T)
      → assert_capacity t.size offset (len s) ≡ false
      → Panics s offset v
  unfolding read_unaligned write_unaligned read_volatile write_volatile
  past-Panics s offset v c = record {
    reads = rw c;
    writes = rw c;
    reads_volatile = rw c;
    writes_volatile = rw c;
  }

  -- Where the end of the access fits a word, no access reaches past the span: past its end all four
  -- panic; inside, the unaligned ones are made on the bytes at the offset, and the volatile ones do
  -- the same where the address is aligned and panic where it is not.
  pub accesses_checked :
      (s : Span) (offset : ℕ) (v : T)
      → offset + t.size < word
      → (length s.bytes < offset + t.size → Panics s offset v)
        × (offset + t.size ≤ length s.bytes → Made s offset v)
  unfolding assert_capacity len
  accesses_checked s offset v h =
      let sum : add_word offset t.size ≡ offset + t.size = omega arith in
      (
        (λ past.
            past-Panics s offset v (rw (sum, lt→ltb (length s.bytes) (offset + t.size) past) refl)),
        (λ inside.
            fits-Made s offset v (rw (sum, le→ltb (length s.bytes) (offset + t.size) inside) refl)
              (le→leb (offset + t.size) (length s.bytes) inside)),
      )

  -- Where the end of the access does not fit a word, the sum in `assert_capacity` wraps: an offset
  -- that wraps to at most the span's length passes, and the access reaches past the span. The
  -- offset, the size and the span's length fit a word.
  pub accesses_wrap :
      (s : Span) (offset : ℕ) (v : T)
      → length s.bytes < word
      → offset < word
      → t.size < word
      → word ≤ offset + t.size
      → offset + t.size - word ≤ length s.bytes
      → (read_unaligned ⦃t = t⦄ s offset ≡ undefined) × (write_unaligned s offset v ≡ undefined)
  unfolding read_unaligned write_unaligned read_at write_at assert_capacity len
  accesses_wrap s offset v hl ho hs over low =
      let sum : add_word offset t.size ≡ offset + t.size - word = omega arith in
      let passes = le→ltb (length s.bytes) (offset + t.size - word) low in
      let out = lt→leb (offset + t.size) (length s.bytes) (omega arith) in
      (rw (sum, passes, out), rw (sum, passes, out))

-- Two spans of one length that have the same bytes at an offset read the same there.
read-cong :
    {U : Type 0} ⦃u : Scalar U⦄ (s s' : Span) (i : ℕ)
    → length s'.bytes ≡ length s.bytes
    → take u.size (drop i s'.bytes) ≡ take u.size (drop i s.bytes)
    → read_unaligned ⦃t = u⦄ s' i ≡ read_unaligned s i
unfolding read_unaligned read_at len
read-cong {U} ⦃u⦄ s s' i l b =
    ap₂
      (λ (n : ℕ) (bs : List ℕ).
        if assert_capacity u.size i n
        then if leb (i + u.size) n then made (u.of_bytes bs) else undefined
        else panicked)
      l b

module _ {T U : Type 0} ⦃t : Scalar T⦄ ⦃u : Scalar U⦄ (laws : ScalarLaws t) where
  -- A write inside the span gives a span of the same address and length, from which a read at the
  -- same offset gives the value, and a read of any scalar type beside the written bytes gives what
  -- it gave before. The end of the access fits a word, and the written type keeps to `ScalarLaws`.
  pub write-read :
      (s : Span) (offset : ℕ) (v : T)
      → offset + t.size < word
      → offset + t.size ≤ length s.bytes
      → (s' : Span) × (write_unaligned s offset v ≡ made s')
        × (s'.ptr ≡ s.ptr)
        × (length s'.bytes ≡ length s.bytes)
        × (read_unaligned s' offset ≡ made v)
        × ((i : ℕ)
            → (i + u.size ≤ offset) ⊎ (offset + t.size ≤ i)
            → read_unaligned ⦃t = u⦄ s' i ≡ read_unaligned s i)
  write-read s offset v h inside =
      let bs = t.to_bytes v in
      let s' : Span = record s { bytes = splice s.bytes offset bs } in
      let size = laws.long v in
      let long : length s'.bytes ≡ length s.bytes =
        length-splice s.bytes offset bs (omega (arith, size)) in
      let at : take t.size (drop offset s'.bytes) ≡ bs =
        ap (λ n. take n (drop offset s'.bytes)) (sym size)
        ∙ splice_self s.bytes offset bs (omega arith) in
      (
        s',
        ((accesses_checked s offset v h).1 inside).writes,
        refl,
        long,
        ((accesses_checked s' offset v h).1 (omega (arith, long))).reads
            ∙ ap (λ b. made (t.of_bytes b)) at
            ∙ ap (λ x. made x) (laws.same v),
        λ i beside. read-cong s s' i long (elim beside [
          | inl before ↦ splice_before s.bytes offset bs i u.size before (omega arith)
          | inr after ↦
              ap (take u.size)
                (splice_after s.bytes offset bs i (omega (arith, size)) (omega arith))
        ]),
      )
