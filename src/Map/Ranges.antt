-- ===== src/Map/Ranges.antt =====
-- The methods of `MapMut` in src/map.rs that act on a part of a map, and those on the whole map.
use vmap_rs.Prelude.{
  ℕ, ◌+◌, ◌-◌, ◌%◌, ◌<◌, ◌≤◌, ◌≡◌, subst, true, false, ltb, le→ltb, lt→ltb, arith,
}
use vmap_rs.Word.{word, add_word}
use vmap_rs.Size
use vmap_rs.Size.{Size}
use vmap_rs.Size.Units.{IsUnit, unit_pos}
use vmap_rs.Size.Regions.{bounds_cover}
use vmap_rs.Types.{Flush, Advise}
use vmap_rs.Error.{Operation, Input, of_input}
use vmap_rs.Os.{Platform, fail}
use vmap_rs.Map.{
  MapMut, flush, flush_range, advise, advise_range, lock, lock_range, unlock, unlock_range,
}

-- `n` bytes at `base` are the whole units that have a byte of `[ptr, ptr + len)`, or one unit more
-- if there is none.
pub record Covers (s : Size) (ptr len base n : ℕ) : Type 0 where
  pub aligned : base % s.unit ≡ 0
  pub whole : n % s.unit ≡ 0
  pub low : (base ≤ ptr) × (ptr < base + s.unit)
  pub high : (ptr + len ≤ base + n) × (base + n < ptr + len + s.unit)

pub bounds-Covers :
    {s : Size} (ptr len : ℕ)
    → IsUnit s
    → ptr + len + s.unit ≤ word
    → Covers s ptr len (Size.bounds s ptr len).0 (Size.bounds s ptr len).1
bounds-Covers ptr len u h =
    let (aligned, whole, low, near, high, far) = bounds_cover ptr len u h in
    record { aligned = aligned; whole = whole; low = (low, near); high = (high, far) }

module _ {St S : Type 0} (os : Platform St S) (page alloc : Size) where
  -- The four methods each fail with their own operation and leave the platform alone, or each make
  -- their one call on `n` bytes at `base`.
  pub record Rejected (m : MapMut) (file off len : ℕ) (mode : Flush) (adv : Advise) : Type 0 where
    pub no_flush :
        flush_range os page alloc m file off len mode
        ≡ fail (of_input Operation.flush Input.invalid_range)
    pub no_advise :
        advise_range os page alloc m off len adv
        ≡ fail (of_input Operation.advise Input.invalid_range)
    pub no_lock :
        lock_range os page alloc m off len ≡ fail (of_input Operation.lock Input.invalid_range)
    pub no_unlock :
        unlock_range os page alloc m off len ≡ fail (of_input Operation.unlock Input.invalid_range)

  pub record Reaches (m : MapMut) (file off len : ℕ) (mode : Flush) (adv : Advise) (base n : ℕ)
      : Type 0 where
    pub flushes : flush_range os page alloc m file off len mode ≡ os.flush base file n mode
    pub advises : advise_range os page alloc m off len adv ≡ os.advise base n adv
    pub locks : lock_range os page alloc m off len ≡ os.lock base n
    pub unlocks : unlock_range os page alloc m off len ≡ os.unlock base n

  rejected :
      (m : MapMut) (file off len : ℕ) (mode : Flush) (adv : Advise)
      → ltb m.len (add_word off len) ≡ true
      → Rejected m file off len mode adv
  unfolding flush_range advise_range lock_range unlock_range
  rejected m file off len mode adv e = record {
    no_flush = rw e;
    no_advise = rw e;
    no_lock = rw e;
    no_unlock = rw e;
  }

  reaches :
      (m : MapMut) (file off len : ℕ) (mode : Flush) (adv : Advise)
      → ltb m.len (add_word off len) ≡ false
      → let (base, n) = Size.bounds page (add_word m.ptr off) len in
        Reaches m file off len mode adv base n
  unfolding flush_range advise_range lock_range unlock_range
  reaches m file off len mode adv e = record {
    flushes = rw e;
    advises = rw e;
    locks = rw e;
    unlocks = rw e;
  }

  -- Where the end of the range fits a word: if the range ends past the map, the four range methods
  -- fail with `InvalidRange` and call nothing; else each makes its call on the pages that the range
  -- touches. The page size is a power of two, and the map and a page more fit the address space.
  pub ranges_checked :
      (m : MapMut) (file off len : ℕ) (mode : Flush) (adv : Advise)
      → IsUnit page
      → m.ptr + m.len + page.unit ≤ word
      → off + len < word
      → (m.len < off + len → Rejected m file off len mode adv)
        × (off + len ≤ m.len
            → (base : ℕ) × (n : ℕ) × Covers page (m.ptr + off) len base n
              × Reaches m file off len mode adv base n)
  ranges_checked m file off len mode adv u fits h =
      let sum : add_word off len ≡ off + len = omega arith in
      (
        λ past. rejected m file off len mode adv (rw sum (lt→ltb m.len (off + len) past)),
        λ inside.
            let at : add_word m.ptr off ≡ m.ptr + off = omega (arith, unit_pos u) in
            let b = Size.bounds page (m.ptr + off) len in
            (
              b.0,
              b.1,
              bounds-Covers (m.ptr + off) len u (omega arith),
              subst
                  (λ p.
                    Reaches m file off len mode adv (Size.bounds page p len).0
                      (Size.bounds page p len).1)
                  at (reaches m file off len mode adv (rw sum (le→ltb m.len (off + len) inside))),
            ),
      )

  -- Where the end of the range does not fit a word, the sum wraps: a range that wraps to at most
  -- the map's length is not rejected, though it ends past every map. The offset, the length and the
  -- map's length fit a word.
  pub ranges_wrap :
      (m : MapMut) (file off len : ℕ) (mode : Flush) (adv : Advise)
      → m.len < word
      → off < word
      → len < word
      → word ≤ off + len
      → off + len - word ≤ m.len
      → (m.len < off + len)
        × Reaches m file off len mode adv
            (Size.bounds page (add_word m.ptr off) len).0
            (Size.bounds page (add_word m.ptr off) len).1
  ranges_wrap m file off len mode adv hm ho hl over low =
      let sum : add_word off len ≡ off + len - word = omega arith in
      (omega arith, reaches m file off len mode adv (rw sum (le→ltb m.len (off + len - word) low)))

  -- A method on the whole map is the method on the range from 0 of the map's length. The map's
  -- address and length fit a word.
  whole-eq-range :
      (m : MapMut) (file : ℕ) (mode : Flush) (adv : Advise)
      → m.ptr < word
      → m.len < word
      → (flush os page alloc m file mode ≡ flush_range os page alloc m file 0 m.len mode)
        × (advise os page alloc m adv ≡ advise_range os page alloc m 0 m.len adv)
        × (lock os page alloc m ≡ lock_range os page alloc m 0 m.len)
        × (unlock os page alloc m ≡ unlock_range os page alloc m 0 m.len)
  unfolding flush advise lock unlock flush_range advise_range lock_range unlock_range
  whole-eq-range m file mode adv hp hl =
      let sum : add_word 0 m.len ≡ m.len = omega arith in
      let at : add_word m.ptr 0 ≡ m.ptr = omega arith in
      let e = le→ltb m.len m.len (omega arith) in
      (rw (sum, e, at), rw (sum, e, at), rw (sum, e, at), rw (sum, e, at))
