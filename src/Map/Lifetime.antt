-- ===== src/Map/Lifetime.antt =====
-- From `map_if` to `drop` in src/map.rs: what the drop of a map gives back of what was mapped.
use vmap_rs.Prelude.{
  ℕ, ◌+◌, ◌-◌, ◌%◌, ◌<◌, ◌≤◌, ◌≡◌, refl, ap, ap₂, subst, ◌∙◌, some, lt→ltb, le→ltb, arith,
}
use vmap_rs.Word.{word, add_word}
use vmap_rs.Std.{ok}
use vmap_rs.Size.{Size, bounds, round}
use vmap_rs.Size.Units.{IsUnit, unit_pos, round-eq-sub, round_least}
use vmap_rs.Size.Regions.{bounds_aligned}
use vmap_rs.Types.{Protect}
use vmap_rs.Os.{Platform, Files}
use vmap_rs.Map.{MapMut, map_mut_from_ptr, drop}
use vmap_rs.Map.Options.{Options, map_if}
use vmap_rs.Map.Options.Extents.{FileLaws, FileSteps, final_len, chosen}
use vmap_rs.Map.Options.Range.{MapsPart, Maps, map_if-Maps}

-- Where a successful `os::map_file` puts the bytes: at a multiple of the allocation unit, and with
-- a unit to spare before the end of the address space.
pub record Places {St S : Type 0} (os : Platform St S) (alloc : Size) : Type 0 where
  pub placed :
      (f off len : ℕ) (p : Protect) (st : St) (base : ℕ) (st' : St)
      → os.map_file f off len p st ≡ (ok base, st')
      → (base % alloc.unit ≡ 0) × (base + len + alloc.unit ≤ word)

module _ {St S : Type 0} (os : Platform St S) (files : Files St) (page alloc : Size)
    {len_of : ℕ → St → ℕ} (laws : FileLaws files len_of) (places : Places os alloc)
    (u : IsUnit alloc) where
  -- The call that made the map, and what `drop` does of it.
  pub record Dropped (o : Options) (f : ℕ) (start : St) (m : MapMut) (st' : St) : Type 0 where
    pub before : St
    pub steps : FileSteps files f start before
    pub base : ℕ
    pub mapoff : ℕ
    pub maplen : ℕ
    pub call : os.map_file f mapoff maplen o.protect before ≡ (ok base, st')
    pub aligned : mapoff % alloc.unit ≡ 0
    pub near : (mapoff ≤ o.offset) × (o.offset < mapoff + alloc.unit)
    pub placed : (m.ptr ≡ base + (o.offset - mapoff)) × (m.len + (o.offset - mapoff) ≡ maplen)
    pub gives_back :
        0 < m.len
        → (n : ℕ) × (drop os page alloc m st' ≡ (os.unmap base n st').1)
          × (maplen ≤ n)
          × (n < maplen + alloc.unit)
          × (n % alloc.unit ≡ 0)
          × (n ≡ round alloc maplen)
    pub leaks : m.len ≡ 0 → (maplen ≡ o.offset - mapoff) × (drop os page alloc m st' ≡ st')

  part-Dropped :
      (o : Options) (f : ℕ) (start : St) (total : ℕ) (m : MapMut) (st' : St)
      → MapsPart os files page alloc MapMut laws u o f start total m st'
      → Dropped o f start m st'
  unfolding drop
  part-Dropped o f start total m st' p =
      let at = places.placed f p.mapoff p.maplen o.protect p.before p.base st' p.call in
      let gap = o.offset - p.mapoff in
      let len = chosen o.len (total - o.offset) in
      let long : len + gap ≡ p.maplen = omega (arith, p.ends, p.near) in
      let near : gap < alloc.unit = omega (arith, p.near) in
      let ptr : add_word p.base gap ≡ p.base + gap = omega (arith, at, long, unit_pos u) in
      let sizes : m.len ≡ len = ap (λ x. x.len) p.made in
      let range : bounds alloc m.ptr m.len ≡ (p.base, round alloc p.maplen) =
        ap₂ (bounds alloc) (ap (λ x. x.ptr) p.made ∙ ptr) sizes
        ∙ bounds_aligned p.base gap len u at.0 near (omega (arith, at, long, unit_pos u))
            (omega (arith, at, long, unit_pos u))
        ∙ ap (λ k. (p.base, round alloc k)) long in
      let up = round_least p.maplen u (omega (arith, at)) in
      record {
        before = p.before;
        steps = p.steps;
        base = p.base;
        mapoff = p.mapoff;
        maplen = p.maplen;
        call = p.call;
        aligned = p.aligned;
        near = p.near;
        placed = (ap (λ x. x.ptr) p.made ∙ ptr, omega (arith, sizes, long));
        gives_back = λ some_left. (
          round alloc p.maplen,
          rw (lt→ltb 0 m.len some_left, range),
          up.0,
          omega (arith, round-eq-sub p.maplen u (omega (arith, at)), unit_pos u),
          up.1,
          refl,
        );
        leaks = λ none_left.
            (omega (arith, long, sizes, none_left), rw (le→ltb 0 m.len (omega (arith, none_left))));
      }

  -- A map that `map_if` made, if it is not empty, is unmapped by `drop` from the address that
  -- `os::map_file` returned on, over the whole allocation units of the length it was called with.
  -- An empty map is not unmapped at all, though the call mapped the bytes between the allocation
  -- unit's boundary and the offset. The allocation unit is a power of two, `std::fs` keeps to
  -- `FileLaws` and the platform to `Places`.
  pub map_if-Dropped :
      (o : Options) (f : ℕ) (st : St) (m : MapMut) (st' : St)
      → map_if os files page alloc o f st ≡ (ok (some m), st')
      → Dropped o f st m st'
  map_if-Dropped o f st m st' e = part-Dropped o f st (final_len o (len_of f st)) m st' (
      subst (Maps os files page alloc MapMut laws u o f st (final_len o (len_of f st))) e
        (map_if-Maps os files page alloc MapMut laws u o f st))
