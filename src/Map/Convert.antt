-- ===== src/Map/Convert.antt =====
-- `Map::into_map_mut` and `MapMut::into_map` of src/map.rs side by side.
use vmap_rs.Prelude.{ℕ, ◌+◌, ◌≤◌, ◌≡◌, refl, ◌⊎◌, inl, inr}
use vmap_rs.Word.{word}
use vmap_rs.Std.{ok, err, Result-cases}
use vmap_rs.Error.{Error}
use vmap_rs.Size
use vmap_rs.Size.{Size}
use vmap_rs.Size.Units.{IsUnit}
use vmap_rs.Types.{Protect}
use vmap_rs.Os.{Platform}
use vmap_rs.Map.{MapMut, Map, into_map_mut, into_map}
use vmap_rs.Map.Ranges.{Covers, bounds-Covers}

module _ {St S : Type 0} (os : Platform St S) (page alloc : Size) where
  -- How the two conversions end, if the `n` bytes at `base` are made `ReadWrite`.
  abbrev pub Converts : MapMut → St → ℕ → ℕ → Type 0
  Converts m st base n =
      let (r, st') = os.protect base n Protect.read_write st in
      let frozen : Map = record { inner = m } in
      ((e : Error S) × (r ≡ err e)
        × (into_map os page alloc m st ≡ (err (e, m), st'))
        × (into_map_mut os page alloc frozen st ≡ (err (e, frozen), st')))
      ⊎ ((r ≡ ok tt)
          × (into_map os page alloc m st ≡ (ok frozen, st'))
          × (into_map_mut os page alloc frozen st ≡ (ok m, st')))

  by_bounds :
      (m : MapMut) (st : St)
      → Converts m st (Size.bounds page m.ptr m.len).0 (Size.bounds page m.ptr m.len).1
  unfolding into_map into_map_mut
  by_bounds m st =
      let b = Size.bounds page m.ptr m.len in
      elim (Result-cases (os.protect b.0 b.1 Protect.read_write st).0) [
        | inl (_, e) ↦ inr (e, rw e refl, rw e refl)
        | inr (x, e) ↦ inl (x, e, rw e refl, rw e refl)
      ]

  -- Both conversions make one call of `os::protect`, with `ReadWrite` and on the same bytes: the whole
  -- pages that have a byte of the map. If it succeeds each gives the map in its other form, and if it
  -- fails each gives the error with the map as it was. The page size is a power of two, and the map
  -- and a page more fit the address space.
  pub conversions_alike :
      (m : MapMut) (st : St)
      → IsUnit page
      → m.ptr + m.len + page.unit ≤ word
      → (base : ℕ) × (n : ℕ) × Covers page m.ptr m.len base n × Converts m st base n
  conversions_alike m st u h =
      let (base, n) = Size.bounds page m.ptr m.len in
      (base, n, bounds-Covers m.ptr m.len u h, by_bounds m st)
