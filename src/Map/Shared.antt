-- ===== src/Map/Shared.antt =====
-- The methods of `Map` in src/map.rs, which are those of the `MapMut` that it holds; and both maps as
-- `Span`s and slices. A slice is its address and its length.
use vmap_rs.Prelude.{ℕ, [], ◌∷◌}
use vmap_rs.Size.{Size}
use vmap_rs.Std.{Result, DebugStruct}
use vmap_rs.Error.{Error}
use vmap_rs.Types.{Advise}
use vmap_rs.Os.{Platform, Call}
use vmap_rs.Map
use vmap_rs.Map.{MapMut, Map}

module _ {St S : Type 0} (os : Platform St S) (page alloc : Size) where
  pub advise : Map → Advise → Call St S (Unit {0})
  advise m adv = Map.advise os page alloc m.inner adv

  pub advise_range : Map → ℕ → ℕ → Advise → Call St S (Unit {0})
  advise_range m off len adv = Map.advise_range os page alloc m.inner off len adv

  pub lock : Map → Call St S (Unit {0})
  lock m = Map.lock os page alloc m.inner

  pub lock_range : Map → ℕ → ℕ → Call St S (Unit {0})
  lock_range m off len = Map.lock_range os page alloc m.inner off len

  pub unlock : Map → Call St S (Unit {0})
  unlock m = Map.unlock os page alloc m.inner

  pub unlock_range : Map → ℕ → ℕ → Call St S (Unit {0})
  unlock_range m off len = Map.unlock_range os page alloc m.inner off len

  -- `TryFrom<MapMut> for Map` and `TryFrom<Map> for MapMut`
  pub try_from_mut : MapMut → St → Result Map (Error S × MapMut) × St
  try_from_mut m = Map.into_map os page alloc m

  pub try_from_map : Map → St → Result MapMut (Error S × Map) × St
  try_from_map m = Map.into_map_mut os page alloc m

-- `Span` and `SpanMut` for `MapMut`, and its slices
pub mut_len : MapMut → ℕ
mut_len m = m.len

pub mut_as_ptr : MapMut → ℕ
mut_as_ptr m = m.ptr

pub mut_as_mut_ptr : MapMut → ℕ
mut_as_mut_ptr m = m.ptr

pub mut_deref : MapMut → ℕ × ℕ
mut_deref m = (m.ptr, m.len)

pub mut_deref_mut : MapMut → ℕ × ℕ
mut_deref_mut m = (m.ptr, m.len)

pub mut_as_ref : MapMut → ℕ × ℕ
mut_as_ref m = mut_deref m

pub mut_as_mut : MapMut → ℕ × ℕ
mut_as_mut m = mut_deref_mut m

-- `Span` for `Map`, and its slices
pub len : Map → ℕ
len m = mut_len m.inner

pub as_ptr : Map → ℕ
as_ptr m = mut_as_ptr m.inner

pub deref : Map → ℕ × ℕ
deref m = (m.inner.ptr, m.inner.len)

pub as_ref : Map → ℕ × ℕ
as_ref m = deref m

-- `Debug for Map`
pub debug : Map → DebugStruct ℕ
debug m = record { name = "Map"; fields = ("ptr", m.inner.ptr) ∷ ("len", m.inner.len) ∷ [] }
