-- ===== src/Map.antt =====
-- `Map` and `MapMut` of src/map.rs. A map is its address and its length; a `Map` holds a `MapMut`.
pub mod Options
pub mod Convert
pub mod Shared
pub mod Ranges
pub mod Lifetime
pub mod Unix
pub mod Windows
use vmap_rs.Prelude.{ℕ, ltb, if◌then◌else◌}
use vmap_rs.Word.{add_word}
use vmap_rs.Size
use vmap_rs.Size.{Size}
use vmap_rs.Std.{Result, ok, err}
use vmap_rs.Error.{Error, Operation, Input, of_input}
use vmap_rs.Types.{Protect, Flush, Advise}
use vmap_rs.Os.{Platform, Call, fail}

pub record MapMut : Type 0 where
  pub ptr : ℕ
  pub len : ℕ

-- `struct Map(MapMut)`
pub record Map : Type 0 where
  pub inner : MapMut

-- What `FromPtr::from_ptr` makes.
pub record FromPtr (T : Type 0) : Type 0 where
  pub from_ptr : ℕ → ℕ → T

instance abbrev pub map_mut_from_ptr : FromPtr MapMut
map_mut_from_ptr = record { from_ptr = λ ptr len. record { ptr = ptr; len = len } }

instance abbrev pub map_from_ptr : FromPtr Map
map_from_ptr = record { from_ptr = λ ptr len. record { inner = record { ptr = ptr; len = len } } }

-- `page` and `alloc` are `Size::page()` and `Size::alloc()`.
module _ {St S : Type 0} (os : Platform St S) (page alloc : Size) where
  -- The map in the one form or the other, or the error with the map as it was.
  pub into_map_mut : Map → St → Result MapMut (Error S × Map) × St
  into_map_mut m st =
      let (ptr, len) = Size.bounds page m.inner.ptr m.inner.len in
      let (r, st') = os.protect ptr len Protect.read_write st in
      (elim r [ ok _ ↦ ok m.inner | err e ↦ err (e, m) ], st')

  pub into_map : MapMut → St → Result Map (Error S × MapMut) × St
  into_map m st =
      let (ptr, len) = Size.bounds page m.ptr m.len in
      let (r, st') = os.protect ptr len Protect.read_write st in
      (elim r [ ok _ ↦ ok (record { inner = m }) | err e ↦ err (e, m) ], st')

  -- `file` is an open file's handle.
  pub flush : MapMut → ℕ → Flush → Call St S (Unit {0})
  flush m file mode = let (ptr, len) = Size.bounds page m.ptr m.len in os.flush ptr file len mode

  pub flush_range : MapMut → ℕ → ℕ → ℕ → Flush → Call St S (Unit {0})
  flush_range m file off len mode =
      if ltb m.len (add_word off len)
      then fail (of_input Operation.flush Input.invalid_range)
      else let (ptr, n) = Size.bounds page (add_word m.ptr off) len in os.flush ptr file n mode

  pub advise : MapMut → Advise → Call St S (Unit {0})
  advise m adv = let (ptr, len) = Size.bounds page m.ptr m.len in os.advise ptr len adv

  pub advise_range : MapMut → ℕ → ℕ → Advise → Call St S (Unit {0})
  advise_range m off len adv =
      if ltb m.len (add_word off len)
      then fail (of_input Operation.advise Input.invalid_range)
      else let (ptr, n) = Size.bounds page (add_word m.ptr off) len in os.advise ptr n adv

  pub lock : MapMut → Call St S (Unit {0})
  lock m = let (ptr, len) = Size.bounds page m.ptr m.len in os.lock ptr len

  pub lock_range : MapMut → ℕ → ℕ → Call St S (Unit {0})
  lock_range m off len =
      if ltb m.len (add_word off len)
      then fail (of_input Operation.lock Input.invalid_range)
      else let (ptr, n) = Size.bounds page (add_word m.ptr off) len in os.lock ptr n

  pub unlock : MapMut → Call St S (Unit {0})
  unlock m = let (ptr, len) = Size.bounds page m.ptr m.len in os.unlock ptr len

  pub unlock_range : MapMut → ℕ → ℕ → Call St S (Unit {0})
  unlock_range m off len =
      if ltb m.len (add_word off len)
      then fail (of_input Operation.unlock Input.invalid_range)
      else let (ptr, n) = Size.bounds page (add_word m.ptr off) len in os.unlock ptr n

  -- `drop`: the result of `unmap` is discarded.
  pub drop : MapMut → St → St
  drop m st =
      if ltb 0 m.len
      then (let (ptr, len) = Size.bounds alloc m.ptr m.len in os.unmap ptr len st).1
      else st
