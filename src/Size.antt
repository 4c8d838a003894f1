-- ===== src/Size.antt =====
-- `Size` and the cached system sizes of src/lib.rs.
pub mod Units
pub mod Regions
pub mod Cache
mod Tests
use Prim.Native.Nat.{bit_and}
use vmap_rs.Prelude.{ℕ, ◌==◌, if◌then◌else◌}
use vmap_rs.Word.{
  add_word, sub_word, not_word, low_u32, shl_word, shr_word, trailing_zeros, zeros_below,
}

-- `struct Size(usize)`
pub record Size : Type 0 where
  pub unit : ℕ

pub with_size : ℕ → Size
with_size size = record { unit = size }

unfoldable pub truncate : Size → ℕ → ℕ
truncate s len = bit_and len (not_word (sub_word s.unit 1))

pub offset : Size → ℕ → ℕ
offset s len = bit_and len (sub_word s.unit 1)

unfoldable pub round : Size → ℕ → ℕ
round s len = truncate s (sub_word (add_word len s.unit) 1)

-- `count` is a `u32`, widened.
pub size : Size → ℕ → ℕ
size s count = shl_word count (trailing_zeros s.unit)

pub count : Size → ℕ → ℕ
count s len = low_u32 (shr_word (round s len) (trailing_zeros s.unit))

-- The pointer is its address.
pub bounds : Size → ℕ → ℕ → ℕ × ℕ
bounds s ptr len = let off = offset s ptr in (sub_word ptr off, round s (add_word len off))

-- The statics `PAGE_SIZE` and `ALLOC_SIZE`; both begin at 0.
pub record Statics : Type 0 where
  pub page_cell : ℕ
  pub alloc_cell : ℕ

abbrev pub statics_init : Statics
statics_init = record { page_cell = 0; alloc_cell = 0 }

-- `info` is what `os::system_info()` returns.
module _ (info : ℕ × ℕ) where
  pub load_system_info : Statics → (ℕ × ℕ) × Statics
  load_system_info st = (info, record { page_cell = info.0; alloc_cell = info.1 })

  pub page_size : Statics → ℕ × Statics
  page_size st =
      let cached = st.page_cell in
      let (loaded, st') = load_system_info st in
      if cached == 0 then (loaded.0, st') else (cached, st)

  pub allocation_size : Statics → ℕ × Statics
  allocation_size st =
      let cached = st.alloc_cell in
      let (loaded, st') = load_system_info st in
      if cached == 0 then (loaded.1, st') else (cached, st)

  -- `Size::page()` and `Size::alloc()`
  pub page : Statics → Size × Statics
  page st = let (n, st') = page_size st in (with_size n, st')

  pub alloc : Statics → Size × Statics
  alloc st = let (n, st') = allocation_size st in (with_size n, st')

  -- `Size::default()`
  pub default : Statics → Size × Statics
  default st = alloc st
