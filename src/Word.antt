-- ===== src/Word.antt =====
-- `usize` and `u64` of a 64-bit target, as native numbers below `2 ^ 64`. The crate is built in the
-- release profile without `overflow-checks`, so `+`, `-` and `<<` wrap.
pub mod Bits
use Prim.Native.Nat.{bit_and}
use vmap_rs.Prelude.{ℕ, ◌+◌, ◌-◌, ◌*◌, ◌/◌, ◌%◌, ◌^◌, ◌==◌, if◌then◌else◌, zero, suc}

abbrev pub word : ℕ
word = 2 ^ 64

-- `usize::MAX`
abbrev pub max_word : ℕ
max_word = 2 ^ 64 - 1

abbrev pub add_word : ℕ → ℕ → ℕ
add_word a b = (a + b) % 2 ^ 64

abbrev pub sub_word : ℕ → ℕ → ℕ
sub_word a b = (a + 2 ^ 64 - b) % 2 ^ 64

-- `!a`
abbrev pub not_word : ℕ → ℕ
not_word a = 2 ^ 64 - 1 - a

-- `a | b`
abbrev pub bit_or : ℕ → ℕ → ℕ
bit_or a b = a + b - bit_and a b

-- `a as u32`
abbrev pub low_u32 : ℕ → ℕ
low_u32 a = a % 2 ^ 32

-- `a << n` and `a >> n` take the shift modulo the width.
abbrev pub shl_word : ℕ → ℕ → ℕ
shl_word a n = a * 2 ^ (n % 64) % 2 ^ 64

abbrev pub shr_word : ℕ → ℕ → ℕ
shr_word a n = a / 2 ^ (n % 64)

-- The zeros below the lowest one, of a number of `width` digits.
unfoldable pub zeros_below : ℕ → ℕ → ℕ
zeros_below zero a = 0
zeros_below (suc width) a = if a % 2 == 1 then 0 else suc (zeros_below width (a / 2))

-- `a.trailing_zeros()`
abbrev pub trailing_zeros : ℕ → ℕ
trailing_zeros a = zeros_below 64 a
