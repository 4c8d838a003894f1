-- ===== src/Size/Regions.antt =====
-- `Size::size` and `Size::count` against one another, and the page range of `Size::bounds`.
use native.Mathlib.Nat.{
  mod-lt, mod-le, mod-eq_of_lt, div-add-mod, mul-div_cancel, mul-mod_left, mod-add-mod, zero-add,
}
use vmap_rs.Prelude.{ℕ, ◌+◌, ◌-◌, ◌*◌, ◌/◌, ◌%◌, ◌^◌, ◌<◌, ◌≤◌, ◌≡◌, ◌∙◌, sym, ap, arith}
use vmap_rs.Word.{word, add_word, sub_word, trailing_zeros}
use vmap_rs.Word.Bits.{zeros_below-two_pow}
use vmap_rs.Size.{Size, offset, round, size, count, bounds}
use vmap_rs.Size.Units.{IsUnit, unit_pos, offset-eq-mod, round-eq-sub, round_least, sub-mod_aligned}

zeros-eq-log : {s : Size} (u : IsUnit s) → trailing_zeros s.unit % 64 ≡ u.log
zeros-eq-log u =
    rw u.is_pow (rw (zeros_below-two_pow 64 u.log u.log_small) (mod-eq_of_lt u.log_small))

size-eq-mul : {s : Size} (n : ℕ) → IsUnit s → n * s.unit < word → size s n ≡ n * s.unit
unfolding size
size-eq-mul {s} n u h = rw (zeros-eq-log u) (rw (← u.is_pow) (mod-eq_of_lt h))

count-eq-div :
    {s : Size} (len : ℕ)
    → IsUnit s
    → round s len / s.unit < 2 ^ 32
    → count s len ≡ round s len / s.unit
unfolding count
count-eq-div {s} len u h = rw (zeros-eq-log u) (rw (← u.is_pow) (mod-eq_of_lt h))

-- `size` after `count` is `round`, where `len + unit` fits a word and the count fits a `u32`. The
-- unit is a power of two.
size-count :
    {s : Size} (len : ℕ)
    → IsUnit s
    → len + s.unit ≤ word
    → round s len / s.unit < 2 ^ 32
    → size s (count s len) ≡ round s len
size-count {s} len u h c =
    let n = round s len / s.unit in
    let whole : n * s.unit ≡ round s len =
      omega (arith, div-add-mod (round s len) s.unit, (round_least len u h).1) in
    let fits : n * s.unit < word = omega (arith, unit_pos u, whole, round-eq-sub len u h) in
    rw (count-eq-div len u c) (size-eq-mul n u fits ∙ whole)

-- `count` after `size` gives the count back, where the size and one unit more fit a word. The unit
-- is a power of two, and the count fits a `u32`.
count-size :
    {s : Size} (n : ℕ) → IsUnit s → n < 2 ^ 32 → n * s.unit + s.unit ≤ word → count s (size s n) ≡ n
count-size {s} n u hn h =
    let x = n * s.unit in
    let least = round_least x u h in
    let exact : round s x ≡ x =
      omega (arith, least.0, least.2 x (omega arith) (mul-mod_left n s.unit)) in
    let quotient : x / s.unit ≡ n = mul-div_cancel n (unit_pos u) in
    rw (size-eq-mul n u (omega (arith, unit_pos u)))
      (rw (count-eq-div x u (rw (exact, quotient) hn)) (rw (exact, quotient)))

-- `bounds` gives a range of whole units that covers `[ptr, ptr + len)` and exceeds it by less than
-- a unit at either end, where `ptr + len` and a unit more fit a word. The unit is a power of two.
pub bounds_cover :
    {s : Size} (ptr len : ℕ)
    → IsUnit s
    → ptr + len + s.unit ≤ word
    → let (base, n) = bounds s ptr len in
      (base % s.unit ≡ 0)
      × (n % s.unit ≡ 0)
      × (base ≤ ptr)
      × (ptr < base + s.unit)
      × (ptr + len ≤ base + n)
      × (base + n < ptr + len + s.unit)
unfolding bounds
bounds_cover {s} ptr len u h =
    let off : offset s ptr ≡ ptr % s.unit = offset-eq-mod ptr u in
    let k = ptr % s.unit in
    let low : k < s.unit = mod-lt ptr (unit_pos u) in
    let le : k ≤ ptr = mod-le ptr s.unit in
    let base : sub_word ptr k ≡ ptr - k = omega (arith, unit_pos u) in
    let sum : add_word len k ≡ len + k = omega arith in
    rw (off, base, sum)
      (
        sub-mod_aligned ptr s.unit (unit_pos u),
        (round_least (len + k) u (omega arith)).1,
        omega arith,
        omega arith,
        omega (arith, (round_least (len + k) u (omega arith)).0),
        omega (arith, round-eq-sub (len + k) u (omega arith)),
      )

pub bounds_aligned :
    {s : Size} (base gap len : ℕ)
    → IsUnit s
    → base % s.unit ≡ 0
    → gap < s.unit
    → base + gap < word
    → len + gap < word
    → bounds s (base + gap) len ≡ (base, round s (len + gap))
unfolding bounds
bounds_aligned {s} base gap len u aligned low hp hl =
    let rest : (base + gap) % s.unit ≡ gap =
      sym (mod-add-mod base s.unit gap)
      ∙ ap (λ k. (k + gap) % s.unit) aligned
      ∙ mod-eq_of_lt {n = 0 + gap} (omega arith)
      ∙ zero-add gap in
    let off : offset s (base + gap) ≡ gap = offset-eq-mod (base + gap) u ∙ rest in
    let start : sub_word (base + gap) gap ≡ base = omega arith in
    let sum : add_word len gap ≡ len + gap = omega arith in rw (off, start, sum)
