-- ===== src/Size/Units.antt =====
-- What `Size` computes when the unit is a power of two, as `Size::with_size` asks for.
use native.Mathlib.Nat.{
  mod-lt, mod-le, div-add-mod, mul-mod_right, mod-eq_of_lt, div-lt_iff_lt-mul, mul-le-mul_left,
}
use vmap_rs.Prelude.{ℕ, suc, ◌+◌, ◌-◌, ◌*◌, ◌/◌, ◌%◌, ◌^◌, ◌<◌, ◌≤◌, ◌≡◌, arith}
use vmap_rs.Word.{word, add_word, sub_word}
use vmap_rs.Word.Bits.{two_pow_pos, two_pow-lt-word, bit_and_mask, bit_and_not_mask}
use vmap_rs.Size.{Size, truncate, offset, round}

-- The contract of `Size::with_size`: the size is a power of two.
pub record IsUnit (s : Size) : Type 0 where
  pub log : ℕ
  pub log_small : log < 64
  pub is_pow : s.unit ≡ 2 ^ log

pub unit_pos : {s : Size} → IsUnit s → 0 < s.unit
unit_pos u = omega (arith, two_pow_pos u.log, u.is_pow)

pub unit-lt-word : {s : Size} → IsUnit s → s.unit < word
unit-lt-word u = rw u.is_pow (two_pow-lt-word u.log u.log_small)

mask : {s : Size} (u : IsUnit s) → sub_word s.unit 1 ≡ 2 ^ u.log - 1
mask u = omega (arith, unit_pos u, unit-lt-word u, u.is_pow)

pub offset-eq-mod : {s : Size} (len : ℕ) → IsUnit s → offset s len ≡ len % s.unit
unfolding offset
offset-eq-mod len u = rw (mask u, u.is_pow) (bit_and_mask u.log len)

pub truncate-eq-sub :
    {s : Size} (len : ℕ) → IsUnit s → len < word → truncate s len ≡ len - len % s.unit
unfolding truncate
truncate-eq-sub len u h =
    rw (mask u, u.is_pow) (bit_and_not_mask u.log len (omega (arith, u.log_small)) h)

-- A number less its remainder is a multiple.
pub sub-mod_aligned : (x m : ℕ) → 0 < m → (x - x % m) % m ≡ 0
sub-mod_aligned x m h =
    let e : x - x % m ≡ m * (x / m) = omega (arith, div-add-mod x m) in
    rw e (mul-mod_right m (x / m))

-- `truncate` and `offset` split a number into the multiple of the unit at or below it and the
-- distance from there, which is less than the unit. The unit is a power of two, and the number fits
-- a word.
pub truncate-add-offset :
    {s : Size} (len : ℕ)
    → IsUnit s
    → len < word
    → (truncate s len + offset s len ≡ len)
      × (truncate s len % s.unit ≡ 0)
      × (offset s len < s.unit)
truncate-add-offset {s} len u h =
    rw (offset-eq-mod len u, truncate-eq-sub len u h)
      (
        omega (arith, mod-le len s.unit),
        sub-mod_aligned len s.unit (unit_pos u),
        mod-lt len (unit_pos u),
      )

pub round-eq-sub :
    {s : Size} (len : ℕ)
    → IsUnit s
    → len + s.unit ≤ word
    → round s len ≡ len + s.unit - 1 - (len + s.unit - 1) % s.unit
unfolding round
round-eq-sub {s} len u h =
    let e : sub_word (add_word len s.unit) 1 ≡ len + s.unit - 1 = omega (arith, unit_pos u) in
    rw e (truncate-eq-sub (len + s.unit - 1) u (omega (arith, unit_pos u)))

-- The multiple below `len + unit` is no larger than any multiple that is at least `len`.
aligned-le : (len k m : ℕ) → 0 < k → len ≤ m → m % k ≡ 0 → len + k - 1 - (len + k - 1) % k ≤ m
aligned-le len k m hk h a =
    let x = len + k - 1 in
    let whole : x - x % k ≡ k * (x / k) = omega (arith, div-add-mod x k) in
    let top : k * (m / k) ≡ m = omega (arith, div-add-mod m k) in
    let room : x < suc (m / k) * k = omega (arith, top) in
    let q : x / k ≤ m / k = omega (arith, (div-lt_iff_lt-mul hk).1 room) in
    let le : k * (x / k) ≤ k * (m / k) = mul-le-mul_left k q in omega (arith, whole, top, le)

-- Where `len + unit` fits a word, `round` gives the least multiple of the unit that is at least
-- `len`. The unit is a power of two.
pub round_least :
    {s : Size} (len : ℕ)
    → IsUnit s
    → len + s.unit ≤ word
    → (len ≤ round s len)
      × (round s len % s.unit ≡ 0)
      × ((m : ℕ) → len ≤ m → m % s.unit ≡ 0 → round s len ≤ m)
round_least {s} len u h = rw (round-eq-sub len u h) (
  omega (arith, mod-lt (len + s.unit - 1) (unit_pos u)),
  sub-mod_aligned (len + s.unit - 1) s.unit (unit_pos u),
  λ m. aligned-le len s.unit m (unit_pos u),
)

-- Past that, the sum wraps and `round` returns 0. The unit is a power of two.
pub round_wraps :
    {s : Size} (len : ℕ) → IsUnit s → len < word → word < len + s.unit → round s len ≡ 0
unfolding round
round_wraps {s} len u h over =
    let e : sub_word (add_word len s.unit) 1 ≡ len + s.unit - 1 - word =
      omega (arith, unit-lt-word u) in
    let x = len + s.unit - 1 - word in
    rw e (
      rw (truncate-eq-sub x u (omega (arith, unit-lt-word u)))
        (rw (mod-eq_of_lt {n = x} {m = s.unit} (omega arith)) (omega arith)))
