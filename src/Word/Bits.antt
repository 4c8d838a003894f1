-- ===== src/Word/Bits.antt =====
-- `bit_and` with the masks that `Size` in src/lib.rs makes from a power of two: `size - 1` keeps the
-- digits below the power, and its complement keeps the others.
use Prim.Native.Nat.{digits, bit_and, bit_and-bitwise}
use native.Mathlib.Nat.{
  pow-suc, pow-le-pow_right, div-add-mod, mod-lt, mod-le, mod-eq_of_lt, add-mul-mod_self_left,
}
use vmap_rs.Word.{word, not_word, zeros_below}
use vmap_rs.Prelude.{
  ℕ, zero, suc, ◌+◌, ◌-◌, ◌*◌, ◌/◌, ◌%◌, ◌^◌, ◌<◌, ◌≤◌, min, ◌≡◌, refl, sym, ap, ◌∙◌, arith,
}

pub two_pow_suc : (k : ℕ) → 2 ^ suc k ≡ 2 * 2 ^ k
two_pow_suc k = omega (arith, pow-suc 2 k)

pub two_pow_pos : (k : ℕ) → 0 < 2 ^ k
two_pow_pos zero = omega arith
two_pow_pos (suc k) = omega (arith, two_pow_pos k, two_pow_suc k)

pub two_pow-lt-word : (k : ℕ) → k < 64 → 2 ^ k < word
two_pow-lt-word k h =
    let top : 2 ^ k ≤ 2 ^ 63 = pow-le-pow_right (omega arith) {j = 63} (omega arith) in omega arith

pub two_pow-add : (j k : ℕ) → 2 ^ (j + k) ≡ 2 ^ j * 2 ^ k
two_pow-add zero k = let e : zero + k ≡ k = omega arith in rw e (omega arith)
two_pow-add (suc j) k =
    let e : suc j + k ≡ suc (j + k) = omega arith in
    rw (e, two_pow_suc (j + k), two_pow_suc j, two_pow-add j k) (omega arith)

-- Any count of digits that is large enough gives the same digits.
enough_digits :
    (m n a b : ℕ) → a ≤ m → a ≤ n → digits (λ _. zero) min m a b ≡ digits (λ _. zero) min n a b
enough_digits zero zero zero b p q = refl
enough_digits zero (suc n) zero b p q = refl
enough_digits (suc m) zero zero b p q = refl
enough_digits (suc m) (suc n) zero b p q = refl
enough_digits zero n (suc a) b p q = absurd (omega arith)
enough_digits (suc m) zero (suc a) b p q = absurd (omega arith)
enough_digits (suc m) (suc n) (suc a) b p q =
    omega (arith, enough_digits m n (suc a / 2) (b / 2) (omega arith) (omega arith))

and_zero_left : (b : ℕ) → bit_and zero b ≡ zero
and_zero_left b = bit_and-bitwise zero b

-- The lowest digit, and the rest.
pub bit_and_halves : (a b : ℕ) → bit_and a b ≡ 2 * bit_and (a / 2) (b / 2) + min (a % 2) (b % 2)
bit_and_halves zero b = omega (arith, and_zero_left b, and_zero_left (b / 2))
bit_and_halves (suc a) b =
    let whole : bit_and (suc a) b ≡ digits (λ _. zero) min (suc a) (suc a) b =
      bit_and-bitwise (suc a) b in
    let half : bit_and (suc a / 2) (b / 2)
        ≡ digits (λ _. zero) min (suc a / 2) (suc a / 2) (b / 2) =
      bit_and-bitwise (suc a / 2) (b / 2) in
    let trim = enough_digits a (suc a / 2) (suc a / 2) (b / 2) (omega arith) (omega arith) in
    omega (arith, whole, half, trim)

and_zero_fuel : (n a : ℕ) → a ≤ n → bit_and a 0 ≡ 0
and_zero_fuel n zero h = and_zero_left 0
and_zero_fuel zero (suc a) h = absurd (omega arith)
and_zero_fuel (suc n) (suc a) h =
    omega (arith, bit_and_halves (suc a) 0, and_zero_fuel n (suc a / 2) (omega arith))

pub bit_and-zero : (a : ℕ) → bit_and a 0 ≡ 0
bit_and-zero a = and_zero_fuel a a (omega arith)

half_mask : (m : ℕ) → 0 < m → ((2 * m - 1) / 2 ≡ m - 1) × ((2 * m - 1) % 2 ≡ 1)
half_mask m h = omega arith

mod_double : (a m : ℕ) → 0 < m → a % (2 * m) ≡ 2 * (a / 2 % m) + a % 2
mod_double a m h =
    let r = 2 * (a / 2 % m) + a % 2 in
    let split : a ≡ r + 2 * m * (a / 2 / m) = omega (arith, div-add-mod (a / 2) m) in
    let small : r < 2 * m = omega (arith, mod-lt (a / 2) h) in
    ap (λ x. x % (2 * m)) split ∙ add-mul-mod_self_left r (2 * m) (a / 2 / m) ∙ mod-eq_of_lt small

-- A mask of ones keeps the remainder.
pub bit_and_mask : (k a : ℕ) → bit_and a (2 ^ k - 1) ≡ a % 2 ^ k
bit_and_mask zero a = omega (arith, bit_and-zero a)
bit_and_mask (suc k) a =
    rw (two_pow_suc k, bit_and_halves, (half_mask (2 ^ k) (two_pow_pos k)).0, bit_and_mask k)
      (omega (arith, half_mask (2 ^ k) (two_pow_pos k), mod_double a (2 ^ k) (two_pow_pos k)))

-- A mask of `j` ones above `k` zeros drops the remainder.
pub bit_and_high : (j k a : ℕ) → a < 2 ^ j * 2 ^ k → bit_and a ((2 ^ j - 1) * 2 ^ k) ≡ a - a % 2 ^ k
bit_and_high j zero a h =
    let e : (2 ^ j - 1) * 2 ^ zero ≡ 2 ^ j - 1 = omega arith in
    let all : a % 2 ^ j ≡ a = mod-eq_of_lt (omega arith) in
    rw (e, bit_and_mask j a, all) (omega arith)
bit_and_high j (suc k) a h =
    let m = (2 ^ j - 1) * 2 ^ k in
    let e : (2 ^ j - 1) * 2 ^ suc k ≡ 2 * m = rw (two_pow_suc k) (omega arith) in
    let half : 2 * m / 2 ≡ m = omega arith in
    let even : 2 * m % 2 ≡ 0 = omega arith in
    let small : a / 2 < 2 ^ j * 2 ^ k =
      let h' : a < 2 ^ j * (2 * 2 ^ k) = rw (two_pow_suc k) at h in omega arith in
    let low = mod_double a (2 ^ k) (two_pow_pos k) in
    let up = mod-le (a / 2) (2 ^ k) in
    rw (e, bit_and_halves, half, even, bit_and_high j k (a / 2) small, two_pow_suc k, low)
      (omega arith)

complement : (p q : ℕ) → 0 < p → 0 < q → p * q - 1 - (q - 1) ≡ (p - 1) * q
complement zero q hp hq = absurd (omega arith)
complement (suc p) q hp hq = let e : suc p - 1 ≡ p = omega arith in rw e (omega arith)

-- `!(size - 1)` is such a mask.
not_mask : (j k : ℕ) → j + k ≡ 64 → not_word (2 ^ k - 1) ≡ (2 ^ j - 1) * 2 ^ k
not_mask j k e =
    let w : 2 ^ 64 ≡ 2 ^ j * 2 ^ k = ap (λ x. 2 ^ x) (sym e) ∙ two_pow-add j k in
    omega (arith, w, complement (2 ^ j) (2 ^ k) (two_pow_pos j) (two_pow_pos k))

pub bit_and_not_mask :
    (k a : ℕ) → k ≤ 64 → a < word → bit_and a (not_word (2 ^ k - 1)) ≡ a - a % 2 ^ k
bit_and_not_mask k a hk ha =
    let e : 64 - k + k ≡ 64 = omega arith in
    let w : 2 ^ 64 ≡ 2 ^ (64 - k) * 2 ^ k = ap (λ x. 2 ^ x) (sym e) ∙ two_pow-add (64 - k) k in
    rw (not_mask (64 - k) k e) (bit_and_high (64 - k) k a (rw (← w) ha))

pub zeros_below-two_pow : (width k : ℕ) → k < width → zeros_below width (2 ^ k) ≡ k
unfolding zeros_below
zeros_below-two_pow zero k h = absurd (omega arith)
zeros_below-two_pow (suc width) zero h = refl
zeros_below-two_pow (suc width) (suc k) h =
    let half : 2 ^ suc k / 2 ≡ 2 ^ k = omega (arith, two_pow_suc k) in
    let even : 2 ^ suc k % 2 ≡ 0 = omega (arith, two_pow_suc k) in
    rw (even, half) (ap suc (zeros_below-two_pow width k (omega arith)))
