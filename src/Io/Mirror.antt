-- ===== src/Io/Mirror.antt =====
-- The memory behind a ring: `len` bytes that the addresses `0..len` and `len..2*len` both show
-- (`map_ring` of src/os). An address is counted from the ring's pointer; the slices that the
-- buffers make lie in `0..2*len`.
use native.Mathlib.Nat.{mod-mod, mod-add-mod, mod-eq_of_lt, mod-eq-sub-mod, mod-lt}
use vmap_rs.Prelude.{
  min, ap₂, dec_lt, ℕ, zero, suc, ◌+◌, ◌-◌, ◌%◌, ◌<◌, ◌≤◌, ◌≡◌, ◌≢◌, refl, sym, ap, ◌∙◌, List, [],
  ◌∷◌, ◌++◌, arith, length, get_or, set, length-set, get_or-set_self, get_or-set_ne, take, drop,
}

-- `slice::from_raw_parts(ptr.add(a), n)`
unfoldable pub view : List ℕ → ℕ → ℕ → List ℕ
view mem a zero = []
view mem a (suc n) = get_or mem (a % length mem) 0 ∷ view mem (a + 1) n

-- The bytes `bs` written to the slice at `a`.
unfoldable pub store : List ℕ → ℕ → List ℕ → List ℕ
store mem a [] = mem
store mem a (b ∷ bs) = store (set mem (a % length mem) b) (a + 1) bs

pub length-view : (mem : List ℕ) (a n : ℕ) → length (view mem a n) ≡ n
unfolding view
length-view mem a zero = refl
length-view mem a (suc n) = ap suc (length-view mem (a + 1) n)

pub length-store : (mem : List ℕ) (a : ℕ) (bs : List ℕ) → length (store mem a bs) ≡ length mem
unfolding store
length-store mem a [] = refl
length-store mem a (b ∷ bs) =
    length-store (set mem (a % length mem) b) (a + 1) bs ∙ length-set mem (a % length mem) b

pub view-add : (mem : List ℕ) (a m n : ℕ) → view mem a (m + n) ≡ view mem a m ++ view mem (a + m) n
unfolding view
view-add mem a zero n =
    let e : zero + n ≡ n = omega arith in let f : a + zero ≡ a = omega arith in rw (e, f)
view-add mem a (suc m) n =
    let e : suc m + n ≡ suc (m + n) = omega arith in
    let f : a + suc m ≡ a + 1 + m = omega arith in
    rw (e, f) (ap (λ l. get_or mem (a % length mem) 0 ∷ l) (view-add mem (a + 1) m n))

-- The two halves of the mapping show the same bytes.
view-mod : (mem : List ℕ) (a n : ℕ) → view mem (a % length mem) n ≡ view mem a n
unfolding view
view-mod mem a zero = refl
view-mod mem a (suc n) =
    let next =
      sym (view-mod mem (a % length mem + 1) n)
      ∙ ap (λ k. view mem k n) (mod-add-mod a (length mem) 1)
      ∙ view-mod mem (a + 1) n in
    rw (mod-mod a (length mem), next)

store-mod : (mem : List ℕ) (a : ℕ) (bs : List ℕ) → store mem (a % length mem) bs ≡ store mem a bs
unfolding store
store-mod mem a [] = refl
store-mod mem a (b ∷ bs) =
    let m = set mem (a % length mem) b in
    let same : length m ≡ length mem = length-set mem (a % length mem) b in
    let step : (a % length mem + 1) % length m ≡ (a + 1) % length m =
      rw same (mod-add-mod a (length mem) 1) in
    rw (mod-mod a (length mem)) (
      sym (store-mod m (a % length mem + 1) bs)
      ∙ ap (λ k. store m k bs) step
      ∙ store-mod m (a + 1) bs)

pub view-wrap :
    (mem : List ℕ) (a n : ℕ) {len : ℕ} → length mem ≡ len → view mem (a % len) n ≡ view mem a n
view-wrap mem a n e = rw (← e) (view-mod mem a n)

pub store-wrap :
    (mem : List ℕ) (a : ℕ) (bs : List ℕ) {len : ℕ}
    → length mem ≡ len
    → store mem (a % len) bs ≡ store mem a bs
store-wrap mem a bs e = rw (← e) (store-mod mem a bs)

-- Fewer than `len` steps round the ring do not come back to the start.
add-mod-ne : (a d n : ℕ) → 0 < d → d < n → (a + d) % n ≢ a % n
add-mod-ne a d n hd hn =
    let r = a % n in
    let low : r < n = mod-lt a (omega arith) in
    let e : (a + d) % n ≡ (r + d) % n = sym (mod-add-mod a n d) in
    elim (dec_lt (r + d) n) [
      | yes p ↦ omega (arith, e, mod-eq_of_lt p)
      | no p ↦ omega (
        arith,
        e,
        mod-eq-sub-mod {n = r + d} {m = n} (omega arith),
        mod-eq_of_lt {n = r + d - n} {m = n} (omega arith),
      )
    ]

-- A write of one byte does not show in a slice that ends at or before it, and begins less than a
-- round before it.
view-set :
    (mem : List ℕ) (a n i v : ℕ)
    → a + n ≤ i
    → i < a + length mem
    → view (set mem (i % length mem) v) a n ≡ view mem a n
unfolding view
view-set mem a zero i v h k = refl
view-set mem a (suc n) i v h k =
    let e : a + (i - a) ≡ i = omega arith in
    let apart : i % length mem ≢ a % length mem =
      rw (← e) (add-mod-ne a (i - a) (length mem) (omega arith) (omega arith)) in
    rw (length-set, get_or-set_ne mem v 0 apart)
      (ap (λ l. get_or mem (a % length mem) 0 ∷ l)
        (view-set mem (a + 1) n i v (omega arith) (omega arith)))

-- Nor does a write of several.
pub view-store_ne :
    (mem : List ℕ) (a n b : ℕ) (bs : List ℕ)
    → a + n ≤ b
    → b + length bs ≤ a + length mem
    → view (store mem b bs) a n ≡ view mem a n
unfolding store
view-store_ne mem a n b [] h k = refl
view-store_ne mem a n b (x ∷ xs) h k =
    let m = set mem (b % length mem) x in
    let same : length m ≡ length mem = length-set mem (b % length mem) x in
    view-store_ne m a n (b + 1) xs (omega arith) (omega arith)
    ∙ view-set mem a n b x h (omega arith)

-- What was written is read back, where it fits the memory.
pub view-store_self :
    (mem : List ℕ) (a : ℕ) (bs : List ℕ)
    → length bs ≤ length mem
    → view (store mem a bs) a (length bs) ≡ bs
unfolding store view
view-store_self mem a [] h = refl
view-store_self mem a (x ∷ xs) h =
    let m = set mem (a % length mem) x in
    let same : length m ≡ length mem = length-set mem (a % length mem) x in
    let first : get_or m (a % length m) 0 ≡ x =
      rw same (get_or-set_self mem (a % length mem) x 0 (mod-lt a (omega arith))) in
    let kept =
      ap (λ l. get_or l 0 0) (view-store_ne m a 1 (a + 1) xs (omega arith) (omega arith)) in
    ap₂ ◌∷◌ (kept ∙ first) (view-store_self m (a + 1) xs (omega arith))

pub take-view : (mem : List ℕ) (a n k : ℕ) → take n (view mem a k) ≡ view mem a (min k n)
unfolding view
take-view mem a zero k = let e : min k zero ≡ zero = omega arith in rw e
take-view mem a (suc n) zero = let e : min zero (suc n) ≡ zero = omega arith in rw e
take-view mem a (suc n) (suc k) =
    let e : min (suc k) (suc n) ≡ suc (min k n) = omega arith in
    rw e (ap (λ l. get_or mem (a % length mem) 0 ∷ l) (take-view mem (a + 1) n k))

pub drop-view :
    (mem : List ℕ) (a n k : ℕ) → drop n (view mem a k) ≡ view mem (a + min n k) (k - min n k)
unfolding view
drop-view mem a zero k =
    let e : a + min zero k ≡ a = omega arith in
    let f : k - min zero k ≡ k = omega arith in rw (e, f)
drop-view mem a (suc n) zero = let f : zero - min (suc n) zero ≡ zero = omega arith in rw f
drop-view mem a (suc n) (suc k) =
    let e : a + min (suc n) (suc k) ≡ a + 1 + min n k = omega arith in
    let f : suc k - min (suc n) (suc k) ≡ k - min n k = omega arith in
    rw (e, f) (drop-view mem (a + 1) n k)
