-- ===== src/Io/Ring/New.antt =====
-- What `Ring::new` of src/io/ring.rs makes.
use vmap_rs.Prelude.{ℕ, [], ◌+◌, ◌*◌, ◌%◌, ◌<◌, ◌≤◌, ◌≡◌, refl, ◌⊎◌, inl, inr, length, arith}
use vmap_rs.Word.{word}
use vmap_rs.Std.{Result, ok, err}
use vmap_rs.Error.{Error}
use vmap_rs.Os.{RingPlatform}
use vmap_rs.Size.{Size, round}
use vmap_rs.Size.Units.{IsUnit, round_least}
use vmap_rs.Io.Mirror.{view}
use vmap_rs.Io.Ring.{Ring, new, write_capacity}
use vmap_rs.Io.Ring.Inv.{IsValid}
use vmap_rs.Io.Ring.Contents.{contents}

-- What `os::map_ring` promises: the two halves of the mapping fit the address space; and `load` gives
-- as many bytes as it is asked for.
pub record Maps {St S : Type 0} (os : RingPlatform St S) : Type 0 where
  pub bytes : (st : St) (ptr n : ℕ) → length (os.load st ptr n) ≡ n
  pub fits :
      (len : ℕ) (st : St) (ptr : ℕ) (st' : St) → os.map_ring len st ≡ (ok ptr, st') → 2 * len ≤ word

-- A valid, empty ring, whose capacity is the least whole number of units that holds the hint.
pub record Fresh (s : Size) (hint : ℕ) (r : Ring) : Type 0 where
  pub valid : IsValid r
  pub empty : contents r ≡ []
  pub holds : hint ≤ write_capacity r
  pub whole : write_capacity r % s.unit ≡ 0
  pub least : (m : ℕ) → hint ≤ m → m % s.unit ≡ 0 → write_capacity r ≤ m

-- The ring that `new` makes of a mapping.
abbrev pub made : {St S : Type 0} → RingPlatform St S → Size → ℕ → ℕ → St → Ring
made os s hint ptr st = record {
  ptr = ptr;
  mem = os.load st ptr (round s hint);
  len = round s hint;
  rpos = 0;
  wpos = 0;
}

pub made-Fresh :
    {St S : Type 0} {os : RingPlatform St S} {s : Size} {hint : ℕ}
    → Maps os
    → IsUnit s
    → 0 < hint
    → hint + s.unit ≤ word
    → (st : St) (ptr : ℕ) (st' : St) → os.map_ring (round s hint) st ≡ (ok ptr, st')
    → Fresh s hint (made os s hint ptr st')
unfolding view write_capacity
made-Fresh {s = s} {hint = hint} os u pos h st ptr st' e =
    let least = round_least hint u h in
    record {
      valid = record {
        mapped = os.bytes st' ptr (round s hint);
        nonempty = omega (arith, least.0);
        addressable = os.fits (round s hint) st ptr st' e;
        ordered = omega arith;
        bounded = omega arith;
        counted = omega arith;
      };
      empty = refl;
      holds = least.0;
      whole = least.1;
      least = least.2;
    }

-- For a hint that is not 0 and that leaves room to round, `Ring::new` fails only where `map_ring`
-- does; otherwise the ring is valid and empty, and its capacity is the least whole number of
-- allocation units that holds the hint. The allocation unit is a power of two, and `map_ring` keeps
-- to `Maps`.
pub new_lem :
    {St S : Type 0} {os : RingPlatform St S} (s : Size) (hint : ℕ) (st : St)
    → Maps os
    → IsUnit s
    → 0 < hint
    → hint + s.unit ≤ word
    → let (result, st') = new s os hint st in
      let (mapped, after) = os.map_ring (round s hint) st in
      (st' ≡ after)
      × (((e : Error S) × (mapped ≡ err e) × (result ≡ err e))
          ⊎ ((r : Ring) × (result ≡ ok r) × Fresh s hint r))
unfolding new
new_lem {St} {S} {os} s hint st maps u pos h =
    go (os.map_ring (round s hint) st).0 (os.map_ring (round s hint) st).1 refl
  where
    go :
        (mapped : Result ℕ (Error S)) (after : St)
        → os.map_ring (round s hint) st ≡ (mapped, after)
        → let (result, st') = elim mapped as (λ _. Result Ring (Error S) × St) [
          | ok ptr ↦ (ok (made os s hint ptr after), after)
          | err e ↦ (err e, after)
        ] in
          (st' ≡ after)
          × (((e : Error S) × (mapped ≡ err e) × (result ≡ err e))
              ⊎ ((r : Ring) × (result ≡ ok r) × Fresh s hint r))
    go (ok ptr) after e =
        (refl, inr (made os s hint ptr after, refl, made-Fresh maps u pos h st ptr after e))
    go (err x) after e = (refl, inl (x, refl, refl))
