-- ===== src/Io/Ring/Lifetime.antt =====
-- A `Ring` of src/io/ring.rs from `new` to `drop`: what it leaves of the platform.
use vmap_rs.Prelude.{ℕ, List, [], ◌∷◌, ◌+◌, ◌*◌, ◌%◌, ◌<◌, ◌≤◌, ◌≡◌, refl, ◌∙◌, arith}
use vmap_rs.Word.{word}
use vmap_rs.Std.{Result, ok, err}
use vmap_rs.Error.{Error}
use vmap_rs.Os.{RingPlatform}
use vmap_rs.Size.{Size, round}
use vmap_rs.Size.Units.{IsUnit, unit_pos, round_least, round-eq-sub}
use vmap_rs.Io.Calls.{Op}
use vmap_rs.Io.Traits.{read_from, write_into, fill_slice, as_write_slice}
use vmap_rs.Io.Ring.{
  Ring, new, drop, write_capacity, feed, consume, clear, read_and_consume, read, write,
}
use vmap_rs.Io.Ring.Refine.{step}

-- What a platform promises of its rings: `Back st ptr len made st'` says what the ring of `len` bytes
-- at `ptr`, which was mapped in `st` and taken away from `made`, leaves behind in `st'`.
pub record GivesBack {St S : Type 0} (os : RingPlatform St S) (unit : ℕ)
    (Back : St → ℕ → ℕ → St → St → Type 0) : Type 0 where
  pub back :
      (len : ℕ) (st : St) (ptr : ℕ) (st' : St)
      → 0 < len
      → 2 * len < word
      → len % unit ≡ 0
      → os.map_ring len st ≡ (ok ptr, st')
      → Back st ptr len st' (os.unmap_ring ptr len st').1

-- The ring after the calls of a client.
pub after_calls : Ring → List Op → Ring
after_calls r [] = r
after_calls r (op ∷ ops) = after_calls (step r op).1 ops

step_keeps : (r : Ring) (op : Op) → ((step r op).1.ptr ≡ r.ptr) × ((step r op).1.len ≡ r.len)
unfolding step consume clear read_and_consume read read_from write write_into feed fill_slice
    as_write_slice
step_keeps r (Op.write bs) = (refl, refl)
step_keeps r (Op.read into) = (refl, refl)
step_keeps r (Op.consume n) = (refl, refl)
step_keeps r (Op.read_and_consume n) = (refl, refl)
step_keeps r Op.fill_buf = (refl, refl)
step_keeps r Op.clear = (refl, refl)

calls_keep :
    (r : Ring) (ops : List Op)
    → ((after_calls r ops).ptr ≡ r.ptr) × ((after_calls r ops).len ≡ r.len)
unfolding after_calls
calls_keep r [] = (refl, refl)
calls_keep r (op ∷ ops) =
    let (p, l) = step_keeps r op in let (ps, ls) = calls_keep (step r op).1 ops in (ps ∙ p, ls ∙ l)

-- Where `new` succeeds, so does `map_ring`.
pub new_ok :
    {St S : Type 0} (os : RingPlatform St S) (s : Size) (hint : ℕ) (st : St) {r : Ring} {st1 : St}
    → new s os hint st ≡ (ok r, st1)
    → (os.map_ring (round s hint) st ≡ (ok r.ptr, st1))
      × (r.len ≡ round s hint)
      × (r.mem ≡ os.load st1 r.ptr (round s hint))
unfolding new
new_ok {St} {S} os s hint st {r} {st1} e =
    go (os.map_ring (round s hint) st).0 (os.map_ring (round s hint) st).1 e
  where
    go :
        (mapped : Result ℕ (Error S)) (after : St)
        → Path
            (Result Ring (Error S) × St)
            (elim mapped [
              | ok ptr ↦ (
                ok (record {
                  ptr = ptr;
                  mem = os.load after ptr (round s hint);
                  len = round s hint;
                  rpos = 0;
                  wpos = 0;
                }),
                after,
              )
              | err x ↦ (err x, after)
            ])
            (ok r, st1)
        → (Path (Result ℕ (Error S) × St) (mapped, after) (ok r.ptr, st1))
          × (r.len ≡ round s hint)
          × (r.mem ≡ os.load st1 r.ptr (round s hint))
    go (ok ptr) after e = (cc, cc, cc)
    go (err x) after e = cc

pub round_small :
    {s : Size} (hint : ℕ)
    → IsUnit s
    → 0 < hint
    → 2 * (hint + s.unit) ≤ word
    → (0 < round s hint) × (2 * round s hint < word)
round_small {s} hint u pos h =
    let (least, _, _) = round_least hint u (omega (arith, h)) in
    (
      omega (arith, least, pos),
      omega (arith, round-eq-sub hint u (omega (arith, h)), h, pos, unit_pos u),
    )

-- What `new` took of the platform is given back by one call of `unmap_ring`.
pub unmap-Back :
    {St S : Type 0} {os : RingPlatform St S} {Back : St → ℕ → ℕ → St → St → Type 0} (s : Size)
    (hint : ℕ) (st : St) {r : Ring} {st1 : St}
    → GivesBack os s.unit Back
    → IsUnit s
    → 0 < hint
    → 2 * (hint + s.unit) ≤ word
    → new s os hint st ≡ (ok r, st1)
    → Back st r.ptr r.len st1 (os.unmap_ring r.ptr r.len st1).1
unmap-Back {St} {S} {os} {Back} s hint st {r} {st1} gives u pos h e =
    let (made, len, _) = new_ok os s hint st e in
    let (_, whole, _) = round_least hint u (omega (arith, h)) in
    let (some_bytes, small) = round_small hint u pos h in
    rw len (gives.back (round s hint) st r.ptr st1 some_bytes small whole made)

-- Whatever is called before it, the drop unmaps the whole mapping.
pub drop-calls :
    {St S : Type 0} (os : RingPlatform St S) (r : Ring) (ops : List Op) (st : St)
    → drop os (after_calls r ops) st ≡ (os.unmap_ring r.ptr r.len st).1
unfolding drop write_capacity
drop-calls os r ops st = let (same_ptr, same_len) = calls_keep r ops in rw (same_ptr, same_len) refl
