-- ===== src/Io/InfiniteRing/Lifetime.antt =====
-- An `InfiniteRing` of src/io/ring.rs from `new` to `drop`, beside a `Ring` of the same mapping.
use vmap_rs.Prelude.{ℕ, List, [], ◌∷◌, ◌+◌, ◌*◌, ◌<◌, ◌≤◌, ◌≡◌, refl, sym, subst, ap, ◌∙◌}
use vmap_rs.Word.{word}
use vmap_rs.Std.{Result, ok, err}
use vmap_rs.Error.{Error}
use vmap_rs.Os.{RingPlatform}
use vmap_rs.Size.{Size, round}
use vmap_rs.Size.Units.{IsUnit}
use vmap_rs.Io.Calls as Calls
use vmap_rs.Io.Ring as Ring
use vmap_rs.Io.Ring.{Ring}
use vmap_rs.Io.Ring.Lifetime as Life
use vmap_rs.Io.Ring.Lifetime.{GivesBack, unmap-Back}
use vmap_rs.Io.Ring.New as New
use vmap_rs.Io.Ring.New.{Maps, Fresh}
use vmap_rs.Io.Traits.{read_from, write_into, fill_slice, as_write_slice}
use vmap_rs.Io.InfiniteRing.{
  InfiniteRing, new, drop, write_capacity, feed, consume, read, write, write_all,
}
use vmap_rs.Io.InfiniteRing.Queue.{Op}
use vmap_rs.Io.InfiniteRing.Refine.{step}

-- The `InfiniteRing` that has nothing written, in the mapping of a `Ring`.
abbrev pub emptied : Ring → InfiniteRing
emptied r = record { ptr = r.ptr; mem = r.mem; len = r.len; rlen = 0; wpos = 0 }

abbrev pub emptied_result : {S : Type 0} → Result Ring (Error S) → Result InfiniteRing (Error S)
emptied_result (ok r) = ok (emptied r)
emptied_result (err e) = err e

-- `InfiniteRing::new` makes the mapping that `Ring::new` makes.
pub new_alike :
    {St S : Type 0} (os : RingPlatform St S) (s : Size) (hint : ℕ) (st : St)
    → new s os hint st ≡ (emptied_result (Ring.new s os hint st).0, (Ring.new s os hint st).1)
unfolding new Ring.new
new_alike {St} {S} os s hint st =
    go (os.map_ring (round s hint) st).0 (os.map_ring (round s hint) st).1
  where
    go :
        (mapped : Result ℕ (Error S)) (after : St)
        → Path
            (Result InfiniteRing (Error S) × St)
            (elim mapped [
              | ok ptr ↦ (
                ok (record {
                  ptr = ptr;
                  mem = os.load after ptr (round s hint);
                  len = round s hint;
                  rlen = 0;
                  wpos = 0;
                }),
                after,
              )
              | err x ↦ (err x, after)
            ])
            (let ring = elim mapped as (λ _. Result Ring (Error S) × St) [
              | ok ptr ↦ (ok (New.made os s hint ptr after), after)
              | err x ↦ (err x, after)
            ] in
              (emptied_result ring.0, ring.1))
    go (ok ptr) after = refl
    go (err x) after = refl

-- The ring after the calls of a client.
pub after_calls : InfiniteRing → List Op → InfiniteRing
after_calls r [] = r
after_calls r (op ∷ ops) = after_calls (step r op).1 ops

step_keeps :
    (r : InfiniteRing) (op : Op) → ((step r op).1.ptr ≡ r.ptr) × ((step r op).1.len ≡ r.len)
unfolding step feed consume read read_from write write_into write_all fill_slice as_write_slice
step_keeps r (Op.write bs) = (refl, refl)
step_keeps r (Op.write_all bs) = (refl, refl)
step_keeps r (Op.read into) = (refl, refl)
step_keeps r (Op.consume n) = (refl, refl)
step_keeps r Op.fill_buf = (refl, refl)

calls_keep :
    (r : InfiniteRing) (ops : List Op)
    → ((after_calls r ops).ptr ≡ r.ptr) × ((after_calls r ops).len ≡ r.len)
unfolding after_calls
calls_keep r [] = (refl, refl)
calls_keep r (op ∷ ops) =
    let (p, l) = step_keeps r op in let (ps, ls) = calls_keep (step r op).1 ops in (ps ∙ p, ls ∙ l)

-- Whatever is called before it, the drop unmaps the whole mapping.
pub drop-calls :
    {St S : Type 0} (os : RingPlatform St S) (r : InfiniteRing) (ops : List Op) (st : St)
    → drop os (after_calls r ops) st ≡ (os.unmap_ring r.ptr r.len st).1
unfolding drop write_capacity
drop-calls os r ops st = let (same_ptr, same_len) = calls_keep r ops in rw (same_ptr, same_len) refl

-- `Ring::new` made `r`, and `st1` is the state then. Of the ring, and of the infinite ring that
-- `InfiniteRing::new` makes in its place, the drop gives back what was taken, after the calls `ops`
-- and `infinite_ops`.
pub record GivenBack {St S : Type 0} (os : RingPlatform St S) (Back : St → ℕ → ℕ → St → St → Type 0)
    (s : Size) (hint : ℕ) (st : St) (r : Ring) (st1 : St) (ops : List Calls.Op)
    (infinite_ops : List Op) : Type 0 where
  pub ring : Back st r.ptr r.len st1 (Ring.drop os (Life.after_calls r ops) st1)
  pub infinite_made : new s os hint st ≡ (ok (emptied r), st1)
  pub infinite : Back st r.ptr r.len st1 (drop os (after_calls (emptied r) infinite_ops) st1)

-- What is made, used in any way and dropped is given back. The hint is not 0, twice the hint and a
-- unit fit a word, the allocation unit is a power of two, and the platform keeps to `GivesBack`.
pub rings-GivenBack :
    {St S : Type 0} {os : RingPlatform St S} {Back : St → ℕ → ℕ → St → St → Type 0} (s : Size)
    (hint : ℕ) (ops : List Calls.Op) (infinite_ops : List Op) (st : St) {r : Ring} {st1 : St}
    → GivesBack os s.unit Back
    → IsUnit s
    → 0 < hint
    → 2 * (hint + s.unit) ≤ word
    → Ring.new s os hint st ≡ (ok r, st1)
    → GivenBack os Back s hint st r st1 ops infinite_ops
rings-GivenBack {St} {S} {os} {Back} s hint ops infinite_ops st {r} {st1} gives u pos h e =
    let back = unmap-Back s hint st gives u pos h e in
    record {
      ring = subst (Back st r.ptr r.len st1) (sym (Life.drop-calls os r ops st1)) back;
      infinite_made = new_alike os s hint st ∙ ap (λ p. (emptied_result p.0, p.1)) e;
      infinite =
          subst (Back st r.ptr r.len st1) (sym (drop-calls os (emptied r) infinite_ops st1)) back;
    }
