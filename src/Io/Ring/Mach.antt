-- ===== src/Io/Ring/Mach.antt =====
-- `Ring` and `InfiniteRing` of src/io/ring.rs over `map_ring` and `unmap_ring` of src/os/unix/mach.rs.
use vmap_rs.Prelude.{ℕ, List, ◌+◌, ◌*◌, ◌<◌, ◌≤◌, ◌≡◌}
use vmap_rs.Word.{word}
use vmap_rs.Std.{ok}
use vmap_rs.Error.{SystemError}
use vmap_rs.Os.{RingPlatform}
use vmap_rs.Os.Space.{whole_pages, Space}
use vmap_rs.Os.Mach.{Mach, map_ring, unmap_ring}
use vmap_rs.Os.Mach.Space.{MachLaws}
use vmap_rs.Os.Mach.Cleanup.{Unmapped, Leaked}
use vmap_rs.Os.Mach.Balance.{unmap_ring-Unmapped}
use vmap_rs.Size.{Size}
use vmap_rs.Size.Units.{IsUnit}
use vmap_rs.Io.Calls as Calls
use vmap_rs.Io.Ring.{Ring, new}
use vmap_rs.Io.Ring.Lifetime.{GivesBack}
use vmap_rs.Io.InfiniteRing.Queue.{Op}
use vmap_rs.Io.InfiniteRing.Lifetime.{GivenBack, rings-GivenBack}

module _ {St : Type 0} (S : Type 0) ⦃sys : SystemError S⦄ (mach : Mach St) (s : Size)
    {space : St → Space} {ports : St → List ℕ} (laws : MachLaws mach s.unit space ports)
    (load : St → ℕ → ℕ → List ℕ) where
  -- The platform of the rings, of which `load` reads the memory.
  abbrev pub mach_rings_of : RingPlatform St S
  mach_rings_of = record { map_ring = map_ring mach; unmap_ring = unmap_ring mach; load = load }

  -- The address space is as it was, or the `vm_deallocate` failed; and the task holds one port more.
  abbrev pub BackButPort : St → ℕ → ℕ → St → St → Type 0
  BackButPort st pg len made st' = Unmapped mach laws st pg len made st' × Leaked mach laws st st'

  mach-GivesBack : GivesBack mach_rings_of s.unit BackButPort
  mach-GivesBack = record {
    back = λ len st pg st1 pos h whole e.
        unmap_ring-Unmapped mach laws S len st (whole_pages s.unit len whole) pos h e;
  }

  -- A ring that `Ring::new` made over Mach, or an infinite ring that `InfiniteRing::new` made in its
  -- place: whatever the client calls before it drops it, the address space is then as it was before,
  -- unless the `vm_deallocate` of the drop failed, and then so outside of the ring; but the task holds one port more. The hint is not 0, twice the
  -- hint and a page fit a word, the page size is a power of two and the allocation unit, `new`
  -- succeeds, and the system keeps to `MachLaws`.
  pub mach_rings :
      (hint : ℕ) (st : St) (ops : List Calls.Op) (infinite_ops : List Op) {r : Ring} {st1 : St}
      → IsUnit s
      → 0 < hint
      → 2 * (hint + s.unit) ≤ word
      → new s mach_rings_of hint st ≡ (ok r, st1)
      → GivenBack mach_rings_of BackButPort s hint st r st1 ops infinite_ops
  mach_rings hint st ops infinite_ops u pos h e =
      rings-GivenBack s hint ops infinite_ops st mach-GivesBack u pos h e
