-- ===== src/Io/Ring/Windows.antt =====
-- `Ring` and `InfiniteRing` of src/io/ring.rs over `map_ring` and `unmap_ring` of src/os/windows.rs.
use vmap_rs.Prelude.{ℕ, List, ◌+◌, ◌*◌, ◌<◌, ◌≤◌, ◌≡◌}
use vmap_rs.Word.{word}
use vmap_rs.Std.{ok}
use vmap_rs.Os.{RingPlatform}
use vmap_rs.Os.Windows.{Winapi, map_ring, unmap_ring}
use vmap_rs.Os.Windows.Views.{Process, WinapiLaws}
use vmap_rs.Os.Windows.Ring.{Unmapped, unmap_ring-Unmapped}
use vmap_rs.Size.{Size}
use vmap_rs.Size.Units.{IsUnit}
use vmap_rs.Io.Calls as Calls
use vmap_rs.Io.Ring.{Ring, new}
use vmap_rs.Io.Ring.Lifetime.{GivesBack}
use vmap_rs.Io.InfiniteRing.Queue.{Op}
use vmap_rs.Io.InfiniteRing.Lifetime.{GivenBack, rings-GivenBack}

module _ {St S : Type 0} (api : Winapi St S) {proc : Process St} (laws : WinapiLaws api proc)
    (load : St → ℕ → ℕ → List ℕ) where
  -- The platform of the rings, of which `load` reads the memory.
  abbrev pub windows : RingPlatform St S
  windows = record { map_ring = map_ring api; unmap_ring = unmap_ring api; load = load }

  windows-GivesBack : (unit : ℕ) → GivesBack windows unit (Unmapped api laws)
  windows-GivesBack unit = record {
    back = λ len st pg st1 pos h whole e. unmap_ring-Unmapped api laws len st pos h e;
  }

  -- A ring that `Ring::new` made over Windows, or an infinite ring that `InfiniteRing::new` made in
  -- its place: whatever the client calls before it drops it, the reserved pages and the open handles
  -- are then as they were before, and the drop takes both views of the ring away: where its first
  -- call fails both stay, where its second does the lower stays. Apart from these the views are as
  -- they were, except for first views whose `UnmapViewOfFile` failed in an attempt of `new`. The
  -- hint is not 0, twice the hint and a unit fit a word, the allocation unit is a power of two, `new`
  -- succeeds, and the system keeps to `WinapiLaws`.
  pub windows_rings :
      (s : Size) (hint : ℕ) (st : St) (ops : List Calls.Op) (infinite_ops : List Op) {r : Ring}
      {st1 : St}
      → IsUnit s
      → 0 < hint
      → 2 * (hint + s.unit) ≤ word
      → new s windows hint st ≡ (ok r, st1)
      → GivenBack windows (Unmapped api laws) s hint st r st1 ops infinite_ops
  windows_rings s hint st ops infinite_ops u pos h e =
      rings-GivenBack s hint ops infinite_ops st (windows-GivesBack s.unit) u pos h e
