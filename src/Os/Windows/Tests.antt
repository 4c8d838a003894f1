-- ===== src/Os/Windows/Tests.antt =====
-- src/os/windows.rs over the process of the tests.
use vmap_rs.Prelude.{ℕ, ◌≡◌, refl, replicate, List, [], ◌∷◌, none, some, arith}
use vmap_rs.Std.{ok}
use vmap_rs.Os.{RingPlatform}
use vmap_rs.Size as Size
use vmap_rs.Size.{Size, round}
use vmap_rs.Size.Units.{IsUnit}
use vmap_rs.Io.Calls as Calls
use vmap_rs.Io.Ring as Ring
use vmap_rs.Io.Ring.{Ring}
use vmap_rs.Io.Ring.Windows.{windows, windows_rings}
use vmap_rs.Io.InfiniteRing.Queue.{Op}
use vmap_rs.Io.InfiniteRing.Lifetime.{GivenBack}
use vmap_rs.Types.{Protect}
use vmap_rs.Os.Windows as W
use vmap_rs.Os.Windows.{
  map_ring, map_file, map_anon, non_null, drop, attempts, reserve, map_ring_handle, view, view_ptr,
  or_unmap,
}
use vmap_rs.Os.Windows.Ring.{Unmapped, Balanced, windows_ring-Balanced}
use vmap_rs.Os.Windows.Reports.{Viewed, windows_map-Viewed}
use vmap_rs.Os.Windows.World.{World, api, api-WinapiLaws}

abbrev start : World
start = record { table = λ _. none; top = 65535; reserved = []; handles = [] }

windows_ring-Balanced_example : Balanced api api-WinapiLaws 65536 start (map_ring api 65536 start)
windows_ring-Balanced_example =
    windows_ring-Balanced api api-WinapiLaws 65536 start (omega arith) (omega arith)

windows_map-Viewed_example :
    Viewed api api-WinapiLaws
      (some 3)
      131072
      4096
      start
      (map_file api 3 131072 4096 Protect.read_only start)
    × Viewed api api-WinapiLaws none 0 4096 start (map_anon api 4096 Protect.read_only start)
windows_map-Viewed_example =
    windows_map-Viewed api api-WinapiLaws 3 131072 4096 Protect.read_only start (omega arith)
      (omega arith)

abbrev unit_64k : Size
unit_64k = record { unit = 65536 }

unit_64k-IsUnit : IsUnit unit_64k
unit_64k-IsUnit = record { log = 16; log_small = omega arith; is_pow = refl }

abbrev load : World → ℕ → ℕ → List ℕ
load w ptr n = replicate n 0

abbrev os : RingPlatform World ℕ
os = windows api api-WinapiLaws load

abbrev after_new : World
after_new = (map_ring api 65536 start).1

abbrev ring : Ring
ring = record { ptr = 65536; mem = replicate 65536 0; len = 65536; rpos = 0; wpos = 0 }

made : Ring.new unit_64k os 100 start ≡ (ok ring, after_new)
unfolding Ring.new round Size.truncate map_ring W.new non_null drop attempts reserve map_ring_handle
    view view_ptr or_unmap
made = refl

windows_rings_example :
    GivenBack os
      (Unmapped api api-WinapiLaws)
      unit_64k
      100
      start
      ring
      after_new
      (Calls.Op.write (1 ∷ 2 ∷ []) ∷ Calls.Op.consume 1 ∷ [])
      (Op.write_all (1 ∷ 2 ∷ []) ∷ Op.fill_buf ∷ [])
windows_rings_example =
    windows_rings api api-WinapiLaws load unit_64k 100 start
      (Calls.Op.write (1 ∷ 2 ∷ []) ∷ Calls.Op.consume 1 ∷ [])
      (Op.write_all (1 ∷ 2 ∷ []) ∷ Op.fill_buf ∷ []) unit_64k-IsUnit (omega arith) (omega arith)
      made
