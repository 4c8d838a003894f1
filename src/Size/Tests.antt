-- ===== src/Size/Tests.antt =====
-- `Size` of src/lib.rs on pages of 4096 bytes.
use vmap_rs.Prelude.{ℕ, ◌+◌, ◌%◌, ◌<◌, ◌≤◌, ◌≡◌, refl, inl, arith}
use vmap_rs.Size.{Size, Statics, statics_init, truncate, round, bounds, page_size, allocation_size}
use vmap_rs.Size.Units.{IsUnit, round_least, round_wraps}
use vmap_rs.Size.Regions.{bounds_cover}
use vmap_rs.Size.Cache.{IsCached, Reach, here, next, store_page, sizes_agree}

abbrev page_4k : Size
page_4k = record { unit = 4096 }

page_4k-IsUnit : IsUnit page_4k
page_4k-IsUnit = record { log = 12; log_small = omega arith; is_pow = refl }

round_least_example :
    (5000 ≤ round page_4k 5000)
    × (round page_4k 5000 % 4096 ≡ 0)
    × ((m : ℕ) → 5000 ≤ m → m % 4096 ≡ 0 → round page_4k 5000 ≤ m)
round_least_example = round_least 5000 page_4k-IsUnit (omega arith)

round_wraps_example : round page_4k 18446744073709551615 ≡ 0
round_wraps_example = round_wraps 18446744073709551615 page_4k-IsUnit (omega arith) (omega arith)

round-value : round page_4k 5000 ≡ 8192
unfolding round truncate
round-value = refl

bounds_cover_example :
    let (base, n) = bounds page_4k 5000 10000 in
    (base % 4096 ≡ 0)
    × (n % 4096 ≡ 0)
    × (base ≤ 5000)
    × (5000 < base + 4096)
    × (15000 ≤ base + n)
    × (base + n < 19096)
bounds_cover_example = bounds_cover 5000 10000 page_4k-IsUnit (omega arith)

init-IsCached : IsCached (4096, 65536) statics_init
init-IsCached = record { page_ok = inl refl; alloc_ok = inl refl }

-- Another thread is between its two stores.
abbrev half_loaded : Statics
half_loaded = record { page_cell = 4096; alloc_cell = 0 }

half_loaded-Reach : Reach (4096, 65536) statics_init half_loaded
half_loaded-Reach = next here (store_page statics_init)

sizes_agree_example :
    ((page_size (4096, 65536) half_loaded).0 ≡ 4096)
    × ((allocation_size (4096, 65536) half_loaded).0 ≡ 65536)
    × IsCached (4096, 65536) (page_size (4096, 65536) half_loaded).1
    × IsCached (4096, 65536) (allocation_size (4096, 65536) half_loaded).1
sizes_agree_example = sizes_agree (4096, 65536) init-IsCached half_loaded-Reach
