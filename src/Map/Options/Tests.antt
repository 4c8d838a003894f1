-- ===== src/Map/Options/Tests.antt =====
-- src/map.rs over a platform of one file, whose state is the length of the file.
use vmap_rs.Prelude.{
  ℕ, ◌+◌, ◌%◌, ◌<◌, ◌≤◌, ◌≡◌, refl, inl, inr, ltb→lt, sym, ap, some, ltb, if◌then◌else◌, Bool-cases,
  arith,
}
use vmap_rs.Word.{word, add_word}
use vmap_rs.Std.{Result, ok, err, ErrorKind, IoResult, io_error}
use vmap_rs.Size
use vmap_rs.Size.{Size}
use vmap_rs.Size.Units.{IsUnit, truncate-eq-sub}
use vmap_rs.Error.{Error, Operation, of_system}
use vmap_rs.Types.{Flush, Advise, Extent}
use vmap_rs.Os.{fail, Platform, Files, Call, pure}
use vmap_rs.Map.{MapMut, map_mut_from_ptr}
use vmap_rs.Map.Convert.{Converts, conversions_alike}
use vmap_rs.Map.Ranges.{Covers, Rejected, Reaches, ranges_checked, ranges_wrap}
use vmap_rs.Map.Options as O
use vmap_rs.Map.Options.{Options, map_if, map_range, map_part, match_resize, match_len}
use vmap_rs.Map.Options.Extents.{FileLaws, final_len}
use vmap_rs.Map.Options.Range.{Maps, map_if-Maps}
use vmap_rs.Map.Options.Open.{OpensIf, Opens, open-Opens}
use vmap_rs.Map.Options.Alloc.{wanted, Allocates, alloc-Allocates}
use vmap_rs.Map.Lifetime.{Places, Dropped, map_if-Dropped}

abbrev page_4k : Size
page_4k = record { unit = 4096 }

page_4k-IsUnit : IsUnit page_4k
page_4k-IsUnit = record { log = 12; log_small = omega arith; is_pow = refl }

abbrev File : Type 0
File = ℕ

-- A length that the file can have.
abbrev capped : ℕ → ℕ
capped n = if ltb n 1000000 then n else 999999

abbrev set_len : ℕ → ℕ → IoResult (Unit {0}) × ℕ
set_len n st = if ltb n 1000000 then (ok tt, n) else (err (io_error ErrorKind.invalid_input), st)

-- It maps at 65536, fewer than a million bytes.
abbrev map_at : ℕ → Call File ℕ ℕ
map_at len st =
    if ltb len 1000000 then (ok 65536, st) else (err (of_system Operation.map_file 12), st)

abbrev one_file : Platform File ℕ
one_file = record {
  system_info = (4096, 4096);
  map_file = λ f off len p. map_at len;
  map_anon = λ len p. map_at len;
  unmap = λ ptr len. pure tt;
  protect = λ ptr len p. pure tt;
  flush = λ ptr file len mode. pure tt;
  advise = λ ptr len adv. pure tt;
  lock = λ ptr len. pure tt;
  unlock = λ ptr len. pure tt;
}

abbrev files : Files File
files = record {
  open_path = λ opts path st. (ok 3, st);
  metadata_len = λ f st. (ok (capped st), st);
  set_len = λ f n. set_len n;
}

abbrev len_of : ℕ → File → ℕ
len_of f st = capped st

capped-lt : (n : ℕ) → capped n < word
capped-lt n = elim (Bool-cases (ltb n 1000000)) [
  | inl h ↦ rw h (omega (arith, ltb→lt n 1000000 h))
  | inr h ↦ rw h (omega arith)
]

set_len-capped : (n st : ℕ) (u : Unit {0}) (st' : ℕ) → set_len n st ≡ (ok u, st') → capped st' ≡ n
set_len-capped n st u st' e = elim (Bool-cases (ltb n 1000000)) [
  | inl h ↦ let same : n ≡ st' = ap (λ p. p.1) (rw h at e) in rw⁻¹ same (rw h refl)
  | inr h ↦
      let bad : Path (IoResult (Unit {0}) × ℕ) (err (io_error ErrorKind.invalid_input), st)
          (ok u, st') =
        rw h at e in
      cc
]

laws : FileLaws files len_of
laws = record {
  on_metadata = λ f st n st' e. (sym (cc), ap capped (sym (ap (λ p. p.1) e)));
  on_set = λ f n st u st' e. set_len-capped n st u st' e;
  fits = λ f st. capped-lt st;
}

map_at-placed :
    (len st base st' : ℕ)
    → map_at len st ≡ (ok base, st')
    → (base % 4096 ≡ 0) × (base + len + 4096 ≤ word)
map_at-placed len st base st' e = elim (Bool-cases (ltb len 1000000)) [
  | inl h ↦
      let good : Path (Result ℕ (Error ℕ) × ℕ) (ok 65536, st) (ok base, st') = rw h at e in
      let same : 65536 ≡ base = cc in (rw⁻¹ same refl, omega (arith, same, ltb→lt len 1000000 h))
  | inr h ↦
      let bad : Path (Result ℕ (Error ℕ) × ℕ) (err (of_system Operation.map_file 12), st)
          (ok base, st') =
        rw h at e in
      cc
]

places : Places one_file page_4k
places = record { placed = λ f off len p st base st' e. map_at-placed len st base st' e }

abbrev part : Options
part = O.offset (O.len O.with_options_mut (Extent.min 100)) 5000

map_if-Maps_example :
    Maps one_file files page_4k page_4k MapMut laws page_4k-IsUnit part 3 10000
      (final_len part (len_of 3 10000))
      (map_if one_file files page_4k page_4k part 3 10000)
map_if-Maps_example =
    map_if-Maps one_file files page_4k page_4k MapMut laws page_4k-IsUnit part 3 10000

-- 5000 bytes of the file from 5000 on, of which the first call maps 5904.
abbrev made : MapMut
made = record { ptr = 66440; len = 5000 }

map_if-part : map_if one_file files page_4k page_4k part 3 10000 ≡ (ok (some made), 10000)
unfolding map_if map_range map_part match_resize match_len O.offset O.len O.with_options_mut O.write
    O.new O.set_write
map_if-part = rw (truncate-eq-sub {s = page_4k} 5000 page_4k-IsUnit (omega arith)) refl

map_if-Dropped_example :
    Dropped one_file files page_4k page_4k laws places page_4k-IsUnit part 3 10000 made 10000
map_if-Dropped_example =
    map_if-Dropped one_file files page_4k page_4k laws places page_4k-IsUnit part 3 10000 made 10000
      map_if-part

ranges_checked_example :
    (5000 < 1900 → Rejected one_file page_4k page_4k made 3 1000 900 Flush.sync Advise.normal)
    × (1900 ≤ 5000
        → (base : ℕ) × (n : ℕ) × Covers page_4k 67440 900 base n
          × Reaches one_file page_4k page_4k made 3 1000 900 Flush.sync Advise.normal base n)
ranges_checked_example =
    ranges_checked one_file page_4k page_4k made 3 1000 900 Flush.sync Advise.normal page_4k-IsUnit
      (omega arith) (omega arith)

-- A range of 5000 bytes that begins 4096 bytes below 2^64.
ranges_wrap_example :
    (5000 < 18446744073709547520 + 5000)
    × Reaches one_file page_4k page_4k made 3 18446744073709547520 5000 Flush.sync Advise.normal
        (Size.bounds page_4k (add_word 66440 18446744073709547520) 5000).0
        (Size.bounds page_4k (add_word 66440 18446744073709547520) 5000).1
ranges_wrap_example =
    ranges_wrap one_file page_4k page_4k made 3 18446744073709547520 5000 Flush.sync Advise.normal
      (omega arith) (omega arith) (omega arith) (omega arith) (omega arith)

alloc_room : 4096 + wanted (O.len O.with_options_mut (Extent.min 6000)).len + 4096 ≤ word
unfolding O.len O.with_options_mut O.write O.new
alloc_room = omega arith

alloc-Allocates_example :
    Allocates one_file page_4k page_4k MapMut
      (O.len O.with_options_mut (Extent.min 6000))
      0
      (O.alloc one_file files page_4k page_4k (O.len O.with_options_mut (Extent.min 6000)) 0)
alloc-Allocates_example =
    alloc-Allocates one_file files page_4k page_4k MapMut page_4k-IsUnit page_4k-IsUnit
      (O.len O.with_options_mut (Extent.min 6000)) 0 alloc_room

-- Twice the bytes that the file has from 5000 on.
abbrev beyond : Options
beyond = O.offset (O.len O.with_options_mut (Extent.min 10000)) 5000

open-Opens_example :
    OpensIf one_file files page_4k page_4k MapMut laws page_4k-IsUnit beyond "file" 10000
      (O.open_if one_file files page_4k page_4k beyond "file" 10000)
    × Opens one_file files page_4k page_4k MapMut laws page_4k-IsUnit beyond "file" 10000
        (O.open_file one_file files page_4k page_4k beyond "file" 10000)
open-Opens_example =
    open-Opens one_file files page_4k page_4k MapMut laws page_4k-IsUnit beyond "file" 10000

-- A platform that lets no page be changed.
abbrev locked : Platform File ℕ
locked = record one_file { protect = λ ptr len p. fail (of_system Operation.protect 13) }

conversions_alike_example :
    (base : ℕ) × (n : ℕ) × Covers page_4k 66440 5000 base n
    × Converts locked page_4k page_4k made 10000 base n
conversions_alike_example =
    conversions_alike locked page_4k page_4k made 10000 page_4k-IsUnit (omega arith)
