-- ===== src/Map/Windows/Tests.antt =====
-- src/map.rs over the process of the tests and a file of 100000 bytes whose length cannot be changed.
use native.Mathlib.Nat.{mul-mod_left}
use vmap_rs.Prelude.{
  ℕ, ◌+◌, ◌*◌, ◌/◌, ◌%◌, ◌^◌, ◌≡◌, refl, sym, ap, subst, some, true, false, arith,
}
use vmap_rs.Word.{add_word}
use vmap_rs.Std.{ok, err, ErrorKind, io_error}
use vmap_rs.Size.{Size}
use vmap_rs.Size.Units.{IsUnit, truncate-eq-sub}
use vmap_rs.Types.{Extent, Protect}
use vmap_rs.Os.{Files, ◌>>=◌, pure}
use vmap_rs.Os.Windows as W
use vmap_rs.Os.Windows.{windows}
use vmap_rs.Os.Windows.Lifetime.{ViewPlaced, TakenAway}
use vmap_rs.Os.Windows.Views.{View, Vacant, put_view}
use vmap_rs.Os.Windows.World.{
  World, api, proc, views, api-WinapiLaws, fresh, map_file-fresh, last_file, put_there, place,
  has_room,
}
use vmap_rs.Map as Map
use vmap_rs.Map.{MapMut, map_mut_from_ptr}
use vmap_rs.Map.Options.{Options, map_if, map_range, map_part, match_resize, match_len}
use vmap_rs.Map.Options.Extents.{FileLaws}
use vmap_rs.Map.Windows.{FilesKeep, Lies, windows_map}

abbrev page_4k : Size
page_4k = record { unit = 4096 }

abbrev unit_64k : Size
unit_64k = record { unit = 65536 }

unit_64k-IsUnit : IsUnit unit_64k
unit_64k-IsUnit = record { log = 16; log_small = omega arith; is_pow = refl }

abbrev files : Files World
files = record {
  open_path = λ opts path w. (ok 3, w);
  metadata_len = λ f w. (ok 100000, w);
  set_len = λ f n w. (err (io_error ErrorKind.invalid_input), w);
}

laws : FileLaws files (λ f w. 100000)
laws = record {
  on_metadata = λ f k n k' e. (sym (ap (λ q. elim q.0 [ ok n ↦ n | err _ ↦ 0 ]) e), refl);
  on_set = λ f n k u k' e. cc;
  fits = λ f k. omega arith;
}

files-FilesKeep : FilesKeep files proc
files-FilesKeep = record {
  metadata_keeps = λ f w n w' e.
      let same : w ≡ w' = ap (λ q. q.1) e in
      record {
        views = sym (ap views same);
        reserved = sym (ap (λ w. w.reserved) same);
        handles = sym (ap (λ w. w.handles) same);
      };
  set_keeps = λ f n w u w' e. cc;
}

api-ViewPlaced : ViewPlaced api unit_64k
api-ViewPlaced = record {
  view_placed = λ map access high low len w p w' e nz.
      let v : View = record {
        map = map;
        file = last_file w.handles;
        off = high * 2 ^ 32 + low;
        size = len;
      } in
      let (at, fits) = put_there (has_room (place 0 w) len w) 0 v w p w' refl e nz in
      (subst (λ x. x % 65536 ≡ 0) at (mul-mod_left (w.top / 65536 + 1) 65536), omega (arith, fits));
}

abbrev part : Options
part = record {
  open_options = record {
    read = true;
    write = false;
    create = false;
    create_new = false;
    truncate = false;
  };
  resize = Extent.end;
  len = Extent.min 100;
  offset = 70000;
  protect = Protect.read_only;
  truncate = false;
}

-- 30000 bytes of the file from 70000 on.
abbrev mapped_part : MapMut
mapped_part = record { ptr = 70000; len = 30000 }

abbrev mapped : World
mapped = (W.map_file api 3 65536 34464 Protect.read_only fresh).1

map_if-part :
    map_if (windows api) files page_4k unit_64k part 3 fresh ≡ (ok (some mapped_part), mapped)
unfolding map_if map_range map_part match_resize match_len windows
map_if-part = rw (truncate-eq-sub {s = unit_64k} 70000 unit_64k-IsUnit (omega arith)) (
    ap
      (λ p.
        ((λ (_ : World). p) >>= λ ptr.
        pure (some (record { ptr = add_word ptr 4464; len = 30000 })))
          fresh)
      map_file-fresh)

windows_map_example :
    (base : ℕ) × (v : View) × Lies 3 70000 mapped_part base v
    × Vacant (views fresh) base v.size
    × (views mapped ≡ put_view base (some v) (views fresh))
    × TakenAway api proc fresh base mapped
        (Map.drop (windows api) page_4k unit_64k mapped_part mapped)
windows_map_example =
    windows_map api files unit_64k api-WinapiLaws api-ViewPlaced files-FilesKeep page_4k part 3
      fresh mapped_part mapped laws unit_64k-IsUnit (omega arith) map_if-part (omega arith)
