-- ===== src/Map/Unix/Tests.antt =====
-- src/map.rs over the kernel of the tests and a file of 10000 bytes whose length cannot be changed.
use native.Mathlib.Nat.{mul-mod_left}
use vmap_rs.Prelude.{
  [], ◌∷◌, ℕ, ◌+◌, ◌/◌, ◌%◌, ◌≡◌, refl, sym, ap, ◌∙◌, subst, ◌⊎◌, some, true, false, arith,
}
use vmap_rs.Std.{ok, err, ErrorKind, io_error}
use vmap_rs.Size.{Size}
use vmap_rs.Size.Units.{IsUnit, truncate-eq-sub, round_least}
use vmap_rs.Types.{Extent, Protect}
use vmap_rs.Os.{Files}
use vmap_rs.Os.Kernel.{Kernel, space, libc, mmap_ok, cleared, beyond}
use vmap_rs.Os.Space.{put, put-in, put-below, put-above, own, shown, backed}
use vmap_rs.Os.Unix.{unix, map_file, file_flags, result}
use vmap_rs.Map.{MapMut, map_mut_from_ptr, drop}
use vmap_rs.Map.Options.{Options, map_if, map_range, map_part, match_resize, match_len}
use vmap_rs.Map.Options.Extents.{FileLaws}
use vmap_rs.Map.Unix.{UnixLaws, Stuck, unix_map}

abbrev page_4k : Size
page_4k = record { unit = 4096 }

page_4k-IsUnit : IsUnit page_4k
page_4k-IsUnit = record { log = 12; log_small = omega arith; is_pow = refl }

abbrev files : Files Kernel
files = record {
  open_path = λ opts path k. (ok 3, k);
  metadata_len = λ f k. (ok 10000, k);
  set_len = λ f n k. (err (io_error ErrorKind.invalid_input), k);
}

laws : FileLaws files (λ f k. 10000)
laws = record {
  on_metadata = λ f k n k' e. (sym (ap (λ q. elim q.0 [ ok n ↦ n | err _ ↦ 0 ]) e), refl);
  on_set = λ f n k u k' e. cc;
  fits = λ f k. omega arith;
}

libc-UnixLaws : UnixLaws libc files page_4k space
libc-UnixLaws = record {
  map_ok = λ len prot flags fd off k p k' e free.
      let f = shown fd off in
      let m = mmap_ok flags.fixed 0 len f k p k' e in
      let at = m.from free in
      let up = (round_least len page_4k-IsUnit (omega (arith, m.fits))).0 in
      (
        subst (λ x. x % 4096 ≡ 0) (sym at) (mul-mod_left ((k.top + 4095) / 4096) 4096),
        m.fits,
        λ i h. ap (λ s. s (p + i)) m.shows ∙ put-in p len f (space k) i h,
        (
          λ a h. ap (λ s. s a) m.shows ∙ put-below p len f (space k) a h,
          λ a h. ap (λ s. s a) m.shows ∙ put-above p len f (space k) a (omega (arith, up, h)),
        ),
        λ a h _. beyond k a (omega (arith, at, h)),
      );
  unmap_ok = λ p len k r k' e whole. sym (ap (λ q. space q.1) e) ∙ cleared k p len;
  unmap_fail = λ p len k k' e whole. cc;
  metadata_keeps = λ f k n k' e. sym (ap (λ q. space q.1) e);
  set_keeps = λ f n k u k' e. cc;
}

abbrev part : Options
part = record {
  open_options = record {
    read = true;
    write = false;
    create = false;
    create_new = false;
    truncate = false;
  };
  resize = Extent.end;
  len = Extent.min 100;
  offset = 5000;
  protect = Protect.read_only;
  truncate = false;
}

abbrev start : Kernel
start = record { cells = λ _. own; top = 65000; fds = 3 ∷ [] }

-- 5000 bytes of the file from 5000 on.
abbrev made : MapMut
made = record { ptr = 66440; len = 5000 }

abbrev mapped : Kernel
mapped = record {
  cells = put 65536 5904 (shown (some 3) 4096) (space start);
  top = 71440;
  fds = 3 ∷ [];
}

map_if-part : map_if (unix libc) files page_4k page_4k part 3 start ≡ (ok (some made), mapped)
unfolding map_if map_range map_part match_resize match_len unix map_file file_flags result
map_if-part = rw (truncate-eq-sub {s = page_4k} 5000 page_4k-IsUnit (omega arith)) refl

unix_map_example :
    (space mapped (66440 + 7) ≡ backed 3 (5000 + 7))
    × (((a : ℕ) → space (drop (unix libc) page_4k page_4k made mapped) a ≡ space start a)
        ⊎ Stuck libc files page_4k libc-UnixLaws start made mapped
            (drop (unix libc) page_4k page_4k made mapped))
unix_map_example =
    unix_map libc files page_4k libc-UnixLaws page_4k part 3 start made mapped 7 laws page_4k-IsUnit
      map_if-part (omega arith)
