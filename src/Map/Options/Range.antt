-- ===== src/Map/Options/Range.antt =====
-- Which bytes of a file `map_if` of src/map.rs maps, and when it maps none.
use vmap_rs.Prelude.{
  ℕ, ◌+◌, ◌-◌, ◌%◌, ◌<◌, ◌≤◌, ◌≡◌, refl, sym, ap, ◌∙◌, inl, inr, min, max, Bool, ◌&&◌, Option, none,
  some, ltb, if◌then◌else◌, ltb→lt, ltb-false→le, Bool-cases, arith,
}
use vmap_rs.Word.{word, add_word, sub_word}
use vmap_rs.Size
use vmap_rs.Size.{Size}
use vmap_rs.Size.Units.{IsUnit, truncate-add-offset}
use vmap_rs.Std.{IoError, Result, ok, err}
use vmap_rs.Error.{Error}
use vmap_rs.Types.{Extent}
use vmap_rs.Os.{Platform, Files, Call, ◌>>=◌, bind_post, fs_post, fs_bind_post, pure}
use vmap_rs.Map.{FromPtr}
use vmap_rs.Map.Options.{
  Options, set_file_len, match_resize, map_part, map_range, map_if, map_file_err,
}
use vmap_rs.Map.Options.Extents.{
  FileLaws, FileSteps, here, by_metadata, by_set, resized, final_len, least, chosen, match_len_lem,
}

module _ {St S : Type 0} (os : Platform St S) (files : Files St) (page alloc : Size) (T : Type 0)
    ⦃t : FromPtr T⦄ {len_of : ℕ → St → ℕ} (laws : FileLaws files len_of) (u : IsUnit alloc) where
  -- A map of the file `f` of `total` bytes, made by one call of `os::map_file` that begins at a
  -- multiple of the allocation unit and ends where the map ends, inside the file.
  pub record MapsPart (o : Options) (f : ℕ) (start : St) (total : ℕ) (m : T) (st' : St)
      : Type 0 where
    pub before : St
    pub steps : FileSteps files f start before
    pub base : ℕ
    pub mapoff : ℕ
    pub maplen : ℕ
    pub call : os.map_file f mapoff maplen o.protect before ≡ (ok base, st')
    pub sized : len_of f before ≡ total
    pub made : m ≡ t.from_ptr (add_word base (o.offset - mapoff)) (chosen o.len (total - o.offset))
    pub aligned : mapoff % alloc.unit ≡ 0
    pub near : (mapoff ≤ o.offset) × (o.offset < mapoff + alloc.unit)
    pub ends : mapoff + maplen ≡ o.offset + chosen o.len (total - o.offset)
    pub inside : o.offset + chosen o.len (total - o.offset) ≤ total
    pub enough : o.offset + least o.len ≤ total

  -- The call that failed last: one of `std::fs`, whose error names `MapFile`, or `os::map_file`.
  pub data Failed (o : Options) (f : ℕ) (st' : St) : Error S → Type 0 where
    no_length :
        (x : IoError) (before : St)
        → files.metadata_len f before ≡ (err x, st')
        → Failed o f st' (map_file_err x)
    no_resize :
        (x : IoError) (n : ℕ) (before : St)
        → files.set_len f n before ≡ (err x, st')
        → Failed o f st' (map_file_err x)
    no_map :
        (e : Error S) (off len : ℕ) (before : St)
        → os.map_file f off len o.protect before ≡ (err e, st')
        → Failed o f st' e

  -- The outcome for a file that has `total` bytes when it is to be mapped.
  abbrev pub Maps : Options → ℕ → St → ℕ → Result (Option T) (Error S) × St → Type 0
  Maps o f start total (ok none, st') = (total < o.offset + least o.len) × (len_of f st' ≡ total)
  Maps o f start total (ok (some m), st') = MapsPart o f start total m st'
  Maps o f start total (err e, st') = Failed o f st' e

  map_part-Maps :
      (o : Options) (f : ℕ) {start : St} (total : ℕ) (st : St)
      → FileSteps files f start st
      → total < word
      → len_of f st ≡ total
      → o.offset ≤ total
      → least o.len ≤ total - o.offset
      → chosen o.len (total - o.offset) ≤ total - o.offset
      → Maps o f start total
          (map_part os files page alloc {T = T} o f (chosen o.len (total - o.offset)) st)
  unfolding map_part
  map_part-Maps o f {start} total st steps small e le need fit =
      let off = o.offset in
      let len = chosen o.len (total - off) in
      let mapoff = Size.truncate alloc off in
      let (split, aligned, near) = truncate-add-offset off u (omega arith) in
      let gap : sub_word off mapoff ≡ off - mapoff = omega (arith, split) in
      let long : add_word len (sub_word off mapoff) ≡ len + (off - mapoff) =
        omega (arith, split, gap) in
      bind_post (Maps o f start total)
        (os.map_file f mapoff (add_word len (sub_word off mapoff)) o.protect)
        (λ ptr. pure (some (t.from_ptr (add_word ptr (sub_word off mapoff)) len))) st
        (λ ptr st' called. record {
          before = st;
          steps = steps;
          base = ptr;
          mapoff = mapoff;
          maplen = add_word len (sub_word off mapoff);
          call = called;
          sized = e;
          made = ap (λ d. t.from_ptr (add_word ptr d) len) gap;
          aligned = aligned;
          near = omega (arith, split, near);
          ends = omega (arith, split, long);
          inside = omega arith;
          enough = omega arith;
        })
        (λ e st' failed. no_map e mapoff (add_word len (sub_word off mapoff)) st failed)

  map_range-Maps :
      (o : Options) (f : ℕ) {start : St} (total : ℕ) (st : St)
      → FileSteps files f start st
      → total < word
      → len_of f st ≡ total
      → Maps o f start total (map_range os files page alloc {T = T} o f total st)
  unfolding map_range
  map_range-Maps o f {start} total st steps small e = elim (Bool-cases (ltb total o.offset)) [
    | inl h ↦ rw h (omega (arith, ltb→lt total o.offset h), e)
    | inr h ↦
        let le = ltb-false→le total o.offset h in
        let room : sub_word total o.offset ≡ total - o.offset = omega (arith, le) in
        rw (h, room)
          (elim (match_len_lem o.len (total - o.offset)) [
            | inl (out, short) ↦ rw out (omega (arith, le, short), e)
            | inr (got, need, fit) ↦ rw got (map_part-Maps o f total st steps small e le need fit)
          ])
  ]

  -- `resize`, where it succeeds, gives the length that the file has then.
  set_file_len_then :
      (o : Options) (f : ℕ) {start : St} (sz total : ℕ) (k : ℕ → Call St S (Option T)) (st : St)
      → FileSteps files f start st
      → ((n : ℕ) (st' : St)
          → FileSteps files f start st'
          → n ≡ sz
          → len_of f st' ≡ sz
          → Maps o f start total (k n st'))
      → Maps o f start total ((set_file_len os files page alloc f sz >>= k) st)
  unfolding set_file_len
  set_file_len_then o f {start} sz total k st steps next =
      fs_bind_post (Maps o f start total) map_file_err (files.set_len f sz) (λ _. pure sz) k st
        (λ v st' e. next sz st' (by_set sz v steps e) refl (laws.on_set f sz st v st' e))
        (λ x st' failed. no_resize x sz st failed)

  match_resize_then :
      (o : Options) (x : Extent) (f : ℕ) {start : St} (flen : ℕ) (k : ℕ → Call St S (Option T))
      (st : St)
      → FileSteps files f start st
      → len_of f st ≡ flen
      → ((n : ℕ) (st' : St)
          → FileSteps files f start st'
          → n ≡ resized x flen
          → len_of f st' ≡ resized x flen
          → Maps o f start (resized x flen) (k n st'))
      → Maps o f start (resized x flen) ((match_resize os files page alloc x f flen >>= k) st)
  unfolding match_resize
  match_resize_then o Extent.end f {start} flen k st steps e next = next flen st steps refl e
  match_resize_then o (Extent.exact sz) f {start} flen k st steps e next =
      set_file_len_then o f sz sz k st steps next
  match_resize_then o (Extent.min sz) f {start} flen k st steps e next =
      elim (Bool-cases (ltb flen sz)) [
        | inl h ↦
            let m : max sz flen ≡ sz = omega (arith, ltb→lt flen sz h) in
            rw h (
              set_file_len_then o f sz (max sz flen) k st steps
                (λ n st' more a b. next n st' more (a ∙ sym m) (b ∙ sym m)))
        | inr h ↦
            let m : max sz flen ≡ flen = omega (arith, ltb-false→le flen sz h) in
            rw h (next flen st steps (sym m) (e ∙ sym m))
      ]
  match_resize_then o (Extent.max sz) f {start} flen k st steps e next =
      elim (Bool-cases (ltb sz flen)) [
        | inl h ↦
            let m : min sz flen ≡ sz = omega (arith, ltb→lt sz flen h) in
            rw h (
              set_file_len_then o f sz (min sz flen) k st steps
                (λ n st' more a b. next n st' more (a ∙ sym m) (b ∙ sym m)))
        | inr h ↦
            let m : min sz flen ≡ flen = omega (arith, ltb-false→le sz flen h) in
            rw h (next flen st steps (sym m) (e ∙ sym m))
      ]

  truncate_then :
      (o : Options) (b : Bool) (f : ℕ) {start : St} (flen total : ℕ) (k : ℕ → Call St S (Option T))
      (st : St)
      → FileSteps files f start st
      → len_of f st ≡ flen
      → ((n : ℕ) (st' : St)
          → FileSteps files f start st'
          → n ≡ (if b then 0 else flen)
          → len_of f st' ≡ n
          → Maps o f start total (k n st'))
      → Maps o f start total
          (((if b && ltb 0 flen then set_file_len os files page alloc f 0 else pure flen) >>= k) st)
  truncate_then o b f {start} flen total k st steps e next = elim (Bool-cases b) [
    | inl h ↦ elim (Bool-cases (ltb 0 flen)) [
      | inl g ↦
          rw (h, g)
            (set_file_len_then o f 0 total k st steps
              (λ n st' more a c. next n st' more (rw h a) (c ∙ sym a)))
      | inr g ↦ rw (h, g) (next flen st steps (rw h (omega (arith, ltb-false→le 0 flen g))) e)
    ]
    | inr h ↦ rw h (next flen st steps (rw h refl) e)
  ]

  -- `map_if` first brings the file to the length that `truncate` and `resize` ask for. It gives
  -- `None` exactly if the offset and the bytes that `len` insists on lie past that length; else the
  -- map is the chosen part of the file from the offset on, which lies inside the file, and which
  -- one call of `os::map_file` covers from the allocation unit at or below the offset. It fails
  -- only where `metadata`, `set_len` or `os::map_file` failed last, with that call's error. The
  -- allocation unit is a power of two, and `std::fs` keeps to `FileLaws`.
  pub map_if-Maps :
      (o : Options) (f : ℕ) (st : St)
      → Maps o f st (final_len o (len_of f st)) (map_if os files page alloc {T = T} o f st)
  unfolding map_if
  map_if-Maps o f st =
      let next = map_range os files page alloc {T = T} o f in
      fs_post (Maps o f st (final_len o (len_of f st))) map_file_err (files.metadata_len f)
        (λ flen.
          (if o.truncate && ltb 0 flen then set_file_len os files page alloc f 0 else pure flen)
          >>= λ flen'. match_resize os files page alloc o.resize f flen' >>= next)
        st
        (λ flen st' got.
          let (now, kept) = laws.on_metadata f st flen st' got in
          truncate_then o o.truncate f flen (final_len o (len_of f st))
            (λ flen'. match_resize os files page alloc o.resize f flen' >>= next) st'
            (by_metadata flen here got) (kept ∙ sym now)
            (λ n st'' more is_n len_n.
              let total : resized o.resize n ≡ final_len o (len_of f st) =
                ap (λ x. resized o.resize x) (is_n ∙ ap (λ x. if o.truncate then 0 else x) now) in
              rw⁻¹ total (
                match_resize_then o o.resize f n next st'' more len_n (λ m st3 most is_m len_m.
                  rw⁻¹ is_m (
                    map_range-Maps o f m st3 most (omega (arith, laws.fits f st3, is_m, len_m))
                      (len_m ∙ sym is_m))))))
        (λ x st' failed. no_length x st failed)
