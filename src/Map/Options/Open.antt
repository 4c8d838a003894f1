-- ===== src/Map/Options/Open.antt =====
-- `Options::open` and `Options::open_if` of src/map.rs: how they end, on every path.
use Prim.Native.String.{String}
use vmap_rs.Prelude.{ℕ, ◌+◌, ◌<◌, ◌≡◌, refl, ◌⊎◌, inl, inr, Option, none, some}
use vmap_rs.Size.{Size}
use vmap_rs.Size.Units.{IsUnit}
use vmap_rs.Std.{IoError, Result, ok, err}
use vmap_rs.Error.{Error, Operation, Input, of_input}
use vmap_rs.Os.{Platform, Files, ◌>>=◌, pure, fs_post}
use vmap_rs.Map.{FromPtr}
use vmap_rs.Map.Options.{Options, map_if, map, or_invalid, open_file, open_if, map_file_err}
use vmap_rs.Map.Options.Extents.{FileLaws, final_len, least}
use vmap_rs.Map.Options.Range.{MapsPart, Failed, Maps, map_if-Maps}

module _ {St S : Type 0} (os : Platform St S) (files : Files St) (page alloc : Size) (T : Type 0)
    ⦃t : FromPtr T⦄ {len_of : ℕ → St → ℕ} (laws : FileLaws files len_of) (u : IsUnit alloc) where
  -- The file `f` was opened from `st`, in the state `start`.
  pub record Opened (o : Options) (path : String) (st : St) (f : ℕ) (start : St) : Type 0 where
    pub call : files.open_path o.open_options path st ≡ (ok f, start)

  -- The file has not the bytes that the options insist on.
  abbrev pub Short : Options → ℕ → St → Type 0
  Short o f start = final_len o (len_of f start) < o.offset + least o.len

  -- The path could not be opened, or the file was and could not be mapped.
  pub data NotOpened (o : Options) (path : String) (st st' : St) : Error S → Type 0 where
    no_file :
        (x : IoError)
        → files.open_path o.open_options path st ≡ (err x, st')
        → NotOpened o path st st' (map_file_err x)
    no_map :
        (f : ℕ) (start : St) (e : Error S)
        → Opened o path st f start
        → Failed os files page alloc T laws u o f st' e
        → NotOpened o path st st' e

  -- How `open_if` ends, and how `open` does.
  abbrev pub OpensIf : Options → String → St → Result (Option T × ℕ) (Error S) × St → Type 0
  OpensIf o path st (ok (some m, f), st') =
      (start : St) × Opened o path st f start
      × MapsPart os files page alloc T laws u o f start (final_len o (len_of f start)) m st'
  OpensIf o path st (ok (none, f), st') = (start : St) × Opened o path st f start × Short o f start
  OpensIf o path st (err e, st') = NotOpened o path st st' e

  abbrev pub Opens : Options → String → St → Result (T × ℕ) (Error S) × St → Type 0
  Opens o path st (ok (m, f), st') =
      (start : St) × Opened o path st f start
      × MapsPart os files page alloc T laws u o f start (final_len o (len_of f start)) m st'
  Opens o path st (err e, st') =
      NotOpened o path st st' e
      ⊎ ((f : ℕ) × (start : St) × Opened o path st f start
          × Short o f start
          × (e ≡ of_input Operation.map_file Input.invalid_range))

  then_if :
      (o : Options) (path : String) (st : St) (f : ℕ) (start : St)
      (p : Result (Option T) (Error S) × St)
      → Opened o path st f start
      → Maps os files page alloc T laws u o f start (final_len o (len_of f start)) p
      → OpensIf o path st (((λ (_ : St). p) >>= λ m. pure (m, f)) start)
  then_if o path st f start (ok (some m), st') opened part = (start, opened, part)
  then_if o path st f start (ok none, st') opened (short, _) = (start, opened, short)
  then_if o path st f start (err e, st') opened failed = no_map f start e opened failed

  then_open :
      (o : Options) (path : String) (st : St) (f : ℕ) (start : St)
      (p : Result (Option T) (Error S) × St)
      → Opened o path st f start
      → Maps os files page alloc T laws u o f start (final_len o (len_of f start)) p
      → Opens o path st
          ((((λ (_ : St). p) >>= or_invalid os files page alloc) >>= λ m. pure (m, f)) start)
  unfolding or_invalid
  then_open o path st f start (ok (some m), st') opened part = (start, opened, part)
  then_open o path st f start (ok none, st') opened (short, _) = inr (f, start, opened, short, refl)
  then_open o path st f start (err e, st') opened failed = inl (no_map f start e opened failed)

  -- `open_if` and `open` make a map as `map_if` does, of the file as it is once it is open. Where the
  -- file has not the bytes that the options insist on, `open_if` gives `None` and `open` fails with
  -- `InvalidRange`; in all else they fail only where the path could not be opened or `map_if` fails,
  -- with that error. The allocation unit is a power of two, and `std::fs` keeps to `FileLaws`.
  pub open-Opens :
      (o : Options) (path : String) (st : St)
      → OpensIf o path st (open_if os files page alloc {T = T} o path st)
        × Opens o path st (open_file os files page alloc {T = T} o path st)
  unfolding open_if open_file map
  open-Opens o path st = (
    fs_post (OpensIf o path st) map_file_err (files.open_path o.open_options path)
        (λ f. map_if os files page alloc {T = T} o f >>= λ m. pure (m, f)) st
        (λ f start e.
          then_if o path st f start (map_if os files page alloc {T = T} o f start)
            (record { call = e }) (map_if-Maps os files page alloc T laws u o f start))
        (λ x st' e. no_file x e),
    fs_post (Opens o path st) map_file_err (files.open_path o.open_options path)
        (λ f. map os files page alloc {T = T} o f >>= λ m. pure (m, f)) st
        (λ f start e.
          then_open o path st f start (map_if os files page alloc {T = T} o f start)
            (record { call = e }) (map_if-Maps os files page alloc T laws u o f start))
        (λ x st' e. inl (no_file x e)),
  )
