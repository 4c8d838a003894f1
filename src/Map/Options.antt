-- ===== src/Map/Options.antt =====
-- `Options` of src/map.rs: which part of a file, or of fresh memory, becomes a map.
pub mod Extents
pub mod Range
pub mod Alloc
pub mod Open
mod Tests
use Prim.Native.String.{String}
use vmap_rs.Prelude.{ℕ, min, Bool, true, false, ◌&&◌, Option, none, some, ltb, if◌then◌else◌}
use vmap_rs.Word.{add_word, sub_word}
use vmap_rs.Size
use vmap_rs.Size.{Size}
use vmap_rs.Std.{Result, ok, err, IoError}
use vmap_rs.Error.{Error, Operation, Input, of_input, of_io}
use vmap_rs.Types.{Protect, Extent}
use vmap_rs.Os.{Platform, Files, OpenOptions, Call, ◌>>=◌, ◌>>◌, fail, pure, map_err_call}
use vmap_rs.Map.{FromPtr}

pub record Options : Type 0 where
  pub open_options : OpenOptions
  pub resize : Extent
  pub len : Extent
  pub offset : ℕ
  pub protect : Protect
  pub truncate : Bool

pub new : Options
new = record {
  open_options = record {
    read = true;
    write = false;
    create = false;
    create_new = false;
    truncate = false;
  };
  resize = Extent.end;
  len = Extent.end;
  offset = 0;
  protect = Protect.read_only;
  truncate = false;
}

-- `Options::default()`
pub default : Options
default = new

-- `Map::with_options()`
pub with_options : Options
with_options = new

set_write : OpenOptions → Bool → OpenOptions
set_write p b = record p { write = b }

pub write : Options → Options
unfolding set_write
write o = record o { open_options = set_write o.open_options true; protect = Protect.read_write }

pub copy : Options → Options
unfolding set_write
copy o = record o { open_options = set_write o.open_options false; protect = Protect.read_copy }

set_create : OpenOptions → Bool → OpenOptions
set_create p b = record p { create = b }

pub create : Options → Bool → Options
unfolding set_create
create o b = record o { open_options = set_create o.open_options b }

set_create_new : OpenOptions → Bool → OpenOptions
set_create_new p b = record p { create_new = b }

pub create_new : Options → Bool → Options
unfolding set_create_new
create_new o b = record o { open_options = set_create_new o.open_options b }

set_truncate : OpenOptions → Bool → OpenOptions
set_truncate p b = record p { truncate = b }

pub truncate : Options → Bool → Options
unfolding set_truncate
truncate o b = record o { open_options = set_truncate o.open_options b; truncate = b }

pub offset : Options → ℕ → Options
offset o n = record o { offset = n }

pub len : Options → Extent → Options
len o value = record o { len = value }

pub resize : Options → Extent → Options
resize o value = record o { resize = value }

-- `MapMut::with_options()`
pub with_options_mut : Options
with_options_mut = write new

pub map_file_err : {S : Type 0} → IoError → Error S
map_file_err e = of_io Operation.map_file e

-- The `match self.len` of `map_if`: the length to map, of at most `max` bytes.
unfoldable pub match_len : Extent → ℕ → Option ℕ
match_len (Extent.min l) max = if ltb max l then none else some max
match_len (Extent.exact l) max = if ltb max l then none else some l
match_len Extent.end max = some max
match_len (Extent.max l) max = some (min l max)

-- The `match self.len` of `alloc`.
pub alloc_len : Size → Extent → ℕ → ℕ
alloc_len alloc Extent.end off = sub_word (Size.round alloc (add_word off 1)) off
alloc_len alloc (Extent.min l) off = sub_word (Size.round alloc (add_word off l)) off
alloc_len alloc (Extent.max l) off = l
alloc_len alloc (Extent.exact l) off = l

-- `page` and `alloc_size` are `Size::page()` and `Size::alloc()`.
module _ {St S : Type 0} (os : Platform St S) (files : Files St) (page alloc_size : Size) where
  -- The closure `resize` of `map_if`: the new length, once it is set.
  pub set_file_len : ℕ → ℕ → Call St S ℕ
  set_file_len f sz = do map_err_call map_file_err (files.set_len f sz); pure sz

  -- The `match self.resize`.
  unfoldable pub match_resize : Extent → ℕ → ℕ → Call St S ℕ
  match_resize (Extent.exact sz) f flen = set_file_len f sz
  match_resize (Extent.min sz) f flen = if ltb flen sz then set_file_len f sz else pure flen
  match_resize (Extent.max sz) f flen = if ltb sz flen then set_file_len f sz else pure flen
  match_resize Extent.end f flen = pure flen

  module _ {T : Type 0} ⦃t : FromPtr T⦄ where
    -- The tail of `map_if`, where `len` bytes from the offset are to be mapped.
    unfoldable pub map_part : Options → ℕ → ℕ → Call St S (Option T)
    map_part o f len =
        let off = o.offset in
        let mapoff = Size.truncate alloc_size off in
        let maplen = add_word len (sub_word off mapoff) in
        do
          ptr ← os.map_file f mapoff maplen o.protect
          pure (some (t.from_ptr (add_word ptr (sub_word off mapoff)) len))

    -- The range check, for a file of `flen` bytes.
    unfoldable pub map_range : Options → ℕ → ℕ → Call St S (Option T)
    map_range o f flen =
        if ltb flen o.offset then pure none else elim (match_len o.len (sub_word flen o.offset)) [
          | none ↦ pure none
          | some len ↦ map_part o f len
        ]

    unfoldable pub map_if : Options → ℕ → Call St S (Option T)
    map_if o f = do
      flen ← map_err_call map_file_err (files.metadata_len f)
      flen' ← if o.truncate && ltb 0 flen then set_file_len f 0 else pure flen
      flen'' ← match_resize o.resize f flen'
      map_range o f flen''

    pub or_invalid : Option T → Call St S T
    or_invalid (some m) = pure m
    or_invalid none = fail (of_input Operation.map_file Input.invalid_range)

    pub map : Options → ℕ → Call St S T
    map o f = do m ← map_if o f; or_invalid m

    -- `open`
    pub open_file : Options → String → Call St S (T × ℕ)
    open_file o path = do
      f ← map_err_call map_file_err (files.open_path o.open_options path)
      m ← map o f
      pure (m, f)

    pub open_if : Options → String → Call St S (Option T × ℕ)
    open_if o path = do
      f ← map_err_call map_file_err (files.open_path o.open_options path)
      m ← map_if o f
      pure (m, f)

    pub alloc : Options → Call St S T
    alloc o =
        let off = Size.offset page o.offset in
        let len = alloc_len alloc_size o.len off in
        do ptr ← os.map_anon (add_word off len) o.protect; pure (t.from_ptr (add_word ptr off) len)

-- `MapMut::new`
pub new_map_mut :
    {St S T : Type 0} → Platform St S → Files St → Size → Size → ⦃t : FromPtr T⦄ → ℕ → Call St S T
new_map_mut os files page alloc_size hint =
    alloc os files page alloc_size (len with_options_mut (Extent.min hint))
