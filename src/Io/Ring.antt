-- ===== src/Io/Ring.antt =====
-- `Ring` of src/io/ring.rs: a bounded buffer over a mirrored mapping.
pub mod Inv
pub mod Contents
pub mod Refine
pub mod New
pub mod Lifetime
pub mod Posix
pub mod Windows
pub mod Mach
use vmap_rs.Prelude.{ℕ, List, ◌%◌, min, length}
use vmap_rs.Word.{add_word, sub_word, max_word}
use vmap_rs.Size
use vmap_rs.Size.{Size}
use vmap_rs.Std.{ok, IoResult}
use vmap_rs.Os.{Call, ◌>>=◌, RingPlatform}
use vmap_rs.Io.Mirror.{view}
use vmap_rs.Io.Traits.{SeqRead, SeqWrite, as_read_slice, read_from, write_into}

-- `mem` is the memory that `ptr` addresses.
pub record Ring : Type 0 where
  pub ptr : ℕ
  pub mem : List ℕ
  pub len : ℕ
  pub rpos : ℕ
  pub wpos : ℕ

-- `alloc` is `Size::alloc()`.
unfoldable pub new : {St S : Type 0} → Size → RingPlatform St S → ℕ → Call St S Ring
new alloc os hint =
    let len = Size.round alloc hint in
    os.map_ring len >>= λ ptr st.
    (ok (record { ptr = ptr; mem = os.load st ptr len; len = len; rpos = 0; wpos = 0 }), st)

pub clear : Ring → Ring
clear r = record r { rpos = 0; wpos = 0 }

pub read_offset : Ring → ℕ
read_offset r = r.rpos % r.len

pub read_len : Ring → ℕ
read_len r = sub_word r.wpos r.rpos

pub write_offset : Ring → ℕ
write_offset r = r.wpos % r.len

pub write_capacity : Ring → ℕ
write_capacity r = r.len

pub write_len : Ring → ℕ
write_len r = sub_word (write_capacity r) (read_len r)

pub feed : Ring → ℕ → Ring
feed r len = record r { wpos = add_word r.wpos (min len (write_len r)) }

pub consume : Ring → ℕ → Ring
consume r len = record r { rpos = add_word r.rpos (min len (read_len r)) }

instance abbrev pub ring_read : SeqRead Ring
ring_read = record {
  as_read_ptr = λ r. r.mem;
  read_offset = read_offset;
  read_len = read_len;
  consume = consume;
}

instance abbrev pub ring_write : SeqWrite Ring
ring_write = record {
  as_write_ptr = λ r. r.mem;
  with_memory = λ r m. record r { mem = m };
  write_offset = write_offset;
  write_len = write_len;
  write_capacity = write_capacity;
  feed = feed;
}

-- The bytes, and the ring past them.
pub read_and_consume : Ring → ℕ → List ℕ × Ring
read_and_consume r n =
    let at = read_offset r in
    let len = min (read_len r) n in
    let r' = record r { rpos = add_word r.rpos len } in (view r'.mem at len, r')

-- `fill_buf`, `deref` and `as_ref`
pub fill_buf : Ring → IoResult (List ℕ)
fill_buf r = ok (as_read_slice r max_word)

pub deref : Ring → List ℕ
deref r = as_read_slice r max_word

pub read : Ring → List ℕ → IoResult ℕ × List ℕ × Ring
read r buf = read_from r buf

pub write : Ring → List ℕ → IoResult ℕ × Ring
write r buf = write_into r buf

pub flush : Ring → IoResult (Unit {0}) × Ring
flush r = (ok tt, r)

-- `drop`: the result of `unmap_ring` is discarded.
pub drop : {St S : Type 0} → RingPlatform St S → Ring → St → St
drop os r st = (os.unmap_ring r.ptr (write_capacity r) st).1
