-- ===== src/Io/InfiniteRing.antt =====
-- `InfiniteRing` of src/io/ring.rs: a ring that writes over what was not read.
pub mod Inv
pub mod Contents
pub mod Queue
pub mod Refine
pub mod Lifetime
use vmap_rs.Prelude.{ℕ, List, ◌-◌, ◌%◌, min, length}
use vmap_rs.Prelude as P
use vmap_rs.Word.{add_word, sub_word, max_word}
use vmap_rs.Size
use vmap_rs.Size.{Size}
use vmap_rs.Std.{ok, IoResult}
use vmap_rs.Os.{Call, ◌>>=◌, RingPlatform}
use vmap_rs.Io.Traits.{
  SeqRead, SeqWrite, as_read_slice, as_write_slice, fill_slice, read_from, write_into,
}

-- `mem` is the memory that `ptr` addresses.
pub record InfiniteRing : Type 0 where
  pub ptr : ℕ
  pub mem : List ℕ
  pub len : ℕ
  pub rlen : ℕ
  pub wpos : ℕ

-- `alloc` is `Size::alloc()`.
pub new : {St S : Type 0} → Size → RingPlatform St S → ℕ → Call St S InfiniteRing
new alloc os hint =
    let len = Size.round alloc hint in
    os.map_ring len >>= λ ptr st.
    (ok (record { ptr = ptr; mem = os.load st ptr len; len = len; rlen = 0; wpos = 0 }), st)

pub read_offset : InfiniteRing → ℕ
read_offset r = sub_word r.wpos r.rlen % r.len

pub read_len : InfiniteRing → ℕ
read_len r = r.rlen

pub write_offset : InfiniteRing → ℕ
write_offset r = r.wpos % r.len

pub write_capacity : InfiniteRing → ℕ
write_capacity r = r.len

pub write_len : InfiniteRing → ℕ
write_len r = write_capacity r

pub feed : InfiniteRing → ℕ → InfiniteRing
feed r len = record r {
  wpos = add_word r.wpos (min len (write_len r));
  rlen = min (add_word r.rlen len) r.len;
}

pub consume : InfiniteRing → ℕ → InfiniteRing
consume r len = record r { rlen = sub_word r.rlen (min len (read_len r)) }

instance abbrev pub infinite_read : SeqRead InfiniteRing
infinite_read = record {
  as_read_ptr = λ r. r.mem;
  read_offset = read_offset;
  read_len = read_len;
  consume = consume;
}

instance abbrev pub infinite_write : SeqWrite InfiniteRing
infinite_write = record {
  as_write_ptr = λ r. r.mem;
  with_memory = λ r m. record r { mem = m };
  write_offset = write_offset;
  write_len = write_len;
  write_capacity = write_capacity;
  feed = feed;
}

-- `fill_buf`, `deref` and `as_ref`
pub fill_buf : InfiniteRing → IoResult (List ℕ)
fill_buf r = ok (as_read_slice r max_word)

pub deref : InfiniteRing → List ℕ
deref r = as_read_slice r max_word

pub read : InfiniteRing → List ℕ → IoResult ℕ × List ℕ × InfiniteRing
read r buf = read_from r buf

pub write : InfiniteRing → List ℕ → IoResult ℕ × InfiniteRing
write r buf = write_into r buf

-- Of more bytes than the ring holds only the last are copied.
pub write_all : InfiniteRing → List ℕ → IoResult (Unit {0}) × InfiniteRing
write_all r buf =
    let slice = as_write_slice r (length buf) in
    let len = slice.1 in
    let tail = length buf - len in (ok tt, feed (fill_slice r slice (P.drop tail buf)) len)

pub flush : InfiniteRing → IoResult (Unit {0}) × InfiniteRing
flush r = (ok tt, r)

-- `drop`: the result of `unmap_ring` is discarded.
pub drop : {St S : Type 0} → RingPlatform St S → InfiniteRing → St → St
drop os r st = (os.unmap_ring r.ptr (write_capacity r) st).1
