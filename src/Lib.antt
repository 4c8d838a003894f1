-- ===== src/Lib.antt =====
-- vmap-rs: memory maps of files and of fresh memory, and ring buffers and buffered I/O over mirrored
-- maps. The development models the crate for a 64-bit target.
--
-- The parts and how they interact. `Options` (src/map.rs) opens and resizes a file, works out which
-- bytes to map and calls the platform (src/os); the result is a `Map` or a `MapMut`, whose methods
-- and whose drop turn a range of bytes into pages with `Size` (src/lib.rs) and call the platform
-- again. `Ring` and `InfiniteRing` (src/io/ring.rs) read and write a mapping that shows the same
-- bytes twice in a row, through the traits `SeqRead` and `SeqWrite` (src/io/mod.rs). `BufReader` and
-- `BufWriter` (src/io/buffer.rs) put a `Ring` before any reader or writer. Every part reports its
-- errors with src/error.rs.
--
-- Which file models which part:
--   Prelude, Prelude.*  shared names, Boolean tests, lists measured by native numbers
--   Word, Word.Bits     `usize` and `u64` with their wrap-around, and masks of powers of two
--   Std                 what the crate uses of the standard library: `Result`, `io::Error`, `Read`
--                       and `Write`, and calls that return or unwind
--   Error, Error.*      src/error.rs: `Error`, `Operation`, `Input` and the conversions
--   Types               the enumerations of src/lib.rs
--   Size, Size.*        `Size`, `page_size`, `allocation_size` and the statics of src/lib.rs
--   Os                  the functions that src/os exports and what is used of `std::fs`, as records
--                       of calls over a state
--   Os.Space            the address space of a process, and a range that shows the same bytes twice
--   Os.Libc, Os.Unix    src/os/unix/mod.rs over libc as a record of calls
--   Os.Posix, Os.Posix.*  src/os/unix/posix: the mirrored mapping behind a ring, and `memfd_open` as
--                       it is on Linux; Os.Posix.Memfd is `memfd_open` of the other systems
--   Os.Mach, Os.Mach.*  src/os/unix/mach.rs: the same over the calls of Mach
--   Os.Windows, Os.Windows.*  src/os/windows.rs over the Windows API as a record of calls: the
--                       platform, and the mapping behind a ring
--   Os.Kernel           a small kernel that the tests run on
--   Map, Map.Convert, Map.Ranges, Map.Shared  `Map` and `MapMut` of src/map.rs: conversions, whole
--                       and range operations, slices
--   Map.Options.*       `Options` of src/map.rs: setters, `open`, `open_if`, `map`, `map_if`, `alloc`
--   Map.Lifetime        a map from `map_if` to its drop; Map.Unix and Map.Windows are the same
--                       over Unix and over Windows
--   Span, Span.*        `Span` and `SpanMut` of src/lib.rs
--   Io.Mirror           the memory behind a ring
--   Io.Traits           `SeqRead` and `SeqWrite` with their provided methods
--   Io.Ring, Io.Ring.*  `Ring`: operations, invariant, contents, construction, and its life from
--                       `new` to `drop`, over any platform and over POSIX, Mach and Windows
--   Io.Calls, Io.Queue  the calls of a client, and the abstract bounded queue
--   Io.InfiniteRing.*   `InfiniteRing`: operations, invariant, contents, its abstract queue, and
--                       its life beside that of a `Ring`
--   Io.Reader.*         `BufReader`
--   Io.Writer.*         `BufWriter`, `IntoInnerError` and `WriterPanicked`
-- The modules named Tests apply the theorems at concrete inputs.
--
-- Conventions. A function of the source is a function of the same name; a method that changes `self`
-- returns the new `self` after its result. The state of a platform is the last component of what a
-- call returns. Arithmetic wraps at 2^64, as in the release profile without overflow checks. A
-- pointer is its address. The memory of a ring is a list of `len` bytes that addresses show modulo
-- `len`. What is not in the repository is a parameter: the system calls, `std::fs`, the inner reader
-- or writer, the `system_error` crate. What is relied on of these stands in the records `Accepts` and
-- `Patient` (Io.Writer.Laws), `Gives` (Io.Reader.Stream), `Maps` (Io.Ring.New), `FileLaws`
-- (Map.Options.Extents), `Places` (Map.Lifetime), `GivesBack` (Io.Ring.Lifetime), `LibcLaws`
-- (Os.Posix.Space), `ShmLaws` (Os.Posix.Memfd.Live), `UnixLaws` (Map.Unix), `FilesKeep`
-- (Map.Windows), `MachLaws` (Os.Mach.Space), `WinapiLaws` (Os.Windows.Views), `ViewPlaced`
-- (Os.Windows.Lifetime), `ScalarLaws` (Span.Checks) and `Faithful` (Error.Convert).
--
-- Fuel. The loop of `BufWriter::flush_buf` and that of `memfd_open` in Os.Posix.Memfd take fuel, one
-- for each round; `none` is the value of a loop that ran out. With `(bytes held) * (limit + 1) +
-- patience` rounds and one more `flush_buf` does not, for a writer that is interrupted at most
-- `limit` times in a row; `memfd_open` does not once the clock gives a name that is not taken. The
-- loop of `map_ring` on Windows recurs on the rounds it has left, five at first.
--
-- Not modelled: the text that `Debug` prints for numbers and pointers, the clock before 1970 in
-- `memfd_open`, and the unit tests.
pub mod Prelude
pub mod Word
pub mod Std
pub mod Error
pub mod Types
pub mod Size
pub mod Os
pub mod Span
pub mod Map
pub mod Io
