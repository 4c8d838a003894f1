-- ===== src/Os/Posix.antt =====
-- src/os/unix/posix: the mapping behind a ring, with `memfd_open` as it is on Linux.
pub mod Space
pub mod Wrap
pub mod Balance
pub mod Lifetime
pub mod Memfd
mod Tests
use vmap_rs.Prelude.{ℕ, ◌+◌, true, false, Option, none, some}
use vmap_rs.Word.{add_word}
use vmap_rs.Std.{Result, ok, err}
use vmap_rs.Error.{Error, Operation, last_os_error}
use vmap_rs.Os.{Call, ◌>>=◌, pure}
use vmap_rs.Os.Libc.{Libc, MapFlags, prot_read_write}
use vmap_rs.Os.Unix.{result, unmap}

-- `MAP_PRIVATE | MAP_ANON` and `MAP_SHARED | MAP_FIXED`
abbrev pub map_reserve : MapFlags
map_reserve = record { shared = false; anon = true; fixed = false }

abbrev pub map_half : MapFlags
map_half = record { shared = true; anon = false; fixed = true }

module _ {St S : Type 0} (libc : Libc St S) where
  pub map : Operation → ℕ → ℕ → MapFlags → Option ℕ → Call St S ℕ
  map op pg len flags fd = result libc op (libc.mmap pg len prot_read_write flags fd 0)

  pub wrap_ptr : ℕ → ℕ → ℕ → Call St S ℕ
  wrap_ptr pg len fd = do
    _ ← map Operation.ring_primary pg len map_half (some fd)
    _ ← map Operation.ring_secondary (add_word pg len) len map_half (some fd)
    pure pg

  pub unmap_ring : ℕ → ℕ → Call St S (Unit {0})
  unmap_ring pg len = unmap libc pg (add_word len len)

  -- The match of `wrap_fd`: the reserved range is given back where the halves were not mapped; what
  -- that returns is discarded.
  pub or_unmap : ℕ → ℕ → Result ℕ (Error S) × St → Result ℕ (Error S) × St
  or_unmap pg len (ok p, st) = (ok p, st)
  or_unmap pg len (err e, st) = (err e, (unmap_ring pg len st).1)

  pub wrap_fd : ℕ → ℕ → Call St S ℕ
  wrap_fd len fd = map Operation.ring_allocate 0 (add_word len len) map_reserve none >>= λ pg st.
      or_unmap pg len (wrap_ptr pg len fd st)

  pub memfd_open : Call St S ℕ
  memfd_open = result libc Operation.memory_fd libc.memfd_create

  -- The rest of `tmp_open`, past `ftruncate`.
  pub truncated : ℕ → Option ℕ × St → Result ℕ (Error S) × St
  truncated fd (none, st) =
      (err (last_os_error Operation.memory_fd (libc.last_error st)), (libc.close fd st).1)
  truncated fd (some _, st) = (ok fd, st)

  pub tmp_open : ℕ → Call St S ℕ
  tmp_open size = memfd_open >>= λ fd st. truncated fd (libc.ftruncate fd size st)

  -- The result of `close` is discarded.
  pub and_close : ℕ → Result ℕ (Error S) × St → Result ℕ (Error S) × St
  and_close fd (r, st) = (r, (libc.close fd st).1)

  pub map_ring : ℕ → Call St S ℕ
  map_ring len = tmp_open len >>= λ fd st. and_close fd (wrap_fd len fd st)
