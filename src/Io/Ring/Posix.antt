-- ===== src/Io/Ring/Posix.antt =====
-- `Ring` and `InfiniteRing` of src/io/ring.rs over `map_ring` and `unmap_ring` of src/os/unix/posix/mod.rs.
use vmap_rs.Prelude.{ℕ, List}
use vmap_rs.Os.{RingPlatform}
use vmap_rs.Os.Libc.{Libc}
use vmap_rs.Os.Space.{Cell, Space, bytes_at}
use vmap_rs.Os.Posix.Space.{LibcLaws}
use vmap_rs.Os.Posix.Lifetime.{rings}
use vmap_rs.Size.{Size}
use vmap_rs.Io.Calls as Calls
use vmap_rs.Io.Ring.{Ring}

module _ {St S : Type 0} (libc : Libc St S) (s : Size) {space : St → Space} {fds : St → List ℕ}
    (laws : LibcLaws libc s.unit space fds) (content : Cell → ℕ) where
  -- The platform of the rings, where the process reads what its cells show.
  abbrev pub posix : RingPlatform St S
  posix = rings libc (λ st. bytes_at content (space st))
