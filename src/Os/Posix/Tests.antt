-- ===== src/Os/Posix/Tests.antt =====
-- `map_ring` of src/os/unix/posix over the kernel of the tests.
use vmap_rs.Prelude.{ℕ, ◌≡◌, refl, sym, ap, ◌∙◌, List, [], ◌∷◌, arith}
use vmap_rs.Os.Posix.{map_ring}
use vmap_rs.Os.Space.{Cell, unmapped, backed, shown}
use vmap_rs.Os.Posix.Space.{LibcLaws}
use vmap_rs.Size as Size
use vmap_rs.Size.{Size}
use vmap_rs.Io.Calls.{Op}
use vmap_rs.Io.Ring as Ring
use vmap_rs.Io.Ring.{Ring}
use vmap_rs.Io.InfiniteRing.Queue as Infinite
use vmap_rs.Io.Ring.Posix.{posix}
use vmap_rs.Os.{RingPlatform}
use vmap_rs.Os.Kernel.{libc, rest, Kernel, space, mmap_ok, mmap_fail, cleared}

libc-LibcLaws : (page : ℕ) → LibcLaws libc page space (λ k. k.fds)
libc-LibcLaws page = record {
  mmap_ok = λ addr len prot flags fd off k p k' e paged.
      let m = mmap_ok flags.fixed addr len (shown fd off) k p k' e in
      (m.shows, m.opens, omega (arith, m.fits));
  mmap_fixed = λ addr len prot flags fd off k p k' e.
      (mmap_ok flags.fixed addr len (shown fd off) k p k' e).there;
  mmap_fresh = λ addr len prot flags fd off k p k' e.
      (mmap_ok flags.fixed addr len (shown fd off) k p k' e).free;
  mmap_fail = λ addr len prot flags fd off k k' e.
      let same = mmap_fail flags.fixed addr len (shown fd off) k k' e in
      (ap space same, ap (λ k. k.fds) same);
  munmap_ok = λ p len k r k' e paged. sym (ap (λ q. space q.1) e) ∙ cleared k p len;
  munmap_fail = λ p len k k' e paged. cc;
  munmap_fds = λ p len k. refl;
  memfd_ok = λ k fd k' e.
      let same : 7 ≡ fd = cc in
      (sym (ap (λ q. space q.1) e), sym (ap (λ q. q.1.fds) e) ∙ ap (λ x. x ∷ k.fds) same);
  memfd_fail = λ k k' e. cc;
  truncate_keeps = λ fd size k. (refl, refl);
  close_last = λ fd k others e. (refl, ap rest e);
}

abbrev start : Kernel
start = record { cells = λ _. unmapped; top = 65536; fds = 2 ∷ 1 ∷ 0 ∷ [] }

abbrev unit_4 : Size
unit_4 = record { unit = 4 }

-- A cell of a file shows its offset.
abbrev content : Cell → ℕ
content (backed fd off) = off
content _ = 0

abbrev os : RingPlatform Kernel ℕ
os = posix libc unit_4 (libc-LibcLaws 4) content

abbrev after_new : Kernel
after_new = (map_ring libc 4 start).1

abbrev ring : Ring
ring = record { ptr = 65536; mem = 0 ∷ 1 ∷ 2 ∷ 3 ∷ []; len = 4; rpos = 0; wpos = 0 }

abbrev calls : List Op
calls = Op.write (10 ∷ 20 ∷ 30 ∷ []) ∷ Op.consume 2 ∷ Op.write (40 ∷ []) ∷ []

abbrev infinite_calls : List Infinite.Op
infinite_calls = Infinite.Op.write_all (1 ∷ 2 ∷ 3 ∷ 4 ∷ 5 ∷ []) ∷ Infinite.Op.consume 1 ∷ []
