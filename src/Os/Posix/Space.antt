-- ===== src/Os/Posix/Space.antt =====
-- What libc documents of the calls that src/os/unix/posix makes: how they move the address space and
-- the open descriptors of the process, where the lengths are whole pages. A `munmap` that fails may
-- have changed the range that it was called with, and nothing else.
use vmap_rs.Prelude.{ℕ, ◌+◌, ◌<◌, ◌≤◌, ◌≡◌, List, ◌∷◌, Option, none, some, true, false}
use vmap_rs.Word.{word}
use vmap_rs.Os.Libc.{Libc, Prot, MapFlags}
use vmap_rs.Os.Space.{Paged, Outside, unmapped, Space, put, shown}

pub record LibcLaws {St S : Type 0} (libc : Libc St S) (page : ℕ) (space : St → Space)
    (fds : St → List ℕ) : Type 0 where
  pub mmap_ok :
      (addr len : ℕ) (prot : Prot) (flags : MapFlags) (fd : Option ℕ) (off : ℕ) (st : St) (p : ℕ)
      (st' : St)
      → libc.mmap addr len prot flags fd off st ≡ (some p, st')
      → Paged page len
      → (space st' ≡ put p len (shown fd off) (space st)) × (fds st' ≡ fds st) × (p + len ≤ word)
  pub mmap_fixed :
      (addr len : ℕ) (prot : Prot) (flags : MapFlags) (fd : Option ℕ) (off : ℕ) (st : St) (p : ℕ)
      (st' : St)
      → libc.mmap addr len prot flags fd off st ≡ (some p, st')
      → flags.fixed ≡ true
      → p ≡ addr
  pub mmap_fresh :
      (addr len : ℕ) (prot : Prot) (flags : MapFlags) (fd : Option ℕ) (off : ℕ) (st : St) (p : ℕ)
      (st' : St)
      → libc.mmap addr len prot flags fd off st ≡ (some p, st')
      → flags.fixed ≡ false
      → (a : ℕ) → p ≤ a
      → a < p + len
      → space st a ≡ unmapped
  pub mmap_fail :
      (addr len : ℕ) (prot : Prot) (flags : MapFlags) (fd : Option ℕ) (off : ℕ) (st st' : St)
      → libc.mmap addr len prot flags fd off st ≡ (none, st')
      → (space st' ≡ space st) × (fds st' ≡ fds st)
  pub munmap_ok :
      (p len : ℕ) (st : St) (r : ℕ) (st' : St)
      → libc.munmap p len st ≡ (some r, st')
      → Paged page len
      → space st' ≡ put p len (λ _. unmapped) (space st)
  pub munmap_fail :
      (p len : ℕ) (st st' : St)
      → libc.munmap p len st ≡ (none, st')
      → Paged page len
      → Outside p len (space st) (space st')
  pub munmap_fds : (p len : ℕ) (st : St) → fds (libc.munmap p len st).1 ≡ fds st
  pub memfd_ok :
      (st : St) (fd : ℕ) (st' : St)
      → libc.memfd_create st ≡ (some fd, st')
      → (space st' ≡ space st) × (fds st' ≡ fd ∷ fds st)
  pub memfd_fail :
      (st st' : St)
      → libc.memfd_create st ≡ (none, st')
      → (space st' ≡ space st) × (fds st' ≡ fds st)
  pub truncate_keeps :
      (fd size : ℕ) (st : St)
      → (space (libc.ftruncate fd size st).1 ≡ space st)
        × (fds (libc.ftruncate fd size st).1 ≡ fds st)
  pub close_last :
      (fd : ℕ) (st : St) (others : List ℕ)
      → fds st ≡ fd ∷ others
      → (space (libc.close fd st).1 ≡ space st) × (fds (libc.close fd st).1 ≡ others)
