-- ===== src/Os/Libc.antt =====
-- What src/os/unix uses of libc: the calls, over the state of the process and the kernel.
use vmap_rs.Prelude.{ℕ, Bool, true, false, Option}
use vmap_rs.Types.{Flush, Advise}

-- `PROT_READ`, `PROT_WRITE` and `PROT_EXEC`
pub record Prot : Type 0 where
  pub read : Bool
  pub write : Bool
  pub exec : Bool

-- `MAP_SHARED` (else `MAP_PRIVATE`), `MAP_ANON` and `MAP_FIXED`
pub record MapFlags : Type 0 where
  pub shared : Bool
  pub anon : Bool
  pub fixed : Bool

-- A call gives `none` where C gives `MAP_FAILED` or a negative number. The descriptor `none` is -1.
-- `last_error` is `system_error::Error::last_os_error()`. `msync` and `madvise` take the flag that
-- goes by the name of the value.
pub record Libc (St S : Type 0) : Type 0 where
  pub sysconf_pagesize : ℕ
  pub mmap : ℕ → ℕ → Prot → MapFlags → Option ℕ → ℕ → St → Option ℕ × St
  pub munmap : ℕ → ℕ → St → Option ℕ × St
  pub mprotect : ℕ → ℕ → Prot → St → Option ℕ × St
  pub msync : ℕ → ℕ → Flush → St → Option ℕ × St
  pub madvise : ℕ → ℕ → Advise → St → Option ℕ × St
  pub mlock : ℕ → ℕ → St → Option ℕ × St
  pub munlock : ℕ → ℕ → St → Option ℕ × St
  pub memfd_create : St → Option ℕ × St
  pub ftruncate : ℕ → ℕ → St → Option ℕ × St
  pub close : ℕ → St → Option ℕ × St
  pub last_error : St → S

abbrev pub prot_read : Prot
prot_read = record { read = true; write = false; exec = false }

abbrev pub prot_read_write : Prot
prot_read_write = record { read = true; write = true; exec = false }

abbrev pub prot_read_exec : Prot
prot_read_exec = record { read = true; write = false; exec = true }

abbrev pub map_shared : MapFlags
map_shared = record { shared = true; anon = false; fixed = false }

abbrev pub map_private : MapFlags
map_private = record { shared = false; anon = false; fixed = false }
