-- ===== src/Os/Unix.antt =====
-- src/os/unix/mod.rs: the platform over libc.
use vmap_rs.Prelude.{ℕ, ◌≡◌, refl, ◌%◌, ◌^◌, true, Option, none, some}
use vmap_rs.Std.{Result, ok, err}
use vmap_rs.Error.{Error, Operation, last_os_error}
use vmap_rs.Types.{Protect, Flush, Advise}
use vmap_rs.Os.{Call, ◌>>=◌, Platform}
use vmap_rs.Os.Libc.{
  Libc, Prot, MapFlags, prot_read, prot_read_write, prot_read_exec, map_shared, map_private,
}

abbrev anon : MapFlags → MapFlags
anon f = record f { anon = true }

-- The match of `map_file`: the protection and the flags.
unfoldable pub file_flags : Protect → Prot × MapFlags
file_flags Protect.read_only = (prot_read, map_shared)
file_flags Protect.read_write = (prot_read_write, map_shared)
file_flags Protect.read_copy = (prot_read_write, map_private)
file_flags Protect.read_exec = (prot_read_exec, map_private)

-- The match of `map_anon`.
pub anon_flags : Protect → Prot × MapFlags
anon_flags Protect.read_only = (prot_read, map_shared)
anon_flags Protect.read_write = (prot_read_write, anon map_shared)
anon_flags Protect.read_copy = (prot_read_write, anon map_private)
anon_flags Protect.read_exec = (prot_read_exec, anon map_private)

-- The match of `protect`.
pub page_prot : Protect → Prot
page_prot Protect.read_only = prot_read
page_prot Protect.read_write = prot_read_write
page_prot Protect.read_copy = prot_read_write
page_prot Protect.read_exec = prot_read_exec

module _ {St S : Type 0} (libc : Libc St S) where
  -- The last system error becomes the result if the call failed.
  unfoldable pub result : Operation → (St → Option ℕ × St) → Call St S ℕ
  result op call st =
      let (r, st') = call st in
      elim r [ none ↦ (err (last_os_error op (libc.last_error st')), st') | some pg ↦ (ok pg, st') ]

  unfoldable pub done : Operation → (St → Option ℕ × St) → Call St S (Unit {0})
  done op call st =
      let (r, st') = call st in
      elim r [ none ↦ (err (last_os_error op (libc.last_error st')), st') | some _ ↦ (ok tt, st') ]

  pub system_info : ℕ × ℕ
  system_info = (libc.sysconf_pagesize % 2 ^ 32, libc.sysconf_pagesize % 2 ^ 32)

  unfoldable pub map_file : ℕ → ℕ → ℕ → Protect → Call St S ℕ
  map_file file off len prot =
      let (p, flags) = file_flags prot in
      result Operation.map_file (libc.mmap 0 len p flags (some file) off)

  pub map_anon : ℕ → Protect → Call St S ℕ
  map_anon len prot =
      let (p, flags) = anon_flags prot in
      result Operation.map_anonymous (libc.mmap 0 len p flags none 0)

  unfoldable pub unmap : ℕ → ℕ → Call St S (Unit {0})
  unmap pg len = done Operation.unmap (libc.munmap pg len)

  pub protect : ℕ → ℕ → Protect → Call St S (Unit {0})
  protect pg len prot = done Operation.protect (libc.mprotect pg len (page_prot prot))

  pub flush : ℕ → ℕ → ℕ → Flush → Call St S (Unit {0})
  flush pg file len mode = done Operation.flush (libc.msync pg len mode)

  pub advise : ℕ → ℕ → Advise → Call St S (Unit {0})
  advise pg len adv = done Operation.advise (libc.madvise pg len adv)

  pub lock : ℕ → ℕ → Call St S (Unit {0})
  lock pg len = done Operation.lock (libc.mlock pg len)

  pub unlock : ℕ → ℕ → Call St S (Unit {0})
  unlock pg len = done Operation.unlock (libc.munlock pg len)

  -- `pub use self::unix::*`
  unfoldable pub unix : Platform St S
  unix = record {
    system_info = system_info;
    map_file = map_file;
    map_anon = map_anon;
    unmap = unmap;
    protect = protect;
    flush = flush;
    advise = advise;
    lock = lock;
    unlock = unlock;
  }

-- To prove `Q` of a chain that begins with `result`: split on how the call ends.
pub result_post {κ} :
    {St S B : Type 0} (libc : Libc St S) (Q : Result B (Error S) × St → Type κ) (op : Operation)
    (call : St → Option ℕ × St) (f : ℕ → Call St S B) (st : St)
    → ((p : ℕ) (st' : St) → call st ≡ (some p, st') → Q (f p st'))
    → ((st' : St) → call st ≡ (none, st') → Q (err (last_os_error op (libc.last_error st')), st'))
    → Q ((result libc op call >>= f) st)
unfolding result
result_post {St} libc Q op call f st on_ok on_err = go (call st).0 (call st).1 refl
  where
    go :
        (r : Option ℕ) (st' : St)
        → call st ≡ (r, st')
        → Q ((result libc op (λ _. (r, st')) >>= f) st)
    go (some p) st' e = on_ok p st' e
    go none st' e = on_err st' e

pub result_bind_post {κ} :
    {St S B C : Type 0} (libc : Libc St S) (Q : Result C (Error S) × St → Type κ) (op : Operation)
    (call : St → Option ℕ × St) (f : ℕ → Call St S B) (k : B → Call St S C) (st : St)
    → ((p : ℕ) (st' : St) → call st ≡ (some p, st') → Q ((f p >>= k) st'))
    → ((st' : St) → call st ≡ (none, st') → Q (err (last_os_error op (libc.last_error st')), st'))
    → Q (((result libc op call >>= f) >>= k) st)
unfolding result
result_bind_post {St} libc Q op call f k st on_ok on_err = go (call st).0 (call st).1 refl
  where
    go :
        (r : Option ℕ) (st' : St)
        → call st ≡ (r, st')
        → Q (((result libc op (λ _. (r, st')) >>= f) >>= k) st)
    go (some p) st' e = on_ok p st' e
    go none st' e = on_err st' e

-- `done` is left where its call leaves the state.
pub done_state :
    {St S : Type 0} (libc : Libc St S) (op : Operation) (call : St → Option ℕ × St) (st : St)
    → (done libc op call st).1 ≡ (call st).1
unfolding done
done_state {St} libc op call st = go (call st).0 (call st).1
  where
    go : (r : Option ℕ) (st' : St) → (done libc op (λ (_ : St). (r, st')) st).1 ≡ st'
    go none st' = refl
    go (some _) st' = refl

-- A result of `result` is what its call gave.
pub result_ok :
    {St S : Type 0} (libc : Libc St S) (op : Operation) (call : St → Option ℕ × St) (st : St)
    {p : ℕ} {st' : St}
    → result libc op call st ≡ (ok p, st')
    → call st ≡ (some p, st')
unfolding result
result_ok {St} {S} libc op call st {p} {st'} = go (call st).0 (call st).1
  where
    go :
        (r : Option ℕ) (st1 : St)
        → result libc op (λ (_ : St). (r, st1)) st ≡ (ok p, st')
        → Path (Option ℕ × St) (r, st1) (some p, st')
    go (some q) st1 e = cc
    go none st1 e = cc
