-- ===== src/Os/Kernel.antt =====
-- A kernel for the tests of src/os/unix: it hands out addresses from the first page boundary past
-- those in use on, up to a million, and keeps descriptors, or ports, in a list.
use mathlib.Core.Path.{fun_ext}
use vmap_rs.Prelude.{
  ℕ, ◌+◌, ◌*◌, ◌/◌, ◌<◌, ◌≤◌, ◌≡◌, refl, sym, ap, ◌∙◌, inl, inr, min, List, [], ◌∷◌, Option, none,
  some, Bool, true, false, ltb, leb, ◌&&◌, leb→le, if◌then◌else◌, Bool-cases, ltb-false→le, le→ltb,
  arith,
}
use vmap_rs.Word.{word}
use vmap_rs.Std.{ErrorKind}
use vmap_rs.Error.{SystemError}
use vmap_rs.Os.Libc.{Libc}
use vmap_rs.Os.Space.{shown, Cell, unmapped, Space, put, put-above}

pub record Kernel : Type 0 where
  pub cells : Space
  pub top : ℕ
  pub fds : List ℕ

abbrev pub space : Kernel → Space
space k a = if ltb a k.top then k.cells a else unmapped

abbrev pub limit : ℕ
limit = 1000000

-- The first page boundary past what is in use.
abbrev pub next : Kernel → ℕ
next k = (k.top + 4095) / 4096 * 4096

abbrev pub map_fixed : Bool → ℕ → ℕ → (ℕ → Cell) → Kernel → Option ℕ × Kernel
map_fixed true addr len f k = (some addr, record k { cells = put addr len f (space k) })
map_fixed false addr len f k = (none, k)

abbrev pub map_fresh : Bool → ℕ → (ℕ → Cell) → Kernel → Option ℕ × Kernel
map_fresh true len f k =
    (some (next k), record k { cells = put (next k) len f (space k); top = next k + len })
map_fresh false len f k = (none, k)

abbrev pub map_either : Bool → ℕ → ℕ → (ℕ → Cell) → Kernel → Option ℕ × Kernel
map_either true addr len f k = map_fixed (leb (addr + len) (min k.top limit)) addr len f k
map_either false addr len f k = map_fresh (leb (next k + len) limit) len f k

pub beyond : (k : Kernel) (a : ℕ) → k.top ≤ a → space k a ≡ unmapped
beyond k a h = rw (le→ltb a k.top h) refl

-- What a `put` that ends at or below `top` leaves above it.
pub settled :
    (k : Kernel) (p len top : ℕ) (f : ℕ → Cell)
    → p + len ≤ top
    → k.top ≤ top
    → space (record k { cells = put p len f (space k); top = top }) ≡ put p len f (space k)
settled k p len top f h grows = fun_ext (λ a. elim (Bool-cases (ltb a top)) [
  | inl e ↦ rw e refl
  | inr e ↦
      let high = ltb-false→le a top e in
      rw e (
        sym (
          put-above p len f (space k) a (omega (arith, high))
          ∙ beyond k a (omega (arith, high, grows))))
])

pub record Mapped (fixed : Bool) (addr len : ℕ) (f : ℕ → Cell) (k : Kernel) (p : ℕ) (k' : Kernel)
    : Type 0 where
  pub shows : space k' ≡ put p len f (space k)
  pub opens : k'.fds ≡ k.fds
  pub fits : p + len + 4096 ≤ word
  pub from : fixed ≡ false → p ≡ next k
  pub there : fixed ≡ true → p ≡ addr
  pub free : fixed ≡ false → (a : ℕ) → p ≤ a → a < p + len → space k a ≡ unmapped

free_at_top : (k : Kernel) (p a : ℕ) → k.top ≤ p → p ≤ a → space k a ≡ unmapped
free_at_top k p a e h = beyond k a (omega (arith, e, h))

mapped :
    (fixed ok : Bool) (addr len : ℕ) (f : ℕ → Cell) (k : Kernel) (p : ℕ) (k' : Kernel)
    → (fixed ≡ true → leb (addr + len) (min k.top limit) ≡ ok)
    → (fixed ≡ false → leb (next k + len) limit ≡ ok)
    → (if fixed then map_fixed ok addr len f k else map_fresh ok len f k) ≡ (some p, k')
    → Mapped fixed addr len f k p k'
mapped true true addr len f k p k' low high e =
    let at : addr ≡ p = cc in
    let after : record k { cells = put addr len f (space k) } ≡ k' = ap (λ q. q.1) e in
    let fit = leb→le (addr + len) (min k.top limit) (low refl) in
    record {
      shows =
          sym (ap space after)
          ∙ settled k addr len k.top f (omega (arith, fit)) (omega arith)
          ∙ ap (λ x. put x len f (space k)) at;
      opens = sym (ap (λ k. k.fds) after);
      fits = omega (arith, fit, at);
      from = λ bad. cc;
      there = λ _. sym at;
      free = λ bad. cc;
    }
mapped false true addr len f k p k' low high e =
    let at : next k ≡ p = cc in
    let after : record k { cells = put (next k) len f (space k); top = next k + len } ≡ k' =
      ap (λ q. q.1) e in
    let fit = leb→le (next k + len) limit (high refl) in
    record {
      shows =
          sym (ap space after)
          ∙ settled k (next k) len (next k + len) f (omega arith) (omega arith)
          ∙ ap (λ x. put x len f (space k)) at;
      opens = sym (ap (λ k. k.fds) after);
      fits = omega (arith, fit, at);
      from = λ _. sym at;
      there = λ bad. cc;
      free = λ _ a h _. free_at_top k p a (omega (arith, at)) h;
    }
mapped true false addr len f k p k' low high e = cc
mapped false false addr len f k p k' low high e = cc

pub mmap_ok :
    (fixed : Bool) (addr len : ℕ) (f : ℕ → Cell) (k : Kernel) (p : ℕ) (k' : Kernel)
    → map_either fixed addr len f k ≡ (some p, k')
    → Mapped fixed addr len f k p k'
mmap_ok true addr len f k p k' e =
    mapped true (leb (addr + len) (min k.top limit)) addr len f k p k' (λ _. refl) (λ bad. cc) e
mmap_ok false addr len f k p k' e =
    mapped false (leb (next k + len) limit) addr len f k p k' (λ bad. cc) (λ _. refl) e

unchanged :
    (fixed ok : Bool) (addr len : ℕ) (f : ℕ → Cell) (k k' : Kernel)
    → (if fixed then map_fixed ok addr len f k else map_fresh ok len f k) ≡ (none, k')
    → k' ≡ k
unchanged true true addr len f k k' e = cc
unchanged true false addr len f k k' e = sym (ap (λ q. q.1) e)
unchanged false true addr len f k k' e = cc
unchanged false false addr len f k k' e = sym (ap (λ q. q.1) e)

pub mmap_fail :
    (fixed : Bool) (addr len : ℕ) (f : ℕ → Cell) (k k' : Kernel)
    → map_either fixed addr len f k ≡ (none, k')
    → k' ≡ k
mmap_fail true addr len f k k' e =
    unchanged true (leb (addr + len) (min k.top limit)) addr len f k k' e
mmap_fail false addr len f k k' e = unchanged false (leb (next k + len) limit) addr len f k k' e

pub cleared :
    (k : Kernel) (p len : ℕ)
    → space (record k { cells = put p len (λ _. unmapped) (space k) })
      ≡ put p len (λ _. unmapped) (space k)
unfolding put
cleared k p len = fun_ext (λ a. elim (Bool-cases (ltb a k.top)) [
  | inl e ↦ rw e refl
  | inr e ↦ elim (Bool-cases (leb p a && ltb a (p + len))) [
    | inl h ↦ rw (e, h) refl
    | inr h ↦ rw (e, h) refl
  ]
])

-- Errors that are their codes.
instance abbrev pub codes : SystemError ℕ
codes = record {
  kind = λ code. ErrorKind.uncategorized code;
  raw_os_error = λ code. some code;
  into_io = λ code. record {
    kind = ErrorKind.uncategorized code;
    raw_os_error = some code;
    message = none;
  };
  from_raw_kernel_error = λ code. code;
  show = λ _. "system error";
}

abbrev pub rest : List ℕ → List ℕ
rest [] = []
rest (x ∷ xs) = xs

abbrev pub libc : Libc Kernel ℕ
libc = record {
  sysconf_pagesize = 4096;
  mmap = λ addr len prot flags fd off. map_either flags.fixed addr len (shown fd off);
  munmap = λ p len k. (some 0, record k { cells = put p len (λ _. unmapped) (space k) });
  mprotect = λ p len prot k. (some 0, k);
  msync = λ p len mode k. (some 0, k);
  madvise = λ p len adv k. (some 0, k);
  mlock = λ p len k. (some 0, k);
  munlock = λ p len k. (some 0, k);
  memfd_create = λ k. (some 7, record k { fds = 7 ∷ k.fds });
  ftruncate = λ fd size k. (some 0, k);
  close = λ fd k. (some 0, record k { fds = rest k.fds });
  last_error = λ k. 12;
}
