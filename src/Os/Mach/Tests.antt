-- ===== src/Os/Mach/Tests.antt =====
-- `map_ring` of src/os/unix/mach.rs over the kernel of the tests.
use vmap_rs.Prelude.{
  ℕ, ◌+◌, ◌/◌, ◌≡◌, refl, replicate, sym, ap, ◌∙◌, List, [], ◌∷◌, Option, none, some, Bool, true,
  false, not, ◌==◌, arith,
}
use vmap_rs.Os.Space.{Paged, unmapped, own, Cell, put, shown}
use vmap_rs.Os.Kernel.{Kernel, space, map_either, mmap_ok, mmap_fail, cleared, codes}
use vmap_rs.Os.Mach.{Mach, map_ring, attempt, map_primary, map_entry, map_secondary}
use vmap_rs.Os.Mach.Space.{MachLaws}
use vmap_rs.Os.Mach.Balance.{Balanced, mach_ring-Balanced}
use vmap_rs.Os.{RingPlatform}
use vmap_rs.Std.{ok}
use vmap_rs.Size as Size
use vmap_rs.Size.{Size, round}
use vmap_rs.Size.Units.{IsUnit}
use vmap_rs.Io.Calls as Calls
use vmap_rs.Io.Ring as Ring
use vmap_rs.Io.Ring.{Ring}
use vmap_rs.Io.Ring.Mach.{BackButPort, mach_rings_of, mach_rings}
use vmap_rs.Io.InfiniteRing.Queue.{Op}
use vmap_rs.Io.InfiniteRing.Lifetime.{GivenBack}

-- The answer of a call that maps: `KERN_NO_SPACE` is 3.
abbrev answer : ℕ → Option ℕ × Kernel → (ℕ × ℕ) × Kernel
answer addr (some p, k) = ((0, p), k)
answer addr (none, k) = ((3, addr), k)

abbrev entry : ℕ → ℕ → Option ℕ × Kernel → (ℕ × (ℕ × ℕ)) × Kernel
entry size port (some p, k) = ((0, (size, port)), record k { fds = port ∷ k.fds })
entry size port (none, k) = ((3, (size, 0)), k)

abbrev mach : Mach Kernel
mach = record {
  mach_task_self = 515;
  vm_allocate =
      λ task addr size flags k. answer addr (map_either (not (flags == 1)) addr size (λ _. own) k);
  vm_deallocate =
      λ task addr size k. (0, record k { cells = put addr size (λ _. unmapped) (space k) });
  vm_map = λ task addr size mask flags port offset copy cur most inherit k.
      answer addr (map_either true addr size (shown (some port) offset) k);
  mach_make_memory_entry = λ task size addr perm handle parent k.
      entry size 9 (map_either true addr size (shown (some 9) 0) k);
}

answered :
    (addr : ℕ) (o : Option ℕ × Kernel) {p : ℕ} {k : Kernel}
    → answer addr o ≡ ((0, p), k)
    → o ≡ (some p, k)
answered addr (some q, k') e = ap (λ r. (some r.0.1, r.1)) e
answered addr (none, k') e = absurd (omega (arith, ap (λ r. r.0.0) e))

refused :
    (addr : ℕ) (o : Option ℕ × Kernel) (code p : ℕ) {k : Kernel}
    → answer addr o ≡ ((code, p), k)
    → (code == 0) ≡ false
    → (p ≡ addr) × (o ≡ (none, k))
refused addr (some q, k') code p e bad = absurd (ground (arith, ap (λ r. r.0.0) e, bad))
refused addr (none, k') code p e bad = (sym (ap (λ r. r.0.1) e), ap (λ r. (none, r.1)) e)

same_place :
    (fixed : Bool) (addr size : ℕ) (f : ℕ → Cell) (k : Kernel) {k' : Kernel}
    → map_either fixed addr size f k ≡ (none, k')
    → (space k' ≡ space k) × (k'.fds ≡ k.fds)
same_place fixed addr size f k e =
    let same = mmap_fail fixed addr size f k _ e in (ap space same, ap (λ k. k.fds) same)

record Entered (addr size : ℕ) (k : Kernel) (size' port : ℕ) (k' : Kernel) : Type 0 where
  same : size' ≡ size
  shows : space k' ≡ put addr size (shown (some port) 0) (space k)
  held : k'.fds ≡ port ∷ k.fds

entered :
    (addr size : ℕ) (k : Kernel) (o : Option ℕ × Kernel) (size' port : ℕ) (k' : Kernel)
    → map_either true addr size (shown (some 9) 0) k ≡ o
    → entry size 9 o ≡ ((0, (size', port)), k')
    → Entered addr size k size' port k'
entered addr size k (some p, k2) size' port k' made e =
    let m = mmap_ok true addr size (shown (some 9) 0) k p k2 made in
    let nine : 9 ≡ port = ap (λ r. r.0.1.1) e in
    record {
      same = sym (ap (λ r. r.0.1.0) e);
      shows =
          sym (ap (λ r. space r.1) e)
          ∙ m.shows
          ∙ ap (λ x. put x size (shown (some 9) 0) (space k)) (m.there refl)
          ∙ ap (λ x. put addr size (shown (some x) 0) (space k)) nine;
      held = sym (ap (λ r. r.1.fds) e) ∙ ap (λ l. 9 ∷ l) m.opens ∙ ap (λ x. x ∷ k.fds) nine;
    }
entered addr size k (none, k2) size' port k' made e = absurd (omega (arith, ap (λ r. r.0.0) e))

not_entered :
    (addr size : ℕ) (k : Kernel) (o : Option ℕ × Kernel) (code size' port : ℕ) (k' : Kernel)
    → map_either true addr size (shown (some 9) 0) k ≡ o
    → entry size 9 o ≡ ((code, (size', port)), k')
    → (code == 0) ≡ false
    → (size' ≡ size) × (space k' ≡ space k) × (k'.fds ≡ k.fds)
not_entered addr size k (some p, k2) code size' port k' made e bad =
    absurd (ground (arith, ap (λ r. r.0.0) e, bad))
not_entered addr size k (none, k2) code size' port k' made e bad =
    let (s, f) = same_place true addr size (shown (some 9) 0) k made in
    (sym (ap (λ r. r.0.1.0) e), sym (ap (λ r. space r.1) e) ∙ s, sym (ap (λ r. r.1.fds) e) ∙ f)

mach-MachLaws : MachLaws mach 4096 space (λ k. k.fds)
mach-MachLaws = record {
  allocate_anywhere = λ task addr size k p k' e paged.
      let m = mmap_ok false addr size (λ _. own) k p k' (answered addr _ e) in
      let pages : Paged 4096 p = record { count = (k.top + 4095) / 4096; pages = m.from refl } in
      (m.shows, m.opens, omega (arith, m.fits), pages, m.free refl);
  allocate_in_place = λ task addr size k p k' e at paged.
      let m = mmap_ok true addr size (λ _. own) k p k' (answered addr _ e) in
      (m.there refl, m.shows ∙ ap (λ x. put x size (λ _. own) (space k)) (m.there refl), m.opens);
  allocate_fail = λ task addr size flags k code p k' e bad.
      let (same, failed) = refused addr _ code p e bad in
      let (s, f) = same_place (not (flags == 1)) addr size (λ _. own) k failed in (same, s, f);
  entry_ok = λ task size addr perm parent handle k size' port k' e at paged.
      let m = entered addr size k _ size' port k' refl e in (m.same, m.shows, m.held);
  entry_fail = λ task size addr perm parent handle k code size' port k' e bad.
      not_entered addr size k _ code size' port k' refl e bad;
  map_ok = λ task addr size mask port offset cur most inherit k p k' e at paged.
      let f = shown (some port) offset in
      let m = mmap_ok true addr size f k p k' (answered addr _ e) in
      (m.shows ∙ ap (λ x. put x size f (space k)) (m.there refl), m.opens);
  map_fail = λ task addr size mask flags port offset cur most inherit k code p k' e bad.
      let (_, failed) = refused addr _ code p e bad in
      same_place true addr size (shown (some port) offset) k failed;
  deallocate_ok =
      λ task addr size k k' e at paged. sym (ap (λ q. space q.1) e) ∙ cleared k addr size;
  deallocate_fail =
      λ task addr size k code k' e bad at paged. absurd (ground (arith, ap (λ q. q.0) e, bad));
  deallocate_ports = λ task addr size k. refl;
}

abbrev start : Kernel
start = record { cells = λ _. unmapped; top = 65000; fds = [] }

page : Paged 4096 8192
page = record { count = 2; pages = refl }

mach_ring-Balanced_example : Balanced mach mach-MachLaws ℕ 8192 start (map_ring mach 8192 start)
mach_ring-Balanced_example =
    mach_ring-Balanced mach mach-MachLaws ℕ 8192 start page (omega arith) (omega arith)

abbrev page_4k : Size
page_4k = record { unit = 4096 }

page_4k-IsUnit : IsUnit page_4k
page_4k-IsUnit = record { log = 12; log_small = omega arith; is_pow = refl }

abbrev load : Kernel → ℕ → ℕ → List ℕ
load k ptr n = replicate n 0

abbrev os : RingPlatform Kernel ℕ
os = mach_rings_of ℕ mach page_4k mach-MachLaws load

abbrev after_new : Kernel
after_new = (map_ring {S = ℕ} mach 4096 start).1

abbrev ring : Ring
ring = record { ptr = 65536; mem = replicate 4096 0; len = 4096; rpos = 0; wpos = 0 }

made : Ring.new page_4k os 100 start ≡ (ok ring, after_new)
unfolding Ring.new round Size.truncate map_ring attempt map_primary map_entry map_secondary
made = refl

mach_rings_example :
    GivenBack os
      (BackButPort ℕ mach page_4k mach-MachLaws load)
      page_4k
      100
      start
      ring
      after_new
      (Calls.Op.write (1 ∷ 2 ∷ []) ∷ Calls.Op.consume 1 ∷ [])
      (Op.write_all (1 ∷ 2 ∷ []) ∷ Op.fill_buf ∷ [])
mach_rings_example =
    mach_rings ℕ mach page_4k mach-MachLaws load 100 start
      (Calls.Op.write (1 ∷ 2 ∷ []) ∷ Calls.Op.consume 1 ∷ [])
      (Op.write_all (1 ∷ 2 ∷ []) ∷ Op.fill_buf ∷ []) page_4k-IsUnit (omega arith) (omega arith) made
