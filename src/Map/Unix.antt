-- ===== src/Map/Unix.antt =====
-- A map of src/map.rs over src/os/unix/mod.rs: which bytes it shows, and what its drop leaves.
mod Tests
use vmap_rs.Prelude.{
  ℕ, ◌+◌, ◌-◌, ◌%◌, ◌<◌, ◌≤◌, ◌≡◌, refl, sym, ap, ◌∙◌, subst, ◌⊎◌, inl, inr, Option, none, some,
  false, arith,
}
use vmap_rs.Word.{word}
use vmap_rs.Std.{ok}
use vmap_rs.Error.{Operation}
use vmap_rs.Size.{Size, round}
use vmap_rs.Size.Units.{IsUnit}
use vmap_rs.Types.{Protect}
use vmap_rs.Os.{Files}
use vmap_rs.Os.Libc.{Libc, Prot, MapFlags}
use vmap_rs.Os.Space.{unmapped, Space, put, shown, backed, Outside, Outside-trans, put_back}
use vmap_rs.Os.Unix.{unix, map_file, file_flags, result_ok, done_state, unmap}
use vmap_rs.Map.{MapMut, map_mut_from_ptr, drop}
use vmap_rs.Map.Options.{Options, map_if}
use vmap_rs.Map.Options.Extents.{FileLaws, FileSteps, here, by_metadata, by_set}
use vmap_rs.Map.Lifetime.{Places, Dropped, map_if-Dropped}

-- What is documented of mappings of whole pages: a mapping takes up whole pages that were free, a
-- `munmap` that fails may have changed the pages that it was called with and no others, and
-- the calls of `std::fs` leave the address space alone.
pub record UnixLaws {St S : Type 0} (libc : Libc St S) (files : Files St) (page : Size)
    (space : St → Space) : Type 0 where
  pub map_ok :
      (len : ℕ) (prot : Prot) (flags : MapFlags) (fd : Option ℕ) (off : ℕ) (st : St) (p : ℕ)
      (st' : St)
      → libc.mmap 0 len prot flags fd off st ≡ (some p, st')
      → flags.fixed ≡ false
      → (p % page.unit ≡ 0)
        × (p + len + page.unit ≤ word)
        × ((i : ℕ) → i < len → space st' (p + i) ≡ shown fd off i)
        × Outside p (round page len) (space st) (space st')
        × ((a : ℕ) → p ≤ a → a < p + round page len → space st a ≡ unmapped)
  pub unmap_ok :
      (p len : ℕ) (st : St) (r : ℕ) (st' : St)
      → libc.munmap p len st ≡ (some r, st')
      → len % page.unit ≡ 0
      → space st' ≡ put p len (λ _. unmapped) (space st)
  pub unmap_fail :
      (p len : ℕ) (st st' : St)
      → libc.munmap p len st ≡ (none, st')
      → len % page.unit ≡ 0
      → Outside p len (space st) (space st')
  pub metadata_keeps :
      (f : ℕ) (st : St) (n : ℕ) (st' : St)
      → files.metadata_len f st ≡ (ok n, st')
      → space st' ≡ space st
  pub set_keeps :
      (f n : ℕ) (st : St) (u : Unit {0}) (st' : St)
      → files.set_len f n st ≡ (ok u, st')
      → space st' ≡ space st

not_fixed : (p : Protect) → (file_flags p).1.fixed ≡ false
unfolding file_flags
not_fixed Protect.read_only = refl
not_fixed Protect.read_write = refl
not_fixed Protect.read_copy = refl
not_fixed Protect.read_exec = refl

module _ {St S : Type 0} (libc : Libc St S) (files : Files St) (page : Size) {space : St → Space}
    (laws : UnixLaws libc files page space) where
  -- The `munmap` of the drop failed: it was called on whole pages that hold the map `m` and that were
  -- free in `st`, and only these may differ now.
  pub record Stuck (st : St) (m : MapMut) (made st' : St) : Type 0 where
    pub at : ℕ
    pub len : ℕ
    pub call : libc.munmap at len made ≡ (none, st')
    pub holds : (at ≤ m.ptr) × (m.ptr + m.len ≤ at + len)
    pub near : (m.ptr < at + page.unit) × (at + len < m.ptr + m.len + page.unit)
    pub free : (a : ℕ) → at ≤ a → a < at + len → space st a ≡ unmapped
    pub left : Outside at len (space st) (space st')

  called :
      (f off len : ℕ) (p : Protect) (st : St) {base : ℕ} {st' : St}
      → map_file libc f off len p st ≡ (ok base, st')
      → libc.mmap 0 len (file_flags p).0 (file_flags p).1 (some f) off st ≡ (some base, st')
  unfolding map_file
  called f off len p st e =
      result_ok libc Operation.map_file
        (libc.mmap 0 len (file_flags p).0 (file_flags p).1 (some f) off) st e

  unix-Places : Places (unix libc) page
  unfolding unix
  unix-Places = record {
    placed = λ f off len p st base st' e.
        let (at, fits, _, _, _) =
          laws.map_ok len (file_flags p).0 (file_flags p).1 (some f) off st base st'
            (called f off len p st e) (not_fixed p) in
        (at, fits);
  }

  steps_keep : {f : ℕ} {st st' : St} → FileSteps files f st st' → space st' ≡ space st
  steps_keep here = refl
  steps_keep {f} (by_metadata {st1} {st2} n s e) = laws.metadata_keeps f st1 n st2 e ∙ steps_keep s
  steps_keep {f} (by_set {st1} {st2} n u s e) = laws.set_keeps f n st1 u st2 e ∙ steps_keep s

  -- The pages of the map are taken away, or that fails.
  given_back :
      (base n : ℕ) (st before st1 : St) (out : Option ℕ) (st2 : St)
      → space before ≡ space st
      → n % page.unit ≡ 0
      → ((a : ℕ) → base ≤ a → a < base + n → space before a ≡ unmapped)
      → Outside base n (space before) (space st1)
      → libc.munmap base n st1 ≡ (out, st2)
      → ((a : ℕ) → space st2 a ≡ space st a)
        ⊎ ((out ≡ none) × Outside base n (space st) (space st2))
  given_back base n st before st1 none st2 same whole free o e =
      let only = laws.unmap_fail base n st1 st2 e whole in
      inr (refl, rw⁻¹ same (Outside-trans base n o only))
  given_back base n st before st1 (some r) st2 same whole free o e =
      let gone = laws.unmap_ok base n st1 r st2 e whole in
      inl (λ a.
        ap (λ s. s a) gone
        ∙ put_back base n (space before) (space st1) free o a
        ∙ ap (λ s. s a) same)

  -- A map that `map_if` made over Unix, if it is not empty, shows at its i-th address the byte of the
  -- file that lies i bytes past the offset of the options; and once it is dropped, the address space
  -- is as it was before `map_if`, unless the `munmap` of the drop failed: then it is so
  -- outside of the pages of the map. The page size is a power of two,
  -- `std::fs` keeps to `FileLaws`, and the system to `UnixLaws`.
  pub unix_map :
      (alloc : Size) {len_of : ℕ → St → ℕ} (o : Options) (f : ℕ) (st : St) (m : MapMut) (st' : St)
      (i : ℕ)
      → FileLaws files len_of
      → IsUnit page
      → map_if (unix libc) files alloc page o f st ≡ (ok (some m), st')
      → i < m.len
      → (space st' (m.ptr + i) ≡ backed f (o.offset + i))
        × (((a : ℕ) → space (drop (unix libc) alloc page m st') a ≡ space st a)
            ⊎ Stuck st m st' (drop (unix libc) alloc page m st'))
  unfolding unix unmap
  unix_map alloc o f st m st' i file_laws u e h =
      let d = map_if-Dropped (unix libc) files alloc page file_laws unix-Places u o f st m st' e in
      let (p, flags) = file_flags o.protect in
      let (at, fits, shows, o_keeps, free) =
        laws.map_ok d.maplen p flags (some f) d.mapoff d.before d.base st'
          (called f d.mapoff d.maplen o.protect d.before d.call) (not_fixed o.protect) in
      let (n, drops, least, most, whole, is_round) = d.gives_back (omega (arith, h)) in
      let gap = o.offset - d.mapoff in
      let addr : m.ptr + i ≡ d.base + (gap + i) = omega (arith, d.placed) in
      let from : d.mapoff + (gap + i) ≡ o.offset + i = omega (arith, d.near) in
      let leaves : drop (unix libc) alloc page m st' ≡ (libc.munmap d.base n st').1 =
        drops ∙ done_state libc Operation.unmap (libc.munmap d.base n) st' in
      let same = steps_keep d.steps in
      let pages_free : (a : ℕ) → d.base ≤ a → a < d.base + n → space d.before a ≡ unmapped =
        λ a low high. free a low (omega (arith, high, is_round)) in
      (
        ap (space st') addr ∙ shows (gap + i) (omega (arith, d.placed, h)) ∙ ap (backed f) from,
        rw leaves
            (elim (given_back d.base n st d.before st' (libc.munmap d.base n st').0
              (libc.munmap d.base n st').1 same whole pages_free
              (subst (λ k. Outside d.base k (space d.before) (space st')) (sym is_round) o_keeps)
              refl) [
                | inl all ↦ inl all
                | inr (failed, left) ↦ inr (record {
                  at = d.base;
                  len = n;
                  call = ap (λ out. (out, (libc.munmap d.base n st').1)) failed;
                  holds = omega (arith, d.placed, least);
                  near = omega (arith, d.placed, most, d.near);
                  free = λ a low high. ap (λ s. s a) (sym same) ∙ pages_free a low high;
                  left = left;
                })
              ]),
      )
