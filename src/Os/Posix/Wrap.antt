-- ===== src/Os/Posix/Wrap.antt =====
-- `wrap_fd` of src/os/unix/posix/mod.rs: what it leaves of the address space and of the open
-- descriptors.
use vmap_rs.Prelude.{
  ℕ, ◌+◌, ◌*◌, ◌<◌, ◌≤◌, ◌≡◌, refl, sym, ap, ◌∙◌, ◌⊎◌, inl, inr, subst, List, Option, none, some,
  arith,
}
use vmap_rs.Word.{word, add_word}
use vmap_rs.Std.{Result, ok, err}
use vmap_rs.Error.{Error, Operation}
use vmap_rs.Os.{◌>>=◌, pure}
use vmap_rs.Os.Libc.{Libc, prot_read_write}
use vmap_rs.Os.Unix.{result_post, done_state, unmap}
use vmap_rs.Os.Posix.{map_reserve, map_half, map, wrap_ptr, unmap_ring, or_unmap, wrap_fd}
use vmap_rs.Os.Space.{
  Paged, paged_both, unmapped, Space, put, shown, put-below, put-above, Mirrored, Outside, put_back,
  put-Outside, Outside-trans, put-Mirrored,
}
use vmap_rs.Os.Posix.Space.{LibcLaws}

module _ {St S : Type 0} (libc : Libc St S) {space : St → Space} {fds : St → List ℕ} {page : ℕ}
    (laws : LibcLaws libc page space fds) where
  -- Of a run of `wrap_fd` from `st` to `st'` that fails with `e`: the halves could not be mapped into
  -- the `2 * len` addresses at `at`, which had been reserved and were free in `st`, and the `munmap` of
  -- them failed. Nothing else has changed.
  pub record NotUnmapped (len fd : ℕ) (e : Error S) (st st' : St) : Type 0 where
    pub at : ℕ
    pub reserved : St
    pub before : St
    pub reserves : libc.mmap 0 (2 * len) prot_read_write map_reserve none 0 st ≡ (some at, reserved)
    pub halves : wrap_ptr libc at len fd reserved ≡ (err e, before)
    pub call : libc.munmap at (2 * len) before ≡ (none, st')
    pub free : (a : ℕ) → at ≤ a → a < at + 2 * len → space st a ≡ unmapped
    pub left : Outside at (2 * len) (space st) (space st')

  -- After the halves were mapped into a range that was reserved.
  abbrev Wrapped : ℕ → ℕ → ℕ → St → Result ℕ (Error S) × St → Type 0
  Wrapped pg len fd st (ok p, st') =
      (p ≡ pg)
      × (fds st' ≡ fds st)
      × (space st'
          ≡ put (pg + len) len (shown (some fd) 0) (put pg len (shown (some fd) 0) (space st)))
  Wrapped pg len fd st (err e, st') =
      (fds st' ≡ fds st) × Outside pg (2 * len) (space st) (space st')

  mmap_half :
      (at len fd : ℕ) (st : St) (p : ℕ) (st' : St)
      → Paged page len
      → libc.mmap at len prot_read_write map_half (some fd) 0 st ≡ (some p, st')
      → (p ≡ at) × (space st' ≡ put at len (shown (some fd) 0) (space st)) × (fds st' ≡ fds st)
  mmap_half at len fd st p st' paged e =
      let (shows, same, _) =
        laws.mmap_ok at len prot_read_write map_half (some fd) 0 st p st' e paged in
      let there = laws.mmap_fixed at len prot_read_write map_half (some fd) 0 st p st' e refl in
      (there, shows ∙ ap (λ x. put x len (shown (some fd) 0) (space st)) there, same)

  wrap_ptr-Wrapped :
      (pg len fd : ℕ) (st : St)
      → Paged page len
      → pg + len < word
      → Wrapped pg len fd st (wrap_ptr libc pg len fd st)
  unfolding wrap_ptr map
  wrap_ptr-Wrapped pg len fd st paged h =
      let next : add_word pg len ≡ pg + len = omega arith in
      let f = shown (some fd) 0 in
      rw next (
        result_post libc (Wrapped pg len fd st) Operation.ring_primary
          (libc.mmap pg len prot_read_write map_half (some fd) 0)
          (λ _.
            map libc Operation.ring_secondary (pg + len) len map_half (some fd) >>= λ _. pure pg)
          st
          (λ p st1 first.
            let (_, s1, f1) = mmap_half pg len fd st p st1 paged first in
            result_post libc (Wrapped pg len fd st) Operation.ring_secondary
              (libc.mmap (pg + len) len prot_read_write map_half (some fd) 0) (λ _. pure pg) st1
              (λ q st2 second.
                let (_, s2, f2) = mmap_half (pg + len) len fd st1 q st2 paged second in
                (refl, f2 ∙ f1, s2 ∙ ap (put (pg + len) len f) s1))
              (λ st2 failed.
                let (s2, f2) =
                  laws.mmap_fail (pg + len) len prot_read_write map_half (some fd) 0 st1 st2
                    failed in
                (
                  f2 ∙ f1,
                  (
                    (λ a below. ap (λ s. s a) (s2 ∙ s1) ∙ put-below pg len f (space st) a below),
                    (λ a above.
                        ap (λ s. s a) (s2 ∙ s1) ∙ put-above pg len f (space st) a (omega arith)),
                  ),
                )))
          (λ st1 failed.
            let (s1, f1) =
              laws.mmap_fail pg len prot_read_write map_half (some fd) 0 st st1 failed in
            (f1, ((λ a _. ap (λ s. s a) s1), (λ a _. ap (λ s. s a) s1)))))

  -- How `wrap_fd` ends.
  abbrev pub Ends : ℕ → ℕ → St → Result ℕ (Error S) × St → Type 0
  Ends len fd st (ok pg, st') = (fds st' ≡ fds st) × Mirrored len (space st) (space st') pg
  Ends len fd st (err e, st') =
      (fds st' ≡ fds st) × (((a : ℕ) → space st' a ≡ space st a) ⊎ NotUnmapped len fd e st st')

  -- The range of `2 * len` addresses at `pg` was free in `st` and is reserved in `st1`.
  record Reserved (pg len : ℕ) (st st1 : St) : Type 0 where
    shows : space st1 ≡ put pg (2 * len) (shown none 0) (space st)
    opens : fds st1 ≡ fds st
    free : (a : ℕ) → pg ≤ a → a < pg + 2 * len → space st a ≡ unmapped
    fits : pg + 2 * len ≤ word
    call : libc.mmap 0 (2 * len) prot_read_write map_reserve none 0 st ≡ (some pg, st1)

  reserved-Outside :
      {pg len : ℕ} {st st1 : St}
      → Reserved pg len st st1
      → Outside pg (2 * len) (space st) (space st1)
  reserved-Outside {pg} {len} {st} r =
      subst (Outside pg (2 * len) (space st)) (sym r.shows)
        (put-Outside pg (2 * len) (shown none 0) (space st))

  -- The reserved range is given back, or that fails.
  given_back :
      (pg len fd : ℕ) (x : Error S) (st st1 st2 : St) (out : Option ℕ) (st3 : St)
      → Paged page len
      → Reserved pg len st st1
      → wrap_ptr libc pg len fd st1 ≡ (err x, st2)
      → Outside pg (2 * len) (space st1) (space st2)
      → libc.munmap pg (2 * len) st2 ≡ (out, st3)
      → ((a : ℕ) → space st3 a ≡ space st a) ⊎ NotUnmapped len fd x st st3
  given_back pg len fd x st st1 st2 none st3 paged r halves o e =
      let rest = Outside-trans pg (2 * len) (reserved-Outside r) o in
      inr (record {
        at = pg;
        reserved = st1;
        before = st2;
        reserves = r.call;
        halves = halves;
        call = e;
        free = r.free;
        left =
            Outside-trans pg (2 * len) rest
              (laws.munmap_fail pg (2 * len) st2 st3 e (paged_both paged));
      })
  given_back pg len fd x st st1 st2 (some k) st3 paged r halves o e =
      let gone = laws.munmap_ok pg (2 * len) st2 k st3 e (paged_both paged) in
      let now = λ (a : ℕ). ap (λ s. s a) gone in
      inl (λ a.
        now a
        ∙ put_back pg (2 * len) (space st) (space st2) r.free
            (Outside-trans pg (2 * len) (reserved-Outside r) o) a)

  or_unmap-Ends :
      (pg len fd : ℕ) (st st1 : St) (p : Result ℕ (Error S) × St)
      → Paged page len
      → Reserved pg len st st1
      → 2 * len < word
      → wrap_ptr libc pg len fd st1 ≡ p
      → Wrapped pg len fd st1 p
      → Ends len fd st (or_unmap libc pg len p)
  unfolding or_unmap unmap_ring unmap
  or_unmap-Ends pg len fd st st1 (ok p, st2) paged r h run (at, f, s) = (
    f ∙ r.opens,
    subst (Mirrored len (space st) (space st2)) (sym at) (
        put-Mirrored pg len fd (space st) (space st1) (space st2) r.free r.fits (reserved-Outside r)
          s),
  )
  or_unmap-Ends pg len fd st st1 (err e, st2) paged r h run (f, o) =
      let both : add_word len len ≡ 2 * len = omega arith in
      let leaves : (unmap_ring libc pg len st2).1 ≡ (libc.munmap pg (2 * len) st2).1 =
        done_state libc Operation.unmap (libc.munmap pg (add_word len len)) st2
        ∙ ap (λ n. (libc.munmap pg n st2).1) both in
      rw leaves (
        laws.munmap_fds pg (2 * len) st2 ∙ f ∙ r.opens,
        given_back pg len fd e st st1 st2 (libc.munmap pg (2 * len) st2).0
            (libc.munmap pg (2 * len) st2).1 paged r run o refl,
      )

  pub wrap_fd-Ends :
      (len fd : ℕ) (st : St)
      → Paged page len
      → 0 < len
      → 2 * len < word
      → Ends len fd st (wrap_fd libc len fd st)
  unfolding wrap_fd map
  wrap_fd-Ends len fd st paged pos h =
      let both : add_word len len ≡ 2 * len = omega arith in
      rw both (
        result_post libc (Ends len fd st) Operation.ring_allocate
          (libc.mmap 0 (2 * len) prot_read_write map_reserve none 0)
          (λ pg st1. or_unmap libc pg len (wrap_ptr libc pg len fd st1)) st
          (λ pg st1 e.
            let (s1, f1, fits) =
              laws.mmap_ok 0 (2 * len) prot_read_write map_reserve none 0 st pg st1 e
                (paged_both paged) in
            let free =
              laws.mmap_fresh 0 (2 * len) prot_read_write map_reserve none 0 st pg st1 e refl in
            or_unmap-Ends pg len fd st st1 (wrap_ptr libc pg len fd st1) paged
              (record { shows = s1; opens = f1; free = free; fits = fits; call = e }) h refl
              (wrap_ptr-Wrapped pg len fd st1 paged (omega (arith, fits))))
          (λ st1 e.
            let (s1, f1) = laws.mmap_fail 0 (2 * len) prot_read_write map_reserve none 0 st st1 e in
            (f1, inl (λ a. ap (λ s. s a) s1))))
