-- ===== src/Os/Posix/Balance.antt =====
-- `map_ring` of src/os/unix/posix/mod.rs: what it leaves of the address space and of the open
-- descriptors.
use vmap_rs.Prelude.{
  ℕ, ◌+◌, ◌*◌, ◌<◌, ◌≤◌, ◌≡◌, refl, ap, ◌∙◌, ◌⊎◌, inl, inr, List, ◌∷◌, Option, none, some,
}
use vmap_rs.Word.{word}
use vmap_rs.Std.{Result, ok, err}
use vmap_rs.Error.{Error, Operation}
use vmap_rs.Os.{◌>>=◌}
use vmap_rs.Os.Libc.{Libc, prot_read_write}
use vmap_rs.Os.Unix.{result_bind_post}
use vmap_rs.Os.Posix.{
  map_reserve, wrap_ptr, wrap_fd, memfd_open, truncated, tmp_open, and_close, map_ring,
}
use vmap_rs.Os.Space.{Paged, unmapped, Space, Mirrored, Outside}
use vmap_rs.Os.Posix.Space.{LibcLaws}
use vmap_rs.Os.Posix.Wrap.{Ends, wrap_fd-Ends}

module _ {St S : Type 0} (libc : Libc St S) {space : St → Space} {fds : St → List ℕ} {page : ℕ}
    (laws : LibcLaws libc page space fds) where
  -- The same of a run of `map_ring`: `wrap_fd` ran from `opened`, where the descriptor of the file was
  -- open, to `after`, and then the descriptor was closed.
  pub record Stuck (len : ℕ) (e : Error S) (st st' : St) : Type 0 where
    pub at : ℕ
    pub fd : ℕ
    pub opened : St
    pub reserved : St
    pub before : St
    pub after : St
    pub opens : (fds opened ≡ fd ∷ fds st) × (space opened ≡ space st)
    pub reserves :
        libc.mmap 0 (2 * len) prot_read_write map_reserve none 0 opened ≡ (some at, reserved)
    pub halves : wrap_ptr libc at len fd reserved ≡ (err e, before)
    pub call : libc.munmap at (2 * len) before ≡ (none, after)
    pub closed : st' ≡ (libc.close fd after).1
    pub free : (a : ℕ) → at ≤ a → a < at + 2 * len → space st a ≡ unmapped
    pub left : Outside at (2 * len) (space st) (space st')

  -- How `map_ring` ends.
  abbrev pub Balanced : ℕ → St → Result ℕ (Error S) × St → Type 0
  Balanced len st (ok pg, st') = (fds st' ≡ fds st) × Mirrored len (space st) (space st') pg
  Balanced len st (err e, st') =
      (fds st' ≡ fds st) × (((a : ℕ) → space st' a ≡ space st a) ⊎ Stuck len e st st')

  -- The descriptor of the ring's file, opened on top of the others in `st`, is closed again.
  and_close-Balanced :
      (len fd : ℕ) (st st1 : St) (p : Result ℕ (Error S) × St)
      → space st1 ≡ space st
      → fds st1 ≡ fd ∷ fds st
      → Ends libc laws len fd st1 p
      → Balanced len st (and_close libc fd p)
  unfolding and_close
  and_close-Balanced len fd st st1 (ok pg, st2) s f (f2, m) =
      let (s3, f3) = laws.close_last fd st2 (fds st) (f2 ∙ f) in (f3, rw (s3, ← s) m)
  and_close-Balanced len fd st st1 (err e, st2) s f (f2, inl m) =
      let (s3, f3) = laws.close_last fd st2 (fds st) (f2 ∙ f) in
      (f3, inl (λ a. ap (λ t. t a) s3 ∙ m a ∙ ap (λ t. t a) s))
  and_close-Balanced len fd st st1 (err e, st2) s f (f2, inr u) =
      let (s3, f3) = laws.close_last fd st2 (fds st) (f2 ∙ f) in
      (
        f3,
        inr (record {
          at = u.at;
          fd = fd;
          opened = st1;
          reserved = u.reserved;
          before = u.before;
          after = st2;
          opens = (f, s);
          reserves = u.reserves;
          halves = u.halves;
          call = u.call;
          closed = refl;
          free = rw⁻¹ s u.free;
          left = rw s3 (rw⁻¹ s u.left);
        }),
      )

  truncated-Balanced :
      (len fd : ℕ) (st : St) (out : Option ℕ) (st1 : St)
      → Paged page len
      → 0 < len
      → 2 * len < word
      → space st1 ≡ space st
      → fds st1 ≡ fd ∷ fds st
      → Balanced len st (
          ((λ (_ : St). truncated libc fd (out, st1)) >>= λ fd st.
          and_close libc fd (wrap_fd libc len fd st))
            st)
  unfolding truncated
  truncated-Balanced len fd st none st1 paged pos h s f =
      let (s2, f2) = laws.close_last fd st1 (fds st) f in (f2, inl (λ a. ap (λ t. t a) (s2 ∙ s)))
  truncated-Balanced len fd st (some _) st1 paged pos h s f =
      and_close-Balanced len fd st st1 (wrap_fd libc len fd st1) s f
        (wrap_fd-Ends libc laws len fd st1 paged pos h)

  pub map_ring-Balanced :
      (len : ℕ) (st : St)
      → Paged page len
      → 0 < len
      → 2 * len < word
      → Balanced len st (map_ring libc len st)
  unfolding map_ring tmp_open memfd_open
  map_ring-Balanced len st paged pos h =
      let closing = λ (fd : ℕ) (st : St). and_close libc fd (wrap_fd libc len fd st) in
      result_bind_post libc (Balanced len st) Operation.memory_fd libc.memfd_create
        (λ fd st. truncated libc fd (libc.ftruncate fd len st)) closing st
        (λ fd st1 opened.
          let (s1, f1) = laws.memfd_ok st fd st1 opened in
          let (s2, f2) = laws.truncate_keeps fd len st1 in
          truncated-Balanced len fd st (libc.ftruncate fd len st1).0 (libc.ftruncate fd len st1).1
            paged pos h (s2 ∙ s1) (f2 ∙ f1))
        (λ st1 failed.
          let (s1, f1) = laws.memfd_fail st st1 failed in (f1, inl (λ a. ap (λ s. s a) s1)))
