-- ===== src/Os/Posix/Lifetime.antt =====
-- `map_ring` and `unmap_ring` of src/os/unix/posix/mod.rs as what the rings use of a platform.
use vmap_rs.Prelude.{
  ℕ, ◌*◌, ◌<◌, ◌≡◌, refl, ap, ◌∙◌, ◌⊎◌, inl, inr, subst, List, Option, none, some, arith,
}
use vmap_rs.Word.{word, add_word}
use vmap_rs.Std.{ok}
use vmap_rs.Error.{Operation}
use vmap_rs.Os.{RingPlatform}
use vmap_rs.Os.Libc.{Libc}
use vmap_rs.Os.Unix.{done_state, unmap}
use vmap_rs.Os.Space.{Paged, paged_both, Space, Mirrored, Outside, Outside-trans, put_back}
use vmap_rs.Os.Posix.{map_ring, unmap_ring}
use vmap_rs.Os.Posix.Space.{LibcLaws}
use vmap_rs.Os.Posix.Balance.{Balanced, map_ring-Balanced}

-- What the rings use of it.
abbrev pub rings : {St S : Type 0} → Libc St S → (St → ℕ → ℕ → List ℕ) → RingPlatform St S
rings libc load = record { map_ring = map_ring libc; unmap_ring = unmap_ring libc; load = load }

module _ {St S : Type 0} (libc : Libc St S) {space : St → Space} {fds : St → List ℕ} {page : ℕ}
    (laws : LibcLaws libc page space fds) where
  -- The `munmap` of the ring at `pg` failed, and only its addresses may differ.
  pub record Stuck (st : St) (pg len : ℕ) (made st' : St) : Type 0 where
    pub call : libc.munmap pg (2 * len) made ≡ (none, st')
    pub left : Outside pg (2 * len) (space st) (space st')

  -- The descriptors that were open are, and the address space is as it was, or the `munmap` failed.
  abbrev pub Restored : St → ℕ → ℕ → St → St → Type 0
  Restored st pg len made st' =
      (fds st' ≡ fds st) × (((a : ℕ) → space st' a ≡ space st a) ⊎ Stuck st pg len made st')

  unmapped_again :
      (pg len : ℕ) (st st1 : St) (out : Option ℕ) (st2 : St)
      → Paged page len
      → Mirrored len (space st) (space st1) pg
      → libc.munmap pg (2 * len) st1 ≡ (out, st2)
      → ((a : ℕ) → space st2 a ≡ space st a) ⊎ Stuck st pg len st1 st2
  unmapped_again pg len st st1 none st2 paged m e = inr (record {
    call = e;
    left =
        Outside-trans pg (2 * len) (m.below, m.above)
          (laws.munmap_fail pg (2 * len) st1 st2 e (paged_both paged));
  })
  unmapped_again pg len st st1 (some k) st2 paged m e =
      let gone = laws.munmap_ok pg (2 * len) st1 k st2 e (paged_both paged) in
      inl (λ a.
        ap (λ s. s a) gone
        ∙ put_back pg (2 * len) (space st) (space st1) m.free (m.below, m.above) a)

  -- A ring that `map_ring` made and `unmap_ring` takes away leaves the descriptors and the address
  -- space as they were before both, unless the `munmap` failed. The length is a positive number of
  -- whole pages whose double is below `2 ^ 64`, and the system keeps to `LibcLaws`.
  pub unmap_ring-Restored :
      (len : ℕ) (st : St) (pg : ℕ) (st1 : St)
      → Paged page len
      → 0 < len
      → 2 * len < word
      → map_ring libc len st ≡ (ok pg, st1)
      → Restored st pg len st1 (unmap_ring libc pg len st1).1
  unfolding unmap_ring unmap
  unmap_ring-Restored len st pg st1 paged pos h e =
      let (f, m) =
        subst (Balanced libc laws len st) e (map_ring-Balanced libc laws len st paged pos h) in
      let both : add_word len len ≡ 2 * len = omega arith in
      let leaves : (unmap_ring libc pg len st1).1 ≡ (libc.munmap pg (2 * len) st1).1 =
        done_state libc Operation.unmap (libc.munmap pg (add_word len len)) st1
        ∙ ap (λ n. (libc.munmap pg n st1).1) both in
      rw leaves (
        laws.munmap_fds pg (2 * len) st1 ∙ f,
        unmapped_again pg len st st1 (libc.munmap pg (2 * len) st1).0
            (libc.munmap pg (2 * len) st1).1 paged m refl,
      )
