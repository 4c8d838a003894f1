-- ===== src/Os/Mach/Balance.antt =====
-- `map_ring` and `unmap_ring` of src/os/unix/mach.rs: what they leave of the address space and of the
-- ports that the task holds.
use vmap_rs.Prelude.{
  ℕ, ◌+◌, ◌*◌, ◌<◌, ◌≡◌, refl, sym, ap, ◌∙◌, ◌⊎◌, inl, inr, subst, List, ◌∷◌, arith, false, some,
  Bool-cases, ◌==◌,
}
use vmap_rs.Word.{word, add_word}
use vmap_rs.Std.{Result, ok, err}
use vmap_rs.Error.{Error, Operation, SystemError}
use vmap_rs.Os.{pure}
use vmap_rs.Os.Space.{
  Paged, Paged-add, paged_both, own, Space, put, shown, Mirrored, Outside, put-Outside,
  put-Mirrored,
}
use vmap_rs.Os.Mach.{
  Mach, kern_success, attempt_post, deallocate, map_secondary, map_entry, map_primary, map_ring,
  unmap_ring, in_place, vm_flags_anywhere, vm_prot_default, vm_inherit_none,
}
use vmap_rs.Os.Mach.Space.{MachLaws}
use vmap_rs.Os.Mach.Cleanup.{
  Restored, Unmapped, deallocate-Unmapped, Leaked, Taken, next_Taken, same-Outside, put-Taken,
  given_back, deallocate_ports,
}

module _ {St : Type 0} (mach : Mach St) {page : ℕ} {space : St → Space} {ports : St → List ℕ}
    (laws : MachLaws mach page space ports) where
  -- How `map_ring` ends.
  abbrev pub Ends : (S : Type 0) → ℕ → St → Result ℕ (Error S) × St → Type 0
  Ends S len st (ok pg, st') =
      Leaked mach laws st st' × Paged page pg × Mirrored len (space st) (space st') pg
  Ends S len st (err e, st') =
      ((ports st' ≡ ports st) ⊎ Leaked mach laws st st') × Restored mach laws len st st'

  module _ (S : Type 0) ⦃sys : SystemError S⦄ where
    map_secondary-Ends :
        {addr len port : ℕ} {st st1 st2 : St}
        → Taken mach laws addr len st st1
        → 2 * len < word
        → space st2 ≡ put addr len (shown (some port) 0) (space st1)
        → ports st2 ≡ port ∷ ports st
        → Ends S len st (map_secondary mach addr len port st2)
    unfolding map_secondary
    map_secondary-Ends {addr} {len} {port} {st} {st1} {st2} t h s f =
        let f0 = shown (some port) 0 in
        let next : add_word addr len ≡ addr + len = omega (arith, t.fits, t.pos) in
        let t2 = put-Taken mach laws f0 t s in
        attempt_post (Ends S len st) Operation.ring_secondary
          (mach.vm_map mach.mach_task_self (add_word addr len) len 0 in_place port 0 false
            vm_prot_default vm_prot_default vm_inherit_none)
          (λ _. deallocate mach addr len) (λ _. pure addr) st2
          (λ p st3 e.
            let (s3, f3) =
              laws.map_ok mach.mach_task_self (add_word addr len) len 0 port 0 vm_prot_default
                vm_prot_default vm_inherit_none st2 p st3 e
                (subst (Paged page) (sym next) (Paged-add t.paged t.paged_len)) t.paged_len in
            (
              record { port = port; held = f3 ∙ f },
              t.paged,
              put-Mirrored addr len port (space st) (space st1) (space st3) t.free t.fits t.rest
                  (s3 ∙ ap (λ a. put a len f0 (space st2)) next ∙ ap (put (addr + len) len f0) s),
            ))
          (λ code p st3 e bad.
            let (s3, f3) =
              laws.map_fail mach.mach_task_self (add_word addr len) len 0 in_place port 0
                vm_prot_default vm_prot_default vm_inherit_none st2 code p st3 e bad in
            (
              inr (record { port = port; held = deallocate_ports mach laws addr len st3 ∙ f3 ∙ f }),
              given_back mach laws
                  (next_Taken mach laws t2 (same-Outside mach laws addr (2 * len) s3)) h,
            ))

    map_entry-Ends :
        {addr len : ℕ} {st st1 : St}
        → Taken mach laws addr len st st1
        → 2 * len < word
        → ports st1 ≡ ports st
        → Ends S len st (map_entry mach addr len st1)
    unfolding map_entry
    map_entry-Ends {addr} {len} {st} {st1} t h f =
        let task = mach.mach_task_self in
        attempt_post (Ends S len st) Operation.ring_entry
          (mach.mach_make_memory_entry task len addr vm_prot_default 0 0)
          (λ out. deallocate mach addr out.0) (λ out. map_secondary mach addr out.0 out.1) st1
          (λ out st2 e.
            let (same, s2, f2) =
              laws.entry_ok task len addr vm_prot_default 0 0 st1 out.0 out.1 st2 e t.paged
                t.paged_len in
            subst (λ n. Ends S len st (map_secondary mach addr n out.1 st2)) (sym same)
              (map_secondary-Ends t h s2 (f2 ∙ ap (λ l. out.1 ∷ l) f)))
          (λ code out st2 e bad.
            let (same, s2, f2) =
              laws.entry_fail task len addr vm_prot_default 0 0 st1 code out.0 out.1 st2 e bad in
            rw same (
              inl (deallocate_ports mach laws addr len st2 ∙ f2 ∙ f),
              given_back mach laws
                  (next_Taken mach laws t (same-Outside mach laws addr (2 * len) s2)) h,
            ))

    map_primary-Ends :
        {addr len : ℕ} {st st1 : St}
        → Taken mach laws addr len st st1
        → 2 * len < word
        → ports st1 ≡ ports st
        → Ends S len st (map_primary mach addr len st1)
    unfolding map_primary
    map_primary-Ends {addr} {len} {st} {st1} t h f =
        let task = mach.mach_task_self in
        attempt_post (Ends S len st) Operation.ring_primary
          (mach.vm_allocate task addr len in_place) (λ at. deallocate mach at len)
          (λ at. map_entry mach at len) st1
          (λ at st2 e.
            let (same, s2, f2) =
              laws.allocate_in_place task addr len st1 at st2 e t.paged t.paged_len in
            subst (λ p. Ends S len st (map_entry mach p len st2)) (sym same)
              (map_entry-Ends (put-Taken mach laws (λ _. own) t s2) h (f2 ∙ f)))
          (λ code at st2 e bad.
            let (same, s2, f2) = laws.allocate_fail task addr len in_place st1 code at st2 e bad in
            rw same (
              inl (deallocate_ports mach laws addr len st2 ∙ f2 ∙ f),
              given_back mach laws
                  (next_Taken mach laws t (same-Outside mach laws addr (2 * len) s2)) h,
            ))

    mach_map-Ends :
        (len : ℕ) (st : St)
        → Paged page len
        → 0 < len
        → 2 * len < word
        → Ends S len st (map_ring mach len st)
    unfolding map_ring
    mach_map-Ends len st paged pos h =
        let both : add_word len len ≡ 2 * len = omega arith in
        let task = mach.mach_task_self in
        rw both (
          attempt_post (Ends S len st) Operation.ring_allocate
            (mach.vm_allocate task 0 (2 * len) vm_flags_anywhere) (λ _ st. st)
            (λ addr. map_primary mach addr len) st
            (λ p st1 e.
              let (s1, f1, fits, at, free) =
                laws.allocate_anywhere task 0 (2 * len) st p st1 e (paged_both paged) in
              map_primary-Ends
                (record {
                  free = free;
                  fits = fits;
                  pos = pos;
                  rest =
                      subst (Outside p (2 * len) (space st)) (sym s1)
                        (put-Outside p (2 * len) (λ _. own) (space st));
                  paged = at;
                  paged_len = paged;
                })
                h f1)
            (λ code p st1 e bad.
              let (_, s1, f1) =
                laws.allocate_fail task 0 (2 * len) vm_flags_anywhere st code p st1 e bad in
              (inl f1, inl (λ a. ap (λ s. s a) s1))))

    unmap_ring-state :
        (pg len : ℕ) (st : St) → (unmap_ring {S = S} mach pg len st).1 ≡ deallocate mach pg len st
    unfolding unmap_ring deallocate
    unmap_ring-state pg len st =
        elim (Bool-cases
          ((mach.vm_deallocate mach.mach_task_self pg (add_word len len) st).0 == kern_success)) [
            | inl h ↦ rw h refl
            | inr h ↦ rw h refl
          ]

    pub unmap_ring-Unmapped :
        (len : ℕ) (st : St) {pg : ℕ} {st1 : St}
        → Paged page len
        → 0 < len
        → 2 * len < word
        → map_ring {S = S} mach len st ≡ (ok pg, st1)
        → Unmapped mach laws st pg len st1 (unmap_ring {S = S} mach pg len st1).1
          × Leaked mach laws st (unmap_ring {S = S} mach pg len st1).1
    unmap_ring-Unmapped len st {pg} {st1} paged pos h e =
        let (leak, at, m) = subst (Ends S len st) e (mach_map-Ends len st paged pos h) in
        let taken : Taken mach laws pg len st st1 = record {
          free = m.free;
          fits = m.fits;
          pos = pos;
          rest = (m.below, m.above);
          paged = at;
          paged_len = paged;
        } in
        rw (unmap_ring-state pg len st1) (
          deallocate-Unmapped mach laws taken h,
          record { port = leak.port; held = deallocate_ports mach laws pg len st1 ∙ leak.held },
        )

    -- How `map_ring` ends, and `unmap_ring` after it.
    abbrev pub Balanced : ℕ → St → Result ℕ (Error S) × St → Type 0
    Balanced len st (ok pg, st') =
        Leaked mach laws st st'
        × Mirrored len (space st) (space st') pg
        × Unmapped mach laws st pg len st' (unmap_ring {S = S} mach pg len st').1
    Balanced len st (err e, st') =
        ((ports st' ≡ ports st) ⊎ Leaked mach laws st st') × Restored mach laws len st st'

    balanced :
        (len : ℕ) (st : St) (r : Result ℕ (Error S)) (st' : St)
        → Paged page len
        → 0 < len
        → 2 * len < word
        → map_ring mach len st ≡ (r, st')
        → Ends S len st (r, st')
        → Balanced len st (r, st')
    balanced len st (ok pg) st' paged pos h made (leak, _, m) =
        (leak, m, (unmap_ring-Unmapped len st paged pos h made).0)
    balanced len st (err e) st' paged pos h made ends = ends

    -- On success both halves of a range that was free show the same bytes of one object, nothing else
    -- of the address space changed, the task holds one port more, and `unmap_ring` of it leaves the
    -- address space as it was before `map_ring`. On failure the address space is as it was, and the
    -- task holds at most one port more. Where the `vm_deallocate` of `unmap_ring` or of the clean-up
    -- fails, the address space is so outside of the range that it was called on. The length is a positive number of whole pages whose double is below
    -- `2 ^ 64`, and the system keeps to `MachLaws`.
    pub mach_ring-Balanced :
        (len : ℕ) (st : St)
        → Paged page len
        → 0 < len
        → 2 * len < word
        → Balanced len st (map_ring mach len st)
    mach_ring-Balanced len st paged pos h =
        balanced len st (map_ring mach len st).0 (map_ring mach len st).1 paged pos h refl
          (mach_map-Ends len st paged pos h)
