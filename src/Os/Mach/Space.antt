-- ===== src/Os/Mach/Space.antt =====
-- What Mach documents of the calls that src/os/unix/mach.rs makes: how they move the address space
-- and the ports that the task holds.
use vmap_rs.Prelude.{ℕ, ◌+◌, ◌<◌, ◌≤◌, ◌≡◌, ◌==◌, List, ◌∷◌, false, some}
use vmap_rs.Word.{word}
use vmap_rs.Os.Space.{Paged, unmapped, own, Space, Outside, put, shown}
use vmap_rs.Os.Mach.{Mach, kern_success, vm_flags_anywhere, in_place}

-- Once an entry is made of a range, the range and what is mapped from the entry show the bytes of
-- one object, which goes by the entry's port.
pub record MachLaws {St : Type 0} (mach : Mach St) (page : ℕ) (space : St → Space)
    (ports : St → List ℕ) : Type 0 where
  pub allocate_anywhere :
      (task addr size : ℕ) (st : St) (p : ℕ) (st' : St)
      → mach.vm_allocate task addr size vm_flags_anywhere st ≡ ((kern_success, p), st')
      → Paged page size
      → (space st' ≡ put p size (λ _. own) (space st))
        × (ports st' ≡ ports st)
        × (p + size ≤ word)
        × Paged page p
        × ((a : ℕ) → p ≤ a → a < p + size → space st a ≡ unmapped)
  pub allocate_in_place :
      (task addr size : ℕ) (st : St) (p : ℕ) (st' : St)
      → mach.vm_allocate task addr size in_place st ≡ ((kern_success, p), st')
      → Paged page addr
      → Paged page size
      → (p ≡ addr) × (space st' ≡ put addr size (λ _. own) (space st)) × (ports st' ≡ ports st)
  pub allocate_fail :
      (task addr size flags : ℕ) (st : St) (code p : ℕ) (st' : St)
      → mach.vm_allocate task addr size flags st ≡ ((code, p), st')
      → (code == kern_success) ≡ false
      → (p ≡ addr) × (space st' ≡ space st) × (ports st' ≡ ports st)
  pub entry_ok :
      (task size addr perm parent handle : ℕ) (st : St) (size' port : ℕ) (st' : St)
      → mach.mach_make_memory_entry task size addr perm handle parent st
        ≡ ((kern_success, (size', port)), st')
      → Paged page addr
      → Paged page size
      → (size' ≡ size)
        × (space st' ≡ put addr size (shown (some port) 0) (space st))
        × (ports st' ≡ port ∷ ports st)
  pub entry_fail :
      (task size addr perm parent handle : ℕ) (st : St) (code size' port : ℕ) (st' : St)
      → mach.mach_make_memory_entry task size addr perm handle parent st
        ≡ ((code, (size', port)), st')
      → (code == kern_success) ≡ false
      → (size' ≡ size) × (space st' ≡ space st) × (ports st' ≡ ports st)
  pub map_ok :
      (task addr size mask port offset cur most inherit : ℕ) (st : St) (p : ℕ) (st' : St)
      → mach.vm_map task addr size mask in_place port offset false cur most inherit st
        ≡ ((kern_success, p), st')
      → Paged page addr
      → Paged page size
      → (space st' ≡ put addr size (shown (some port) offset) (space st)) × (ports st' ≡ ports st)
  pub map_fail :
      (task addr size mask flags port offset : ℕ) (cur most inherit : ℕ) (st : St) (code p : ℕ)
      (st' : St)
      → mach.vm_map task addr size mask flags port offset false cur most inherit st
        ≡ ((code, p), st')
      → (code == kern_success) ≡ false
      → (space st' ≡ space st) × (ports st' ≡ ports st)
  pub deallocate_ok :
      (task addr size : ℕ) (st st' : St)
      → mach.vm_deallocate task addr size st ≡ (kern_success, st')
      → Paged page addr
      → Paged page size
      → space st' ≡ put addr size (λ _. unmapped) (space st)
  pub deallocate_fail :
      (task addr size : ℕ) (st : St) (code : ℕ) (st' : St)
      → mach.vm_deallocate task addr size st ≡ (code, st')
      → (code == kern_success) ≡ false
      → Paged page addr
      → Paged page size
      → Outside addr size (space st) (space st')
  pub deallocate_ports :
      (task addr size : ℕ) (st : St) → ports (mach.vm_deallocate task addr size st).1 ≡ ports st
