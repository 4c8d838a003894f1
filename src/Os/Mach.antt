-- ===== src/Os/Mach.antt =====
-- src/os/unix/mach.rs: the mapping behind a ring, where the system is Mach.
pub mod Space
pub mod Cleanup
pub mod Balance
mod Tests
use vmap_rs.Prelude.{
  ℕ, ◌≡◌, refl, ap, ◌∙◌, inl, inr, Bool-cases, ◌==◌, ==→≡, if_post, if◌then◌else◌, Bool, true,
  false,
}
use vmap_rs.Word.{add_word, bit_or}
use vmap_rs.Std.{Result, ok, err}
use vmap_rs.Error.{Error, Operation, SystemError, kernel}
use vmap_rs.Os.{Call, ◌>>=◌, pure}

-- What the extern block declares. A call gives its return code, and what it leaves behind the
-- pointers that it was given: the address, or the size and the port.
pub record Mach (St : Type 0) : Type 0 where
  pub mach_task_self : ℕ
  pub vm_allocate : ℕ → ℕ → ℕ → ℕ → St → (ℕ × ℕ) × St
  pub vm_deallocate : ℕ → ℕ → ℕ → St → ℕ × St
  -- `target_task`, `address`, `size`, `mask`, `flags`, `object`, `offset`, `copy`, the two
  -- protections and `inheritance`
  pub vm_map : ℕ → ℕ → ℕ → ℕ → ℕ → ℕ → ℕ → Bool → ℕ → ℕ → ℕ → St → (ℕ × ℕ) × St
  -- `target_task`, `size`, `offset`, `permission`, `object_handle` and `parent_entry`
  pub mach_make_memory_entry : ℕ → ℕ → ℕ → ℕ → ℕ → ℕ → St → (ℕ × (ℕ × ℕ)) × St

abbrev pub kern_success : ℕ
kern_success = 0

-- `VM_PROT_READ | VM_PROT_WRITE`
abbrev pub vm_prot_default : ℕ
vm_prot_default = bit_or 1 2

abbrev pub vm_flags_fixed : ℕ
vm_flags_fixed = 0

abbrev pub vm_flags_anywhere : ℕ
vm_flags_anywhere = 1

abbrev pub vm_flags_overwrite : ℕ
vm_flags_overwrite = 16384

-- `VM_FLAGS_FIXED | VM_FLAGS_OVERWRITE`
abbrev pub in_place : ℕ
in_place = bit_or vm_flags_fixed vm_flags_overwrite

abbrev pub vm_inherit_none : ℕ
vm_inherit_none = 2

-- The clean-up that the failing branches share.
pub deallocate : {St : Type 0} → Mach St → ℕ → ℕ → St → St
deallocate mach addr len st = (mach.vm_deallocate mach.mach_task_self addr (add_word len len) st).1

module _ {St S : Type 0} ⦃sys : SystemError S⦄ where
  -- A call, and the check of its code: on failure `undo` runs, whose result is discarded, and the
  -- code becomes the error.
  unfoldable pub attempt :
      {A B : Type 0}
      → Operation
      → (St → (ℕ × A) × St)
      → (A → St → St)
      → (A → Call St S B)
      → Call St S B
  attempt op call undo next st =
      let (out, st') = call st in
      if out.0 == kern_success then next out.1 st' else (err (kernel op out.0), undo out.1 st')

  -- To prove `Q` of an attempt: split on how its call ends.
  pub attempt_post {κ} :
      {A B : Type 0} (Q : Result B (Error S) × St → Type κ) (op : Operation)
      (call : St → (ℕ × A) × St) (undo : A → St → St) (next : A → Call St S B) (st : St)
      → ((a : A) (st' : St) → call st ≡ ((kern_success, a), st') → Q (next a st'))
      → ((code : ℕ) (a : A) (st' : St)
          → call st ≡ ((code, a), st')
          → (code == kern_success) ≡ false
          → Q (err (kernel op code), undo a st'))
      → Q (attempt op call undo next st)
  unfolding attempt
  attempt_post Q op call undo next st on_ok on_err =
      let ((code, a), st') = call st in
      if_post Q (code == kern_success) (next a st') (err (kernel op code), undo a st')
        (λ h. on_ok a st' (ap (λ c. ((c, a), st')) (==→≡ code kern_success h)))
        (λ h. on_err code a st' refl h)

module _ {St S : Type 0} (mach : Mach St) ⦃sys : SystemError S⦄ where
  pub map_secondary : ℕ → ℕ → ℕ → Call St S ℕ
  map_secondary addr len map_port =
      attempt Operation.ring_secondary
        (mach.vm_map mach.mach_task_self (add_word addr len) len 0 in_place map_port 0 false
          vm_prot_default vm_prot_default vm_inherit_none)
        (λ _. deallocate mach addr len) (λ _. pure addr)

  -- The memory entry may change the length.
  pub map_entry : ℕ → ℕ → Call St S ℕ
  map_entry addr len =
      attempt Operation.ring_entry
        (mach.mach_make_memory_entry mach.mach_task_self len addr vm_prot_default 0 0)
        (λ out. deallocate mach addr out.0) (λ out. map_secondary addr out.0 out.1)

  pub map_primary : ℕ → ℕ → Call St S ℕ
  map_primary addr len =
      attempt Operation.ring_primary (mach.vm_allocate mach.mach_task_self addr len in_place)
        (λ at. deallocate mach at len) (λ at. map_entry at len)

  pub map_ring : ℕ → Call St S ℕ
  map_ring len =
      attempt Operation.ring_allocate
        (mach.vm_allocate mach.mach_task_self 0 (add_word len len) vm_flags_anywhere) (λ _ st. st)
        (λ addr. map_primary addr len)

  pub unmap_ring : ℕ → ℕ → Call St S (Unit {0})
  unmap_ring pg len st =
      let (ret, st') = mach.vm_deallocate mach.mach_task_self pg (add_word len len) st in
      if ret == kern_success
      then (ok tt, st')
      else (err (kernel Operation.ring_deallocate ret), st')
