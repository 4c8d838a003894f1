-- ===== src/Os/Mach/Cleanup.antt =====
-- The clean-up of src/os/unix/mach.rs: a range that was free and is deallocated is free again.
use vmap_rs.Prelude.{
  ℕ, ◌+◌, ◌*◌, ◌<◌, ◌≤◌, ◌≡◌, refl, sym, ap, ◌∙◌, ◌⊎◌, inl, inr, subst, List, ◌∷◌, arith, false,
  Bool-cases, ◌==◌, ==→≡,
}
use vmap_rs.Word.{word, add_word}
use vmap_rs.Os.Space.{
  Paged, paged_both, unmapped, Space, put, Outside, put_back, put-Outside_half, Outside-trans, Cell,
}
use vmap_rs.Os.Mach.{Mach, kern_success, deallocate}
use vmap_rs.Os.Mach.Space.{MachLaws}

module _ {St : Type 0} (mach : Mach St) {page : ℕ} {space : St → Space} {ports : St → List ℕ}
    (laws : MachLaws mach page space ports) where
  -- The `vm_deallocate` of the clean-up failed: it was called on the `2 * len` addresses at `addr`,
  -- which were free in `st`, nothing else had changed or has, and it left `st'`.
  pub record Stuck (len : ℕ) (st st' : St) : Type 0 where
    pub addr : ℕ
    pub before : St
    pub code : ℕ
    pub call : mach.vm_deallocate mach.mach_task_self addr (2 * len) before ≡ (code, st')
    pub failed : (code == kern_success) ≡ false
    pub free : (a : ℕ) → addr ≤ a → a < addr + 2 * len → space st a ≡ unmapped
    pub rest : Outside addr (2 * len) (space st) (space before)
    pub left : Outside addr (2 * len) (space st) (space st')

  abbrev pub Restored : ℕ → St → St → Type 0
  Restored len st st' = ((a : ℕ) → space st' a ≡ space st a) ⊎ Stuck len st st'

  -- The task holds one port more than before.
  pub record Leaked (st st' : St) : Type 0 where
    pub port : ℕ
    pub held : ports st' ≡ port ∷ ports st

  -- `2 * len` addresses at `addr` were free in `st`, and only they differ in `st1`.
  pub record Taken (addr len : ℕ) (st st1 : St) : Type 0 where
    pub free : (a : ℕ) → addr ≤ a → a < addr + 2 * len → space st a ≡ unmapped
    pub fits : addr + 2 * len ≤ word
    pub pos : 0 < len
    pub rest : Outside addr (2 * len) (space st) (space st1)
    pub paged : Paged page addr
    pub paged_len : Paged page len

  pub next_Taken :
      {addr len : ℕ} {st st1 st2 : St}
      → Taken addr len st st1
      → Outside addr (2 * len) (space st1) (space st2)
      → Taken addr len st st2
  next_Taken {addr} {len} t o = record {
    free = t.free;
    fits = t.fits;
    pos = t.pos;
    rest = Outside-trans addr (2 * len) t.rest o;
    paged = t.paged;
    paged_len = t.paged_len;
  }

  pub same-Outside :
      (p n : ℕ) {st st1 : St} → space st1 ≡ space st → Outside p n (space st) (space st1)
  same-Outside p n e = ((λ a _. ap (λ s. s a) e), (λ a _. ap (λ s. s a) e))

  pub put-Taken :
      {addr len : ℕ} (f : ℕ → Cell) {st st1 st2 : St}
      → Taken addr len st st1
      → space st2 ≡ put addr len f (space st1)
      → Taken addr len st st2
  put-Taken {addr} {len} f {st} {st1} t e =
      let whole = put-Outside_half addr len 0 f (space st1) (omega arith) in
      let at : addr + 0 ≡ addr = omega arith in
      let o = subst (λ p. Outside addr (2 * len) (space st1) (put p len f (space st1))) at whole in
      next_Taken t (subst (Outside addr (2 * len) (space st1)) (sym e) o)

  deallocate_call :
      (addr len : ℕ) (st : St)
      → 2 * len < word
      → deallocate mach addr len st ≡ (mach.vm_deallocate mach.mach_task_self addr (2 * len) st).1
  unfolding deallocate
  deallocate_call addr len st h =
      let both : add_word len len ≡ 2 * len = omega arith in
      ap (λ n. (mach.vm_deallocate mach.mach_task_self addr n st).1) both

  -- The range is given back, or that call fails.
  given_back_or :
      {addr len : ℕ} {st st1 : St} (code : ℕ) (st2 : St)
      → Taken addr len st st1
      → mach.vm_deallocate mach.mach_task_self addr (2 * len) st1 ≡ (code, st2)
      → ((a : ℕ) → space st2 a ≡ space st a)
        ⊎ (((code == kern_success) ≡ false) × Outside addr (2 * len) (space st) (space st2))
  given_back_or {addr} {len} {st} {st1} code st2 t e = elim (Bool-cases (code == kern_success)) [
    | inl good ↦
        let done = e ∙ ap (λ c. (c, st2)) (==→≡ code kern_success good) in
        let gone =
          laws.deallocate_ok mach.mach_task_self addr (2 * len) st1 st2 done t.paged
            (paged_both t.paged_len) in
        inl
          (λ a. ap (λ s. s a) gone ∙ put_back addr (2 * len) (space st) (space st1) t.free t.rest a)
    | inr bad ↦
        let only =
          laws.deallocate_fail mach.mach_task_self addr (2 * len) st1 code st2 e bad t.paged
            (paged_both t.paged_len) in
        inr (bad, Outside-trans addr (2 * len) t.rest only)
  ]

  -- The clean-up gives the range back, or its call fails.
  pub given_back :
      {addr len : ℕ} {st st1 : St}
      → Taken addr len st st1
      → 2 * len < word
      → Restored len st (deallocate mach addr len st1)
  given_back {addr} {len} {st} {st1} t h =
      let call = mach.vm_deallocate mach.mach_task_self addr (2 * len) st1 in
      rw (deallocate_call addr len st1 h) (elim (given_back_or call.0 call.1 t refl) [
        | inl same ↦ inl same
        | inr (bad, left) ↦ inr (record {
          addr = addr;
          before = st1;
          code = call.0;
          call = refl;
          failed = bad;
          free = t.free;
          rest = t.rest;
          left = left;
        })
      ])

  pub deallocate_ports : (addr len : ℕ) (st : St) → ports (deallocate mach addr len st) ≡ ports st
  unfolding deallocate
  deallocate_ports addr len st =
      laws.deallocate_ports mach.mach_task_self addr (add_word len len) st

  -- The `vm_deallocate` of the ring at `pg` failed, and only its addresses may differ.
  pub record NotUnmapped (st : St) (pg len : ℕ) (made st' : St) : Type 0 where
    pub code : ℕ
    pub call : mach.vm_deallocate mach.mach_task_self pg (2 * len) made ≡ (code, st')
    pub failed : (code == kern_success) ≡ false
    pub left : Outside pg (2 * len) (space st) (space st')

  abbrev pub Unmapped : St → ℕ → ℕ → St → St → Type 0
  Unmapped st pg len made st' =
      ((a : ℕ) → space st' a ≡ space st a) ⊎ NotUnmapped st pg len made st'

  pub deallocate-Unmapped :
      {addr len : ℕ} {st st1 : St}
      → Taken addr len st st1
      → 2 * len < word
      → Unmapped st addr len st1 (deallocate mach addr len st1)
  deallocate-Unmapped {addr} {len} {st} {st1} t h =
      let call = mach.vm_deallocate mach.mach_task_self addr (2 * len) st1 in
      rw (deallocate_call addr len st1 h) (elim (given_back_or call.0 call.1 t refl) [
        | inl same ↦ inl same
        | inr (bad, left) ↦ inr (record { code = call.0; call = refl; failed = bad; left = left })
      ])
