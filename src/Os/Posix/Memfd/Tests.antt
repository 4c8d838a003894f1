-- ===== src/Os/Posix/Memfd/Tests.antt =====
-- The loop of src/os/unix/posix/memfd.rs over a clock that ticks once a reading.
use mathlib.Core.Logic.Or
use mathlib.Core.HLevel.{⊥_prop}
use mathlib.Core.List.{Mem, mem-cons_self, mem-cons_of_mem, not-mem-nil, eq-or-mem_of_mem-cons}
use vmap_rs.Prelude.{
  ℕ, ◌+◌, ◌≡◌, ◌≢◌, ◌%◌, refl, sym, ap, ap₂, ◌∙◌, subst, inl, inr, List, [], ◌∷◌, get_or, Option,
  none, some, Bool, true, false, ◌&&◌, Bool-cases, ◌==◌, ==→≡, arith, if◌then◌else◌,
}
use vmap_rs.Error.{Operation, raw_os_error-last}
use vmap_rs.Os.Kernel.{codes}
use vmap_rs.Os.Posix.Memfd.{
  Shm, template, padded, write_number, Round, returns, again, round, opened, memfd_open,
}
use vmap_rs.Os.Posix.Memfd.Live.{ShmLaws, FreshAfter, Returned, memfd_open-Returned}

record World : Type 0 where
  nanos : ℕ
  names : List (List ℕ)
  fds : List ℕ

same : List ℕ → List ℕ → Bool
same [] [] = true
same [] (y ∷ ys) = false
same (x ∷ xs) [] = false
same (x ∷ xs) (y ∷ ys) = x == y && same xs ys

taken : List ℕ → List (List ℕ) → Bool
taken p [] = false
taken p (q ∷ qs) = if same p q then true else taken p qs

abbrev open_if : Bool → List ℕ → World → Option ℕ × World
open_if true p w = (none, w)
open_if false p w = (some 7, record w { names = p ∷ w.names; fds = 7 ∷ w.fds })

abbrev rest : List (List ℕ) → List (List ℕ)
rest [] = []
rest (x ∷ xs) = xs

-- The last error is `EEXIST`.
abbrev shm : Shm World ℕ
shm = record {
  subsec_nanos = λ w. (w.nanos, record w { nanos = w.nanos + 1 });
  shm_anon = λ w. (some 7, record w { fds = 7 ∷ w.fds });
  shm_open = λ p w. open_if (taken p w.names) p w;
  shm_unlink = λ p w. (some 0, record w { names = rest w.names });
  last_error = λ w. 17;
  eexist = 17;
}

same→≡ : (p q : List ℕ) → same p q ≡ true → p ≡ q
unfolding same
same→≡ [] [] h = refl
same→≡ [] (y ∷ ys) h = cc
same→≡ (x ∷ xs) [] h = cc
same→≡ (x ∷ xs) (y ∷ ys) h = elim (Bool-cases (x == y)) [
  | inl e ↦ ap₂ ◌∷◌ (==→≡ x y e) (same→≡ xs ys (sym (ap (λ b. b && same xs ys) e) ∙ h))
  | inr e ↦ let bad : false ≡ true = sym (ap (λ b. b && same xs ys) e) ∙ h in cc
]

taken-Mem : (p : List ℕ) (qs : List (List ℕ)) → taken p qs ≡ true → Mem p qs
unfolding taken
taken-Mem p [] h = cc
taken-Mem p (q ∷ qs) h = elim (Bool-cases (same p q)) [
  | inl e ↦ subst (λ x. Mem p (x ∷ qs)) (same→≡ p q e) mem-cons_self
  | inr e ↦
      mem-cons_of_mem q (taken-Mem p qs (sym (ap (λ b. if b then true else taken p qs) e) ∙ h))
]

opened_ok :
    (b : Bool) (p : List ℕ) (w : World) (fd : ℕ) (w' : World)
    → open_if b p w ≡ (some fd, w')
    → (w'.names ≡ p ∷ w.names) × (w'.fds ≡ fd ∷ w.fds)
opened_ok true p w fd w' e = cc
opened_ok false p w fd w' e =
    let seven : 7 ≡ fd = cc in
    (sym (ap (λ q. q.1.names) e), sym (ap (λ q. q.1.fds) e) ∙ ap (λ x. x ∷ w.fds) seven)

not_opened :
    (b : Bool) (p : List ℕ) (w w' : World)
    → taken p w.names ≡ b
    → open_if b p w ≡ (none, w')
    → (w'.names ≡ w.names) × (w'.fds ≡ w.fds) × Mem p w.names
not_opened true p w w' h e =
    (sym (ap (λ q. q.1.names) e), sym (ap (λ q. q.1.fds) e), taken-Mem p w.names h)
not_opened false p w w' h e = cc

shm-ShmLaws : ShmLaws shm (λ w. w.names) (λ w. w.fds)
shm-ShmLaws = record {
  clock_keeps = λ w. (refl, refl);
  open_ok = λ p w fd w' e. opened_ok (taken p w.names) p w fd w' e;
  open_fail = λ p w w' e. let (n, f, _) = not_opened (taken p w.names) p w w' refl e in (n, f);
  open_exists = λ p w w' e h. (not_opened (taken p w.names) p w w' refl e).2;
  unlink_last = λ p w others e. (ap rest e, refl);
}

-- The name of the first reading is taken, that of the second is not.
abbrev start : World
start = record { nanos = 5; names = write_number 5 template ∷ []; fds = [] }

not_mem_one : (p q : List ℕ) → p ≢ q → ¬ Mem p (q ∷ [])
not_mem_one p q h m = Or.elim ⊥_prop (eq-or-mem_of_mem-cons m) h not-mem-nil

path_in : Round World ℕ → List ℕ
path_in (returns r w) = []
path_in (again p w) = p

world_in : Round World ℕ → World
world_in (returns r w) = w
world_in (again p w) = w

first : round shm template start ≡ again (write_number 5 template) (record start { nanos = 6 })
unfolding round opened write_number padded taken same
first = rw (raw_os_error-last {S = ℕ} Operation.memory_fd 17) refl

next : write_number 6 (write_number 5 template) ≢ write_number 5 template
unfolding write_number padded
next q = let bad : 54 ≡ 53 = ap (λ l. get_or l 12 0) q in omega (arith, bad)

fresh : FreshAfter shm shm-ShmLaws 1 template start
unfolding path_in world_in
fresh path w e =
    let p : write_number 5 template ≡ path = ap path_in (sym first ∙ e) in
    let s : record start { nanos = 6 } ≡ w = ap world_in (sym first ∙ e) in
    subst (λ w. ¬ Mem (write_number (w.nanos % 10000000) path) w.names) s
      (subst (λ p. ¬ Mem (write_number 6 p) (write_number 5 template ∷ [])) p
        (not_mem_one _ _ next))

memfd_open-Returned_example : Returned shm shm-ShmLaws start (memfd_open shm 2 start)
memfd_open-Returned_example = memfd_open-Returned shm shm-ShmLaws 1 2 start fresh (omega arith)
