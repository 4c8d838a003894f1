-- ===== src/Os/Posix/Memfd/Live.antt =====
-- The loop of src/os/unix/posix/memfd.rs: it ends once the clock gives a name that is not taken.
use mathlib.Core.List.{Mem}
use vmap_rs.Prelude.{
  ℕ, zero, suc, ◌%◌, ◌<◌, ◌≡◌, refl, sym, ap, ◌∙◌, subst, List, ◌∷◌, Option, none, some, true,
  false, arith, if_post,
}
use vmap_rs.Std.{Result, ok, err}
use vmap_rs.Error.{Error, Operation, SystemError, last_os_error, raw_os_error, raw_os_error-last}
use vmap_rs.Os.Posix.Memfd.{
  Shm, template, write_number, is_code, Round, returns, again, opened, round, rounds, memfd_open,
}

-- What is documented of the calls: how they move the names of shared memory objects and the open
-- descriptors; `EEXIST` is for a name that is taken.
pub record ShmLaws {St S : Type 0} (shm : Shm St S) ⦃sys : SystemError S⦄
    (names : St → List (List ℕ)) (fds : St → List ℕ) : Type 0 where
  pub clock_keeps :
      (st : St)
      → (names (shm.subsec_nanos st).1 ≡ names st) × (fds (shm.subsec_nanos st).1 ≡ fds st)
  pub open_ok :
      (path : List ℕ) (st : St) (fd : ℕ) (st' : St)
      → shm.shm_open path st ≡ (some fd, st')
      → (names st' ≡ path ∷ names st) × (fds st' ≡ fd ∷ fds st)
  pub open_fail :
      (path : List ℕ) (st st' : St)
      → shm.shm_open path st ≡ (none, st')
      → (names st' ≡ names st) × (fds st' ≡ fds st)
  pub open_exists :
      (path : List ℕ) (st st' : St)
      → shm.shm_open path st ≡ (none, st')
      → is_code shm.eexist (sys.raw_os_error (shm.last_error st')) ≡ true
      → Mem path (names st)
  pub unlink_last :
      (path : List ℕ) (st : St) (others : List (List ℕ))
      → names st ≡ path ∷ others
      → (names (shm.shm_unlink path st).1 ≡ others) × (fds (shm.shm_unlink path st).1 ≡ fds st)

module _ {St S : Type 0} (shm : Shm St S) ⦃sys : SystemError S⦄ {names : St → List (List ℕ)}
    {fds : St → List ℕ} (laws : ShmLaws shm names fds) where
  -- The path that a round asks for, and that it is not taken.
  abbrev path_of : List ℕ → St → List ℕ
  path_of path_bytes st = write_number ((shm.subsec_nanos st).0 % 10000000) path_bytes

  -- The name of the round that comes after `k` that went round is not taken.
  abbrev pub FreshAfter : ℕ → List ℕ → St → Type 0
  FreshAfter zero path_bytes st = ¬ Mem (path_of path_bytes st) (names st)
  FreshAfter (suc k) path_bytes st =
      (path : List ℕ) (st' : St) → round shm path_bytes st ≡ again path st' → FreshAfter k path st'

  -- The name is gone again. A descriptor is open, or the error is not `EEXIST`.
  abbrev pub Settled : St → Result ℕ (Error S) × St → Type 0
  Settled st (ok fd, st') = (names st' ≡ names st) × (fds st' ≡ fd ∷ fds st)
  Settled st (err e, st') =
      (names st' ≡ names st) × (fds st' ≡ fds st) × (is_code shm.eexist (raw_os_error e) ≡ false)

  abbrev Ends : List ℕ → St → Round St S → Type 0
  Ends path_bytes st (returns r st') = Settled st (r, st')
  Ends path_bytes st (again path st') =
      (names st' ≡ names st) × (fds st' ≡ fds st) × Mem (path_of path_bytes st) (names st)

  opened-Ends :
      (path_bytes : List ℕ) (st : St) (r : Option ℕ × St)
      → shm.shm_open (path_of path_bytes st) (shm.subsec_nanos st).1 ≡ r
      → Ends path_bytes st (opened shm (path_of path_bytes st) r)
  unfolding opened
  opened-Ends path_bytes st (some fd, st') e =
      let path = path_of path_bytes st in
      let (n0, f0) = laws.clock_keeps st in
      let (n1, f1) = laws.open_ok path (shm.subsec_nanos st).1 fd st' e in
      let (n2, f2) = laws.unlink_last path st' (names st) (n1 ∙ ap (λ l. path ∷ l) n0) in
      (n2, f2 ∙ f1 ∙ ap (λ l. fd ∷ l) f0)
  opened-Ends path_bytes st (none, st') e =
      let path = path_of path_bytes st in
      let (n0, f0) = laws.clock_keeps st in
      let (n1, f1) = laws.open_fail path (shm.subsec_nanos st).1 st' e in
      let code = shm.last_error st' in
      let failed = last_os_error Operation.memory_fd code in
      if_post (Ends path_bytes st) (is_code shm.eexist (raw_os_error failed)) (again path st')
        (returns (err failed) st')
        (λ h.
          let same = ap (is_code shm.eexist) (raw_os_error-last Operation.memory_fd code) in
          let taken = laws.open_exists path (shm.subsec_nanos st).1 st' e (sym same ∙ h) in
          (n1 ∙ n0, f1 ∙ f0, subst (Mem path) n0 taken))
        (λ h. (n1 ∙ n0, f1 ∙ f0, h))

  round-Ends : (path_bytes : List ℕ) (st : St) → Ends path_bytes st (round shm path_bytes st)
  unfolding round
  round-Ends path_bytes st = opened-Ends path_bytes st _ refl

  -- What a run of the loop comes to, once it has the fuel.
  pub record Returned (st : St) (o : Option (Result ℕ (Error S) × St)) : Type 0 where
    pub result : Result ℕ (Error S)
    pub after : St
    pub is : o ≡ some (result, after)
    pub settled : Settled st (result, after)

  earlier :
      (st st' : St) (r : Result ℕ (Error S) × St)
      → names st' ≡ names st
      → fds st' ≡ fds st
      → Settled st' r
      → Settled st r
  earlier st st' (ok fd, st2) n f (n2, f2) = (n2 ∙ n, f2 ∙ ap (λ l. fd ∷ l) f)
  earlier st st' (err e, st2) n f (n2, f2, other) = (n2 ∙ n, f2 ∙ f, other)

  rounds-Returned :
      (k fuel : ℕ) (path_bytes : List ℕ) (st : St)
      → FreshAfter k path_bytes st
      → k < fuel
      → Returned st (rounds shm fuel path_bytes st)
  unfolding rounds
  rounds-Returned k zero path_bytes st fresh h = absurd (omega arith)
  rounds-Returned k (suc fuel) path_bytes st fresh h =
      go k (round shm path_bytes st) fresh h refl (round-Ends path_bytes st)
        (λ k path st' fresh h. rounds-Returned k fuel path st' fresh h)
    where
      go :
          (k : ℕ) (r : Round St S)
          → FreshAfter k path_bytes st
          → k < suc fuel
          → round shm path_bytes st ≡ r
          → Ends path_bytes st r
          → ((k : ℕ) (path : List ℕ) (st' : St)
              → FreshAfter k path st'
              → k < fuel
              → Returned st' (rounds shm fuel path st'))
          → Returned st
              (elim r [ returns r st' ↦ some (r, st') | again path st' ↦ rounds shm fuel path st' ])
      go k (returns r st') fresh h e ends more = record {
        result = r;
        after = st';
        is = refl;
        settled = ends;
      }
      go zero (again path st') fresh h e (n, f, taken) more = absurd (fresh taken)
      go (suc k) (again path st') fresh h e (n, f, taken) more =
          let ran = more k path st' (fresh path st' e) (omega arith) in
          record {
            result = ran.result;
            after = ran.after;
            is = ran.is;
            settled = earlier st st' (ran.result, ran.after) n f ran.settled;
          }

  -- `memfd_open` returns within `k + 1` rounds if the clock, should the loop go round `k` times, then
  -- gives a name that is not taken. It returns a descriptor that is open besides those before, or an
  -- error other than `EEXIST`; no name is left behind in either case. The system keeps to `ShmLaws`.
  pub memfd_open-Returned :
      (k fuel : ℕ) (st : St)
      → FreshAfter k template st
      → k < fuel
      → Returned st (memfd_open shm fuel st)
  unfolding memfd_open
  memfd_open-Returned k fuel st fresh h = rounds-Returned k fuel template st fresh h
