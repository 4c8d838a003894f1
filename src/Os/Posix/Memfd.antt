-- ===== src/Os/Posix/Memfd.antt =====
-- src/os/unix/posix/memfd.rs: `memfd_open` where there is no `memfd_create`.
pub mod Live
mod Tests
use vmap_rs.Prelude.{
  ℕ, zero, suc, ◌+◌, ◌*◌, ◌/◌, ◌%◌, ◌^◌, ◌==◌, List, [], ◌∷◌, ◌++◌, take, drop, Option, none, some,
  Bool, true, false, if◌then◌else◌,
}
use vmap_rs.Std.{Result, ok, err}
use vmap_rs.Error.{Error, Operation, SystemError, last_os_error, raw_os_error}

-- What the file uses of libc and of the clock, past the epoch. A path is its bytes, the NUL
-- included; a call gives `none` where C gives a negative number. `shm_anon` is
-- `shm_open(SHM_ANON, ..)`, and the flags of `shm_open` are `O_RDWR | O_CREAT | O_EXCL | O_CLOEXEC`.
pub record Shm (St S : Type 0) : Type 0 where
  pub subsec_nanos : St → ℕ × St
  pub shm_anon : St → Option ℕ × St
  pub shm_open : List ℕ → St → Option ℕ × St
  pub shm_unlink : List ℕ → St → Option ℕ × St
  pub last_error : St → S
  pub eexist : ℕ

-- `b"/vmap-XXXXXXX\0"`
abbrev pub template : List ℕ
template = 47 ∷ 118 ∷ 109 ∷ 97 ∷ 112 ∷ 45 ∷ 88 ∷ 88 ∷ 88 ∷ 88 ∷ 88 ∷ 88 ∷ 88 ∷ 0 ∷ []

-- The last digits of a number in ASCII, as many as are asked for.
unfoldable pub padded : ℕ → ℕ → List ℕ
padded zero n = []
padded (suc digits) n = (48 + n / 10 ^ digits % 10) ∷ padded digits n

-- `write!(&mut path_bytes[6..], "{:0>7}", n)`, for a number of at most seven digits.
unfoldable pub write_number : ℕ → List ℕ → List ℕ
write_number n bytes = take 6 bytes ++ padded 7 n ++ drop 13 bytes

abbrev pub is_code : ℕ → Option ℕ → Bool
is_code code none = false
is_code code (some c) = c == code

-- How a round of the loop ends: the function returns, or it goes round with the bytes of the path as
-- they are then.
pub data Round (St S : Type 0) : Type 0 where
  returns : Result ℕ (Error S) → St → Round St S
  again : List ℕ → St → Round St S

module _ {St S : Type 0} (shm : Shm St S) ⦃sys : SystemError S⦄ where
  -- On FreeBSD.
  pub anon_open : St → Result ℕ (Error S) × St
  anon_open st =
      let (fd, st') = shm.shm_anon st in
      elim fd [
        | none ↦ (err (last_os_error Operation.memory_fd (shm.last_error st')), st')
        | some fd ↦ (ok fd, st')
      ]

  -- The rest of a round, past `shm_open`; what `shm_unlink` returns is discarded.
  unfoldable pub opened : List ℕ → Option ℕ × St → Round St S
  opened path (some fd, st) = returns (ok fd) (shm.shm_unlink path st).1
  opened path (none, st) =
      let e = last_os_error Operation.memory_fd (shm.last_error st) in
      if is_code shm.eexist (raw_os_error e) then again path st else returns (err e) st

  unfoldable pub round : List ℕ → St → Round St S
  round path_bytes st =
      let (nanos, st1) = shm.subsec_nanos st in
      let path = write_number (nanos % 10000000) path_bytes in opened path (shm.shm_open path st1)

  -- The loop, for as many rounds as the fuel is.
  unfoldable pub rounds : ℕ → List ℕ → St → Option (Result ℕ (Error S) × St)
  rounds zero path_bytes st = none
  rounds (suc fuel) path_bytes st = elim (round path_bytes st) [
    | returns r st' ↦ some (r, st')
    | again path st' ↦ rounds fuel path st'
  ]

  pub memfd_open : ℕ → St → Option (Result ℕ (Error S) × St)
  memfd_open fuel st = rounds fuel template st
