-- ===== src/Os.antt =====
-- src/os: what the rest of the crate uses of the platform, and the platforms.
pub mod Space
pub mod Kernel
pub mod Libc
pub mod Unix
pub mod Posix
pub mod Mach
pub mod Windows
use Prim.Native.String.{String}
use vmap_rs.Prelude.{ℕ, List, Bool, ◌≡◌, refl}
use vmap_rs.Std.{Result, ok, err, map_err, IoResult, IoError}
use vmap_rs.Error.{Error}
use vmap_rs.Types.{Protect, Flush, Advise}

-- A call of the platform: a result, and the state of the platform after it. `S` is the error type
-- of the `system_error` crate.
abbrev pub Call : Type 0 → Type 0 → Type 0 → Type 0
Call St S A = St → Result A (Error S) × St

infixl 5 ◌>>=◌ ◌>>◌
abbrev pub ◌>>=◌ : {St S A B : Type 0} → Call St S A → (A → Call St S B) → Call St S B
◌>>=◌ m f st = let (r, st') = m st in elim r [ ok a ↦ f a st' | err e ↦ (err e, st') ]

abbrev pub ◌>>◌ : {St S B : Type 0} → Call St S (Unit {0}) → Call St S B → Call St S B
m >> k = m >>= λ _. k

abbrev pub pure : {St S A : Type 0} → A → Call St S A
pure a st = (ok a, st)

abbrev pub fail : {St S A : Type 0} → Error S → Call St S A
fail e st = (err e, st)

-- `map_err` on a call of `std::fs`
abbrev pub map_err_call :
    {St S A : Type 0} → (IoError → Error S) → (St → IoResult A × St) → Call St S A
map_err_call f m st = let (r, st') = m st in (map_err f r, st')

-- To prove `Q` of a chain: split on how its first call ends.
pub bind_post {κ} :
    {St S A B : Type 0} (Q : Result B (Error S) × St → Type κ) (m : Call St S A)
    (f : A → Call St S B) (st : St)
    → ((a : A) (st' : St) → m st ≡ (ok a, st') → Q (f a st'))
    → ((e : Error S) (st' : St) → m st ≡ (err e, st') → Q (err e, st'))
    → Q ((m >>= f) st)
bind_post {St} {S} {A} {B} Q m f st on_ok on_err = go (m st).0 (m st).1 refl
  where
    go :
        (r : Result A (Error S)) (st' : St)
        → m st ≡ (r, st')
        → Q (elim r [ ok a ↦ f a st' | err e ↦ (err e, st') ])
    go (ok a) st' e = on_ok a st' e
    go (err x) st' e = on_err x st' e

-- The same where the first call is one of `std::fs`, and where a chain is the first part of another.
pub fs_post {κ} :
    {St S A B : Type 0} (Q : Result B (Error S) × St → Type κ) (g : IoError → Error S)
    (m : St → IoResult A × St) (f : A → Call St S B) (st : St)
    → ((a : A) (st' : St) → m st ≡ (ok a, st') → Q (f a st'))
    → ((e : IoError) (st' : St) → m st ≡ (err e, st') → Q (err (g e), st'))
    → Q ((map_err_call g m >>= f) st)
fs_post {St} {S} {A} {B} Q g m f st on_ok on_err = go (m st).0 (m st).1 refl
  where
    go :
        (r : IoResult A) (st' : St)
        → m st ≡ (r, st')
        → Q (elim (map_err g r) [ ok a ↦ f a st' | err e ↦ (err e, st') ])
    go (ok a) st' e = on_ok a st' e
    go (err x) st' e = on_err x st' e

pub fs_bind_post {κ} :
    {St S A B C : Type 0} (Q : Result C (Error S) × St → Type κ) (g : IoError → Error S)
    (m : St → IoResult A × St) (f : A → Call St S B) (k : B → Call St S C) (st : St)
    → ((a : A) (st' : St) → m st ≡ (ok a, st') → Q ((f a >>= k) st'))
    → ((e : IoError) (st' : St) → m st ≡ (err e, st') → Q (err (g e), st'))
    → Q (((map_err_call g m >>= f) >>= k) st)
fs_bind_post {St} {S} {A} {B} Q g m f k st on_ok on_err = go (m st).0 (m st).1 refl
  where
    go :
        (r : IoResult A) (st' : St)
        → m st ≡ (r, st')
        → Q (((λ (st : St). (map_err g r, st')) >>= f >>= k) st)
    go (ok a) st' e = on_ok a st' e
    go (err x) st' e = on_err x st' e

-- The functions that `os` exports, whichever platform it is. A pointer is its address, and a file
-- is its handle.
pub record Platform (St S : Type 0) : Type 0 where
  pub system_info : ℕ × ℕ
  pub map_file : ℕ → ℕ → ℕ → Protect → Call St S ℕ
  pub map_anon : ℕ → Protect → Call St S ℕ
  pub unmap : ℕ → ℕ → Call St S (Unit {0})
  pub protect : ℕ → ℕ → Protect → Call St S (Unit {0})
  pub flush : ℕ → ℕ → ℕ → Flush → Call St S (Unit {0})
  pub advise : ℕ → ℕ → Advise → Call St S (Unit {0})
  pub lock : ℕ → ℕ → Call St S (Unit {0})
  pub unlock : ℕ → ℕ → Call St S (Unit {0})

-- What the rings use of `os`, whichever platform it is. `load` gives the bytes that the process reads
-- at the addresses from one on.
pub record RingPlatform (St S : Type 0) : Type 0 where
  pub map_ring : ℕ → Call St S ℕ
  pub unmap_ring : ℕ → ℕ → Call St S (Unit {0})
  pub load : St → ℕ → ℕ → List ℕ

-- `OpenOptions`, as the crate sets it.
pub record OpenOptions : Type 0 where
  pub read : Bool
  pub write : Bool
  pub create : Bool
  pub create_new : Bool
  pub truncate : Bool

-- What the crate uses of `std::fs`: opening a path, and the length of an open file.
pub record Files (St : Type 0) : Type 0 where
  pub open_path : OpenOptions → String → St → IoResult ℕ × St
  pub metadata_len : ℕ → St → IoResult ℕ × St
  pub set_len : ℕ → ℕ → St → IoResult (Unit {0}) × St
