-- ===== src/Std.antt =====
-- What the crate uses of Rust's standard library: `Result`, `io::Error`, and the `Read` and `Write`
-- of readers and writers that the crate wraps. A byte is a number; a `&mut [u8]` argument comes back
-- beside the result with what was written to it.
use Prim.Native.String.{String}
use vmap_rs.Prelude.{
  ℕ, min, ◌≡◌, refl, ◌⊎◌, inl, inr, Option, none, List, ◌++◌, length, take, drop, Bool, true, false,
}

pub data Result {ℓ κ} (A : Type ℓ) (E : Type κ) : Type (ℓ ⊔ κ) where
  ok : A → Result A E
  err : E → Result A E

abbrev pub map_err {ℓ κ ι} :
    {A : Type ℓ} {E : Type κ} {F : Type ι} → (E → F) → Result A E → Result A F
map_err f (ok a) = ok a
map_err f (err e) = err (f e)

abbrev pub is_ok {ℓ κ} : {A : Type ℓ} {E : Type κ} → Result A E → Bool
is_ok (ok a) = true
is_ok (err e) = false

-- `?` on a chain of results
infixl 5 ◌>>=◌
abbrev pub ◌>>=◌ {ℓ κ ι} :
    {A : Type ℓ} {B : Type κ} {E : Type ι} → Result A E → (A → Result B E) → Result B E
r >>= next = elim r [ ok value ↦ next value | err failure ↦ err failure ]

-- The kinds that the crate names; `uncategorized` stands for the others.
pub data ErrorKind : Type 0 where
  not_found invalid_input write_zero interrupted : ErrorKind
  uncategorized : ℕ → ErrorKind

abbrev pub is_interrupted : ErrorKind → Bool
is_interrupted interrupted = true
is_interrupted _ = false

-- `io::Error`. An `i32` code is its bit pattern.
pub record IoError : Type 0 where
  pub kind : ErrorKind
  pub raw_os_error : Option ℕ
  pub message : Option String

-- `ErrorKind::into()`
abbrev pub io_error : ErrorKind → IoError
io_error k = record { kind = k; raw_os_error = none; message = none }

abbrev pub IoResult : Type 0 → Type 0
IoResult A = Result A IoError

-- `Read` of a wrapped reader: the count, the slice it was given, and the reader after it.
pub record Read (R : Type 0) : Type 0 where
  pub read : R → List ℕ → IoResult ℕ × List ℕ × R

-- How a call of foreign code ends: it returns, or it unwinds.
pub data Outcome (A : Type 0) : Type 0 where
  returned : A → Outcome A
  unwound : Outcome A

-- `Write` of a wrapped writer.
pub record Write (W : Type 0) : Type 0 where
  pub write : W → List ℕ → Outcome (IoResult ℕ) × W
  pub flush : W → Outcome (IoResult (Unit {0})) × W

-- The provided methods of `Write` that `BufReader` overrides. The arguments of `write_fmt` are the
-- string that they print as.
pub record WriteMore (W : Type 0) : Type 0 where
  pub write_vectored : W → List (List ℕ) → Outcome (IoResult ℕ) × W
  pub write_all : W → List ℕ → Outcome (IoResult (Unit {0})) × W
  pub write_fmt : W → String → Outcome (IoResult (Unit {0})) × W

-- The provided methods of `Read` that `BufWriter` overrides. What was written to the buffers comes
-- back beside the result.
pub record ReadMore (R : Type 0) : Type 0 where
  pub read_vectored : R → List (List ℕ) → IoResult ℕ × List (List ℕ) × R
  pub read_to_end : R → List ℕ → IoResult ℕ × List ℕ × R
  pub read_to_string : R → String → IoResult ℕ × String × R
  pub read_exact : R → List ℕ → IoResult (Unit {0}) × List ℕ × R

-- What `Formatter::debug_struct` prints: a name, and names with the values that print themselves.
pub record DebugStruct (V : Type 0) : Type 0 where
  pub name : String
  pub fields : List (String × V)

-- `Read for &[u8]`: as many bytes as both hold.
abbrev pub read_slice : List ℕ → List ℕ → ℕ × List ℕ
read_slice src buf = let n = min (length src) (length buf) in (n, take n src ++ drop n buf)

pub Result-cases {ℓ κ} :
    {A : Type ℓ} {E : Type κ} (r : Result A E) → ((a : A) × (r ≡ ok a)) ⊎ ((e : E) × (r ≡ err e))
Result-cases (ok a) = inl (a, refl)
Result-cases (err e) = inr (e, refl)
