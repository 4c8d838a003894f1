-- ===== src/Error.antt =====
-- src/error.rs: the errors of the crate, over the errors of the `system_error` crate.
mod Names
pub mod Convert
pub mod Debug
mod Tests
pub use Names.{Operation, Input}
unfoldable pub use Names.{as_str, input_str, fmt}
use Prim.Native.String.{String, ◌++◌}
use vmap_rs.Prelude.{ℕ, ◌≡◌, refl, Option, none, some}
use vmap_rs.Std.{ErrorKind, IoError, invalid_input}

-- What the crate uses of `system_error::Error`.
pub record SystemError (S : Type 0) : Type 0 where
  pub kind : S → ErrorKind
  pub raw_os_error : S → Option ℕ
  pub into_io : S → IoError
  pub from_raw_kernel_error : ℕ → S
  pub show : S → String

pub data Repr (S : Type 0) : Type 0 where
  io : IoError → Repr S
  input : Input → Repr S
  system : S → Repr S

pub record Error (S : Type 0) : Type 0 where
  pub repr : Repr S
  pub op : Operation

module _ {S : Type 0} where
  -- `Error::io`, `Error::input` and `Error::system`
  pub of_io : Operation → IoError → Error S
  of_io op err = record { repr = io err; op = op }

  pub of_input : Operation → Input → Error S
  of_input op i = record { repr = input i; op = op }

  pub of_system : Operation → S → Error S
  of_system op err = record { repr = system err; op = op }

  -- `last` is what `system_error::Error::last_os_error()` returns.
  pub last_os_error : Operation → S → Error S
  unfolding of_system
  last_os_error op last = of_system op last

  pub operation : Error S → Operation
  operation e = e.op

  source_of : Repr S → Option IoError
  source_of (io err) = some err
  source_of (input i) = none
  source_of (system err) = none

  pub source : Error S → Option IoError
  unfolding source_of
  source e = source_of e.repr

  -- `From<std::io::Error>`
  pub from_io : IoError → Error S
  from_io err = record { repr = io err; op = Operation.none }

  -- `From<(Error, F)>`
  pub from_convert : {F : Type 0} → Error S × F → Error S
  from_convert value = value.0

module _ {S : Type 0} ⦃sys : SystemError S⦄ where
  pub kernel : Operation → ℕ → Error S
  unfolding of_system
  kernel op code = of_system op (sys.from_raw_kernel_error code)

  raw_of : Repr S → Option ℕ
  raw_of (io err) = err.raw_os_error
  raw_of (input i) = none
  raw_of (system err) = sys.raw_os_error err

  pub raw_os_error : Error S → Option ℕ
  unfolding raw_of
  raw_os_error e = raw_of e.repr

  -- The code of the last system error.
  pub raw_os_error-last :
      (op : Operation) (last : S) → raw_os_error (last_os_error op last) ≡ sys.raw_os_error last
  unfolding raw_os_error raw_of last_os_error of_system
  raw_os_error-last op last = refl

  kind_of : Repr S → ErrorKind
  kind_of (io err) = err.kind
  kind_of (input i) = invalid_input
  kind_of (system err) = sys.kind err

  pub kind : Error S → ErrorKind
  unfolding kind_of
  kind e = kind_of e.repr

  io_of : Repr S → IoError
  io_of (io err) = err
  io_of (input i) = record {
    kind = invalid_input;
    raw_os_error = none;
    message = some (input_str i);
  }
  io_of (system err) = sys.into_io err

  -- `From<Error> for std::io::Error`
  pub into_io : Error S → IoError
  unfolding io_of
  into_io e = io_of e.repr

  value_of : (IoError → String) → Repr S → String
  value_of show_io (io err) = show_io err
  value_of show_io (input i) = input_str i
  value_of show_io (system err) = sys.show err

  -- `Display`; `show_io` is that of `std::io::Error`.
  pub display : (IoError → String) → Error S → String
  unfolding value_of
  display show_io e = elim (as_str e.op) [
    | none ↦ value_of show_io e.repr
    | some op ↦ "failed to " ++ op ++ ", " ++ value_of show_io e.repr
  ]
