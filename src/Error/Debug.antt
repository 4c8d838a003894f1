-- ===== src/Error/Debug.antt =====
-- `Debug` and the rest of `Display` in src/error.rs.
use Prim.Native.String.{String}
use vmap_rs.Prelude.{[], ◌∷◌}
use vmap_rs.Std.{ErrorKind, IoError, DebugStruct}
use vmap_rs.Error.{SystemError, Error, Repr, io, input, system, kind}
use vmap_rs.Error.Names.{Operation, Input, input_str}

-- What prints itself in the `Debug` of an `Error`.
pub data Value (S : Type 0) : Type 0 where
  of_op : Operation → Value S
  of_kind : ErrorKind → Value S
  of_io : IoError → Value S
  of_input : Input → Value S
  of_system : S → Value S

-- The match: the name of the field, and its value.
pub field_of : {S : Type 0} → Repr S → String × Value S
field_of (io e) = ("io", of_io e)
field_of (input i) = ("input", of_input i)
field_of (system e) = ("system", of_system e)

pub debug : {S : Type 0} → ⦃sys : SystemError S⦄ → Error S → DebugStruct (Value S)
debug e = record {
  name = "Error";
  fields = ("op", of_op e.op) ∷ ("kind", of_kind (kind e)) ∷ field_of e.repr ∷ [];
}

-- `Display for Input`
pub fmt_input : Input → String
fmt_input i = input_str i
