-- ===== src/Error/Tests.antt =====
-- src/error.rs over a system whose errors are their codes.
use vmap_rs.Prelude.{ℕ, ◌≡◌, refl, none, some}
use vmap_rs.Std.{ErrorKind, IoError}
use vmap_rs.Error.{
  SystemError, Error, Repr, Operation, kind, raw_os_error, into_io, from_io, source, operation,
}
use vmap_rs.Error.Convert.{Faithful, into_io_keeps}

abbrev coded : ℕ → IoError
coded code = record {
  kind = ErrorKind.uncategorized code;
  raw_os_error = some code;
  message = none;
}

instance abbrev codes : SystemError ℕ
codes = record {
  kind = λ code. ErrorKind.uncategorized code;
  raw_os_error = λ code. some code;
  into_io = coded;
  from_raw_kernel_error = λ code. code;
  show = λ _. "system error";
}

codes-Faithful : Faithful codes
codes-Faithful = record { same_kind = λ _. refl; same_code = λ _. refl }

-- `ENOMEM` of a call of `mlock`
abbrev no_memory : Error ℕ
no_memory = record { repr = Repr.system 12; op = Operation.lock }

into_io_keeps_example :
    let back : Error ℕ = from_io (into_io no_memory) in
    ((into_io no_memory).kind ≡ kind no_memory)
    × ((into_io no_memory).raw_os_error ≡ raw_os_error no_memory)
    × (kind back ≡ kind no_memory)
    × (raw_os_error back ≡ raw_os_error no_memory)
    × (operation back ≡ Operation.none)
    × (source back ≡ some (into_io no_memory))
into_io_keeps_example = into_io_keeps no_memory codes-Faithful
