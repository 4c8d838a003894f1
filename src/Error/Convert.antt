-- ===== src/Error/Convert.antt =====
-- Conversions between the crate's errors and `std::io::Error`.
use vmap_rs.Prelude.{◌≡◌, refl, some}
use vmap_rs.Error.{
  SystemError, Error, Repr, Operation, kind, raw_os_error, into_io, from_io, source, operation,
}

-- The conversion of the `system_error` crate keeps the kind and the code.
pub record Faithful {S : Type 0} (sys : SystemError S) : Type 0 where
  pub same_kind : (err : S) → (sys.into_io err).kind ≡ sys.kind err
  pub same_code : (err : S) → (sys.into_io err).raw_os_error ≡ sys.raw_os_error err

module _ {S : Type 0} ⦃sys : SystemError S⦄ where
  kept :
      (op : Operation) (repr : Repr S)
      → Faithful sys
      → let e : Error S = record { repr = repr; op = op } in
        ((into_io e).kind ≡ kind e) × ((into_io e).raw_os_error ≡ raw_os_error e)
  unfolding into_io kind raw_os_error
  kept op (Repr.io err) f = (refl, refl)
  kept op (Repr.input i) f = (refl, refl)
  kept op (Repr.system err) f = (f.same_kind err, f.same_code err)

  -- Turning an error into a `std::io::Error` keeps its kind and its system code; turning that back
  -- gives an error of the same kind and code which names no operation and has it as its source.
  pub into_io_keeps :
      (e : Error S)
      → Faithful sys
      → let back : Error S = from_io (into_io e) in
        ((into_io e).kind ≡ kind e)
        × ((into_io e).raw_os_error ≡ raw_os_error e)
        × (kind back ≡ kind e)
        × (raw_os_error back ≡ raw_os_error e)
        × (operation back ≡ Operation.none)
        × (source back ≡ some (into_io e))
  unfolding into_io kind raw_os_error from_io operation source
  into_io_keeps e f = let (k, c) = kept e.op e.repr f in (k, c, k, c, refl, refl)
