-- ===== src/Io/Tests/Rings.antt =====
-- `Ring` and `InfiniteRing` with four bytes, past the end of the mapping.
use vmap_rs.Prelude.{
  ℕ, ◌+◌, ◌<◌, ◌≤◌, ◌≡◌, refl, ap, inl, inr, ◌⊎◌, ltb, if◌then◌else◌, Bool-cases, true, false,
  ltb-false→le, zero, suc, ◌-◌, List, [], ◌∷◌, length, arith,
}
use vmap_rs.Std.{ok, err, is_ok}
use vmap_rs.Error.{Error, Repr, Operation}
use vmap_rs.Os.{Call, RingPlatform}
use vmap_rs.Size.{Size, round}
use vmap_rs.Size.Units.{IsUnit}
use vmap_rs.Io.Calls.{Op}
use vmap_rs.Io.Queue as Queue
use vmap_rs.Io.Ring as Ring
use vmap_rs.Io.Ring.{Ring}
use vmap_rs.Io.Ring.Inv.{IsValid, slices_in_bounds}
use vmap_rs.Io.Ring.Contents.{contents}
use vmap_rs.Io.Ring.Refine.{step, run, step-IsValid, run_refines}
use vmap_rs.Io.Ring.New.{Maps, Fresh, new_lem}
use vmap_rs.Io.InfiniteRing.{InfiniteRing}
use vmap_rs.Io.InfiniteRing.Inv as InfiniteInv
use vmap_rs.Io.InfiniteRing.Inv.{infinite_slices_in_bounds}
use vmap_rs.Io.InfiniteRing.Queue as InfiniteQueue
use vmap_rs.Io.InfiniteRing.Refine as InfiniteRefine
use vmap_rs.Io.InfiniteRing.Refine.{infinite_run_refines}
use vmap_rs.Io.InfiniteRing.Contents as InfiniteContents
use vmap_rs.Io.InfiniteRing.Contents.{
  keep_last, infinite_write_lem, infinite_read_lem, write_all_lem,
}

-- It holds the bytes 40 and 50: the second of them is the first of the memory.
abbrev two_held : Ring
two_held = record { ptr = 0; mem = 50 ∷ 20 ∷ 30 ∷ 40 ∷ []; len = 4; rpos = 3; wpos = 5 }

two_held-IsValid : IsValid two_held
two_held-IsValid = record {
  mapped = refl;
  nonempty = omega arith;
  addressable = omega arith;
  ordered = omega arith;
  bounded = omega arith;
  counted = omega arith;
}

abbrev calls : List Op
calls =
    Op.write (60 ∷ 70 ∷ 80 ∷ [])
    ∷ Op.fill_buf
    ∷ Op.read (0 ∷ 0 ∷ 0 ∷ [])
    ∷ Op.read_and_consume 1
    ∷ Op.clear
    ∷ Op.fill_buf
    ∷ []

run_refines_example : run two_held calls ≡ Queue.run 4 (contents two_held) calls
run_refines_example = run_refines calls two_held-IsValid (omega arith)

step-IsValid_example : IsValid (step two_held (Op.write (60 ∷ 70 ∷ 80 ∷ []))).1
step-IsValid_example = step-IsValid (Op.write (60 ∷ 70 ∷ 80 ∷ [])) two_held-IsValid (omega arith)

slices_in_bounds_example :
    (Ring.read_offset two_held + Ring.read_len two_held < 8)
    × (Ring.write_offset two_held + Ring.write_len two_held < 8)
    × (Ring.read_len two_held + Ring.write_len two_held ≡ Ring.write_capacity two_held)
slices_in_bounds_example = slices_in_bounds two_held-IsValid

-- A platform that counts the rings that are mapped, of up to four zeros.
zeros : ℕ → List ℕ
zeros zero = []
zeros (suc n) = 0 ∷ zeros n

length-zeros : (n : ℕ) → length (zeros n) ≡ n
unfolding zeros
length-zeros zero = refl
length-zeros (suc n) = ap suc (length-zeros n)

abbrev small_map : ℕ → Call ℕ ℕ ℕ
small_map n st =
    if ltb 4 n
    then (err (record { repr = Repr.system 12; op = Operation.ring_allocate }), st)
    else (ok 4096, st + 1)

abbrev small : RingPlatform ℕ ℕ
small = record {
  map_ring = small_map;
  unmap_ring = λ pg len st. (ok tt, st - 1);
  load = λ st ptr n. zeros n;
}

small_map-fits : (len st ptr st' : ℕ) → small_map len st ≡ (ok ptr, st') → len ≤ 4
small_map-fits len st ptr st' e = elim (Bool-cases (ltb 4 len)) [
  | inl h ↦ let bad : false ≡ true = rw h at (ap (λ q. is_ok q.0) e) in cc
  | inr h ↦ ltb-false→le 4 len h
]

small-Maps : Maps small
small-Maps = record {
  bytes = λ st ptr n. length-zeros n;
  fits = λ len st ptr st' e. omega (arith, small_map-fits len st ptr st' e);
}

abbrev unit_4 : Size
unit_4 = record { unit = 4 }

unit_4-IsUnit : IsUnit unit_4
unit_4-IsUnit = record { log = 2; log_small = omega arith; is_pow = refl }

new_lem_example :
    let (result, st') = Ring.new unit_4 small 3 0 in
    let (mapped, after) = small_map (round unit_4 3) 0 in
    (st' ≡ after)
    × (((e : Error ℕ) × (mapped ≡ err e) × (result ≡ err e))
        ⊎ ((r : Ring) × (result ≡ ok r) × Fresh unit_4 3 r))
new_lem_example = new_lem unit_4 3 0 small-Maps unit_4-IsUnit (omega arith) (omega arith)

abbrev three_kept : InfiniteRing
three_kept = record { ptr = 0; mem = 50 ∷ 20 ∷ 30 ∷ 40 ∷ []; len = 4; rlen = 3; wpos = 5 }

three_kept-IsValid : InfiniteInv.IsValid three_kept
three_kept-IsValid = record {
  mapped = refl;
  nonempty = omega arith;
  addressable = omega arith;
  held = omega arith;
  written = omega arith;
  counted = omega arith;
}

abbrev six : List ℕ
six = 1 ∷ 2 ∷ 3 ∷ 4 ∷ 5 ∷ 6 ∷ []

abbrev infinite_calls : List InfiniteQueue.Op
infinite_calls =
    InfiniteQueue.write (60 ∷ 70 ∷ [])
    ∷ InfiniteQueue.fill_buf
    ∷ InfiniteQueue.read (0 ∷ [])
    ∷ InfiniteQueue.write_all six
    ∷ InfiniteQueue.consume 1
    ∷ InfiniteQueue.fill_buf
    ∷ []

infinite_run_refines_example :
    InfiniteRefine.run three_kept infinite_calls
    ≡ InfiniteQueue.run 4 (InfiniteContents.contents three_kept) infinite_calls
infinite_run_refines_example = infinite_run_refines infinite_calls three_kept-IsValid (omega arith)
