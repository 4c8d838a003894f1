-- ===== src/Os/Windows/Lifetime.antt =====
-- A view of src/os/windows.rs from `map_file` to `unmap`.
use vmap_rs.Prelude.{
  ℕ, ◌+◌, ◌%◌, ◌≤◌, ◌≡◌, refl, ap, ◌∙◌, ◌⊎◌, ==→≡, inl, inr, none, some, false, Bool-cases, ◌==◌,
}
use vmap_rs.Word.{word}
use vmap_rs.Std.{Result, ok, err}
use vmap_rs.Error.{Error, Operation}
use vmap_rs.Size.{Size}
use vmap_rs.Types.{Protect}
use vmap_rs.Os.Windows.{
  Winapi, Access, map_file, unmap, file_access, view, view_ptr, drop, new_post, non_null_last,
  high_dword, low_dword,
}
use vmap_rs.Os.Windows.Views.{
  View, put_view, put_view_self, put_view-back, Process, Same, WinapiLaws,
}

-- What is documented of a view that the system places: it begins at a multiple of the allocation
-- granularity, and ends at least that far below the end of the address space.
pub record ViewPlaced {St S : Type 0} (api : Winapi St S) (alloc : Size) : Type 0 where
  pub view_placed :
      (map : ℕ) (access : Access) (high low len : ℕ) (st : St) (p : ℕ) (st' : St)
      → api.map_view_of_file map access high low len 0 st ≡ (p, st')
      → (p == 0) ≡ false
      → (p % alloc.unit ≡ 0) × (p + len + alloc.unit ≤ word)

module _ {St S : Type 0} (api : Winapi St S) {alloc : Size} (granular : ViewPlaced api alloc) where
  abbrev pub Placed : ℕ → Result ℕ (Error S) × St → Type 0
  Placed len (ok base, st) = (base % alloc.unit ≡ 0) × (base + len + alloc.unit ≤ word)
  Placed len (err e, st) = Unit {0}

  pub map_file-Placed :
      (f off len : ℕ) (prot : Protect) (st : St) → Placed len (map_file api f off len prot st)
  unfolding map_file drop view view_ptr
  map_file-Placed f off len prot st =
      let (p, access) = file_access prot in
      new_post api (Placed len) Operation.map_file_handle (some f) p 0
        (λ map st. drop api map (view api map Operation.map_file_view access off len 0 st)) st
        (λ h st1 e nz.
          non_null_last api (λ r. Placed len (drop api (record { map = h }) r))
            Operation.map_file_view
            (api.map_view_of_file h access (high_dword off) (low_dword off) len 0) st1
            (λ pg st2 e nz.
              granular.view_placed h access (high_dword off) (low_dword off) len st1 pg st2 e nz)
            (λ st2 e. tt))
        (λ st1 e. tt)

module _ {St S : Type 0} (api : Winapi St S) where
  pub unmap-state :
      (pg len : ℕ) (st : St) → (unmap api pg len st).1 ≡ (api.unmap_view_of_file pg st).1
  unfolding unmap
  unmap-state pg len st = elim (Bool-cases ((api.unmap_view_of_file pg st).0 == 0)) [
    | inl h ↦ rw h refl
    | inr h ↦ rw h refl
  ]

-- A view at `base` is taken away from `made`: reserved pages and open handles are as in `st`, and so are
-- the views, or the call failed and left them as they were.
pub record TakenAway {St S : Type 0} (api : Winapi St S) (proc : Process St) (st : St) (base : ℕ)
    (made st' : St) : Type 0 where
  pub reserved : proc.reserved st' ≡ proc.reserved st
  pub handles : proc.handles st' ≡ proc.handles st
  pub views :
      (proc.views st' ≡ proc.views st)
      ⊎ ((api.unmap_view_of_file base made ≡ (0, st')) × (proc.views st' ≡ proc.views made))

module _ {St S : Type 0} (api : Winapi St S) {proc : Process St} (laws : WinapiLaws api proc) where
  -- The view that was put where there was none is taken away, or that fails.
  pub unmapped_view :
      (base : ℕ) (v : View) (st before st1 : St)
      → Same proc st before
      → proc.views st1 ≡ put_view base (some v) (proc.views before)
      → proc.reserved st1 ≡ proc.reserved before
      → proc.handles st1 ≡ proc.handles before
      → proc.views before base ≡ none
      → TakenAway api proc st base st1 (api.unmap_view_of_file base st1).1
  unmapped_view base v st before st1 same shows r h free =
      let (r2, h2) = laws.unmap_keeps base st1 in
      record {
        reserved = r2 ∙ r ∙ same.reserved;
        handles = h2 ∙ h ∙ same.handles;
        views = elim (Bool-cases ((api.unmap_view_of_file base st1).0 == 0)) [
          | inl bad ↦
              let st2 = (api.unmap_view_of_file base st1).1 in
              let call = ap (λ r. (r, st2)) (==→≡ (api.unmap_view_of_file base st1).0 0 bad) in
              inr (call, laws.unmap_fail base st1 st2 call)
          | inr good ↦
              let there =
                ap (λ s. s base) shows ∙ put_view_self base (some v) (proc.views before) in
              inl (
                laws.unmap_ok base v st1 (api.unmap_view_of_file base st1).0
                  (api.unmap_view_of_file base st1).1 there refl good
                ∙ ap (put_view base none) shows
                ∙ put_view-back base (some v) (proc.views before) free
                ∙ same.views)
        ];
      }
