-- ===== src/Map/Windows.antt =====
-- A map of src/map.rs over src/os/windows.rs: which bytes it shows, and what its drop leaves.
mod Tests
use vmap_rs.Prelude.{
  ℕ, ◌+◌, ◌-◌, ◌%◌, ◌<◌, ◌≤◌, ◌≡◌, refl, sym, ap, ◌∙◌, subst, ◌⊎◌, inl, inr, Option, none, some,
  false, true, arith, Bool-cases, ◌==◌,
}
use vmap_rs.Word.{word}
use vmap_rs.Std.{Result, ok, err}
use vmap_rs.Error.{Error, Operation}
use vmap_rs.Size.{Size}
use vmap_rs.Size.Units.{IsUnit}
use vmap_rs.Types.{Protect}
use vmap_rs.Os.{Files}
use vmap_rs.Os.Windows.{
  Winapi, Access, windows, map_file, unmap, file_access, view, view_ptr, drop, new_post,
  non_null_last, high_dword, low_dword,
}
use vmap_rs.Os.Windows.Views.{
  View, put_view, put_view_self, put_view-back, Vacant, Process, Same, WinapiLaws,
}
use vmap_rs.Os.Windows.Left.{Kept}
use vmap_rs.Os.Windows.Lifetime.{
  ViewPlaced, TakenAway, Placed, map_file-Placed, unmap-state, unmapped_view,
}
use vmap_rs.Os.Windows.Reports.{Viewed, windows_map-Viewed}
use vmap_rs.Map as Map
use vmap_rs.Map.{MapMut, map_mut_from_ptr}
use vmap_rs.Map.Options.{Options, map_if}
use vmap_rs.Map.Options.Extents.{FileLaws, FileSteps, here, by_metadata, by_set}
use vmap_rs.Map.Lifetime.{Places, Dropped, map_if-Dropped}

-- The calls of `std::fs` leave the views, the reserved pages and the other open handles alone.
pub record FilesKeep {St : Type 0} (files : Files St) (proc : Process St) : Type 0 where
  pub metadata_keeps :
      (f : ℕ) (st : St) (n : ℕ) (st' : St)
      → files.metadata_len f st ≡ (ok n, st')
      → Same proc st st'
  pub set_keeps :
      (f n : ℕ) (st : St) (u : Unit {0}) (st' : St)
      → files.set_len f n st ≡ (ok u, st')
      → Same proc st st'

-- The map `m` is the end of the view `v` at `base`, which shows the bytes of the file `f`, and those at
-- the map's address from the offset `off` on.
pub record Lies (f off : ℕ) (m : MapMut) (base : ℕ) (v : View) : Type 0 where
  pub of_file : v.file ≡ some f
  pub first : v.off ≤ off
  pub at : m.ptr ≡ base + (off - v.off)
  pub ends : m.len + (off - v.off) ≡ v.size

module _ {St S : Type 0} (api : Winapi St S) (files : Files St) (alloc : Size) {proc : Process St}
    (laws : WinapiLaws api proc) (granular : ViewPlaced api alloc)
    (keep : FilesKeep files proc) where
  windows-Places : Places (windows api) alloc
  unfolding windows
  windows-Places = record {
    placed = λ f off len p st base st' e.
        subst (Placed api granular len) e (map_file-Placed api granular f off len p st);
  }

  Same-then : {st st1 st2 : St} → Same proc st1 st2 → Same proc st st1 → Same proc st st2
  Same-then t s = record {
    views = t.views ∙ s.views;
    reserved = t.reserved ∙ s.reserved;
    handles = t.handles ∙ s.handles;
  }

  steps_keep : {f : ℕ} {st st' : St} → FileSteps files f st st' → Same proc st st'
  steps_keep here = record { views = refl; reserved = refl; handles = refl }
  steps_keep {f} (by_metadata {st1} {st2} n s e) =
      Same-then (keep.metadata_keeps f st1 n st2 e) (steps_keep s)
  steps_keep {f} (by_set {st1} {st2} n u s e) =
      Same-then (keep.set_keeps f n st1 u st2 e) (steps_keep s)

  -- A map that `map_if` made over Windows, if it is not empty, is the end of a view of the file, put
  -- where there was none, that shows the bytes at the map's address from the offset of the options on;
  -- and once the map is dropped, the views, the reserved pages and the open handles are as they were
  -- before `map_if`, the views unless the `UnmapViewOfFile` of the drop failed, which leaves them as
  -- the map had them. The offset is below `2 ^ 64`, the allocation unit is a power of two, `std::fs`
  -- keeps to `FileLaws` and to `FilesKeep`, and the system to `WinapiLaws` and `ViewPlaced`.
  pub windows_map :
      (page : Size) {len_of : ℕ → St → ℕ} (o : Options) (f : ℕ) (st : St) (m : MapMut) (st' : St)
      → FileLaws files len_of
      → IsUnit alloc
      → o.offset < word
      → map_if (windows api) files page alloc o f st ≡ (ok (some m), st')
      → 0 < m.len
      → (base : ℕ) × (v : View) × Lies f o.offset m base v
        × Vacant (proc.views st) base v.size
        × (proc.views st' ≡ put_view base (some v) (proc.views st))
        × TakenAway api proc st base st' (Map.drop (windows api) page alloc m st')
  unfolding windows
  windows_map page o f st m st' file_laws u small e pos =
      let d =
        map_if-Dropped (windows api) files page alloc file_laws windows-Places u o f st m st' e in
      let (n, drops, _, _, _, _) = d.gives_back pos in
      let same = steps_keep d.steps in
      let ((map, shows), r, h, free) =
        subst (Viewed api laws (some f) d.mapoff d.maplen d.before) d.call
          (windows_map-Viewed api laws f d.mapoff d.maplen o.protect d.before
            (omega (arith, d.placed, pos)) (omega (arith, d.near, small))).0 in
      let v : View = record { map = map; file = some f; off = d.mapoff; size = d.maplen } in
      (
        d.base,
        v,
        record { of_file = refl; first = d.near.0; at = d.placed.0; ends = d.placed.1 },
        subst (λ s. Vacant s d.base d.maplen) same.views free,
        shows ∙ ap (put_view d.base (some v)) same.views,
        subst (TakenAway api proc st d.base st') (sym (drops ∙ unmap-state api d.base n st'))
            (unmapped_view api laws d.base v st d.before st' same shows r h free.none_at),
      )
