-- ===== src/Os/Windows/Reports.antt =====
-- The other calls of src/os/windows.rs: which view `map_file` and `map_anon` make, and when the calls
-- report success.
use vmap_rs.Prelude.{
  ℕ, ◌+◌, ◌*◌, ◌^◌, ◌<◌, ◌≡◌, ap, ◌∙◌, subst, ◌∷◌, none, some, Option, arith, not, ◌&&◌, ◌==◌,
}
use vmap_rs.Word.{word}
use vmap_rs.Word.Bits.{bit_and_mask}
use vmap_rs.Std.{Result, ok, err, is_ok}
use vmap_rs.Error.{Error, Operation, last_os_error}
use vmap_rs.Types.{Protect, Flush}
use vmap_rs.Os.Windows.{
  Winapi, Access, file_access, anon_access, page_prot, high_dword, low_dword, view, view_ptr, drop,
  map_file, map_anon, unmap, protect, flush, lock, unlock, new_post, non_null_last,
}
use vmap_rs.Os.Windows.Views.{put_view, Vacant, Process, Same, WinapiLaws}

-- The two halves of an offset make it up.
dwords : (n : ℕ) → n < word → high_dword n * 2 ^ 32 + low_dword n ≡ n
unfolding high_dword low_dword
dwords n h = omega (arith, bit_and_mask 32 n, h)

module _ {St S : Type 0} (api : Winapi St S) {proc : Process St} (laws : WinapiLaws api proc) where
  -- A view of `len` bytes of `file`, or of memory, from `off` on was made where there was none, and that is all; or nothing
  -- changed.
  abbrev pub Viewed : Option ℕ → ℕ → ℕ → St → Result ℕ (Error S) × St → Type 0
  Viewed file off len st (ok pg, st') =
      ((map : ℕ) × (proc.views st'
          ≡ put_view pg (some (record { map = map; file = file; off = off; size = len }))
              (proc.views st)))
      × (proc.reserved st' ≡ proc.reserved st)
      × (proc.handles st' ≡ proc.handles st)
      × Vacant (proc.views st) pg len
  Viewed file off len st (err e, st') = Same proc st st'

  drop-view-Viewed :
      (h : ℕ) (file : Option ℕ) (op : Operation) (access : Access) (off len : ℕ) (st st1 : St)
      → 0 < len
      → off < word
      → proc.views st1 ≡ proc.views st
      → proc.reserved st1 ≡ proc.reserved st
      → proc.handles st1 ≡ (h, file) ∷ proc.handles st
      → Viewed file off len st
          (drop api (record { map = h }) (view api (record { map = h }) op access off len 0 st1))
  unfolding drop view view_ptr
  drop-view-Viewed h file op access off len st st1 pos small v r opened =
      let high = high_dword off in
      let low = low_dword off in
      non_null_last api (λ r. Viewed file off len st (drop api (record { map = h }) r)) op
        (api.map_view_of_file h access high low len 0) st1
        (λ pg st2 e nz.
          let (v2, r2, h2, free) =
            laws.view_ok h file access high low len 0 st1 (proc.handles st) pg st2 opened e nz
              pos in
          let (v3, r3, h3) = laws.close_last h file st2 (proc.handles st) (h2 ∙ opened) in
          let at = dwords off small in
          (
            (
              h,
              v3
                  ∙ v2
                  ∙ ap
                      (λ o.
                        put_view pg (some (record { map = h; file = file; off = o; size = len }))
                          (proc.views st1))
                      at
                  ∙ ap (put_view pg (some (record { map = h; file = file; off = off; size = len })))
                      v,
            ),
            r3 ∙ r2 ∙ r,
            h3,
            subst (λ s. Vacant s pg len) v free,
          ))
        (λ st2 e.
          let s = laws.view_fail h access high low len 0 st1 st2 e in
          let (v3, r3, h3) = laws.close_last h file st2 (proc.handles st) (s.handles ∙ opened) in
          record { views = v3 ∙ s.views ∙ v; reserved = r3 ∙ s.reserved ∙ r; handles = h3 })

  -- `map_file` makes a view of the `len` bytes of the file from `off` on and `map_anon` one of the
  -- `len` bytes of a new mapping, where no view was; the handle of the mapping is closed again on
  -- every path, and a call that fails changes nothing. The length is positive, the offset is below
  -- `2 ^ 64`, and the system keeps to `WinapiLaws`.
  pub windows_map-Viewed :
      (file off len : ℕ) (prot : Protect) (st : St)
      → 0 < len
      → off < word
      → Viewed (some file) off len st (map_file api file off len prot st)
        × Viewed none 0 len st (map_anon api len prot st)
  unfolding map_file map_anon
  windows_map-Viewed file off len prot st pos small =
      let (p, access) = file_access prot in
      let (q, anon) = anon_access prot in
      (
        new_post api (Viewed (some file) off len st) Operation.map_file_handle (some file) p 0
            (λ map st. drop api map (view api map Operation.map_file_view access off len 0 st)) st
            (λ h st1 e nz.
              let (v, r, opened) =
                laws.create_ok (some file) p (high_dword 0) (low_dword 0) st h st1 e nz in
              drop-view-Viewed h (some file) Operation.map_file_view access off len st st1 pos small
                v r opened)
            (λ st1 e. laws.create_fail (some file) p (high_dword 0) (low_dword 0) st st1 e),
        new_post api (Viewed none 0 len st) Operation.map_anonymous_handle none q len
            (λ map st. drop api map (view api map Operation.map_anonymous_view anon 0 len 0 st)) st
            (λ h st1 e nz.
              let (v, r, opened) =
                laws.create_ok none q (high_dword len) (low_dword len) st h st1 e nz in
              drop-view-Viewed h none Operation.map_anonymous_view anon 0 len st st1 pos
                (omega arith) v r opened)
            (λ st1 e. laws.create_fail none q (high_dword len) (low_dword len) st st1 e),
      )

module _ {St S : Type 0} (api : Winapi St S) where
  -- The last error is that of the state that the call left.
  abbrev pub Blames : Operation → Result (Unit {0}) (Error S) × St → Type 0
  Blames op (ok _, st) = Unit {0}
  Blames op (err e, st) = e ≡ last_os_error op (api.last_error st)

  -- When the calls report success, with which error they fail, and which calls `flush` makes.
  abbrev pub Reported : ℕ → ℕ → ℕ → Protect → St → Type 0
  Reported pg len file prot st =
      (is_ok (protect api pg len prot st).0
        ≡ not ((api.virtual_protect pg len (page_prot prot) st).0 == 0))
      × (is_ok (lock api pg len st).0 ≡ not ((api.virtual_lock pg len st).0 == 0))
      × (is_ok (unlock api pg len st).0 ≡ not ((api.virtual_unlock pg len st).0 == 0))
      × (is_ok (flush api pg file len Flush.async st).0
          ≡ not ((api.flush_view_of_file pg len st).0 == 0))
      × ((flush api pg file len Flush.async st).1 ≡ (api.flush_view_of_file pg len st).1)
      × ((api.flush_view_of_file pg len st).0 ≡ 0
          → (flush api pg file len Flush.sync st).1 ≡ (api.flush_view_of_file pg len st).1)
      × Blames Operation.flush (flush api pg file len Flush.async st)
      × Blames Operation.flush (flush api pg file len Flush.sync st)
      × (is_ok (flush api pg file len Flush.sync st).0
          ≡ not ((api.flush_view_of_file pg len st).0 == 0)
            && not ((api.flush_file_buffers file (api.flush_view_of_file pg len st).1).0 == 0))
      × (is_ok (unmap api pg len st).0 ≡ ((api.unmap_view_of_file pg st).0 == 0))
