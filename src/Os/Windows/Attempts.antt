-- ===== src/Os/Windows/Attempts.antt =====
-- The attempts of `map_ring` in src/os/windows.rs: two views side by side, or none.
use vmap_rs.Prelude.{
  ℕ, zero, suc, ◌+◌, ◌*◌, ◌<◌, ◌≤◌, ◌≡◌, ◌≢◌, refl, sym, ap, ◌∙◌, inl, inr, subst, none, some,
  Option, List, ◌∷◌, ==→≡, arith, false, Bool-cases, ◌==◌,
}
use vmap_rs.Word.{word, add_word}
use vmap_rs.Std.{Result, ok, err}
use vmap_rs.Error.{Error, Operation, last_os_error}
use vmap_rs.Os.{Call, ◌>>=◌}
use vmap_rs.Os.Windows.{
  Winapi, MapHandle, PageProt, MemType, access_read_write, view, view_ptr, reserve, or_unmap,
  map_ring_handle, attempts, non_null_last, non_null_post, high_dword, low_dword,
}
use vmap_rs.Os.Windows.Views.{
  put_view, Vacant, Process, Same, WinapiLaws, put_view_self, put_view-back,
}
use vmap_rs.Os.Windows.Left.{
  half, Vacant-before, Left, none_left, one_left, Kept, Ended, Same-Kept, after_Kept,
}

module _ {St S : Type 0} (api : Winapi St S) {proc : Process St} (laws : WinapiLaws api proc) where
  reserve_post {κ} :
      {B : Type 0} (Q : Result B (Error S) × St → Type κ) (full : ℕ) (k : ℕ → Call St S B) (st : St)
      → ((pg : ℕ) (st' : St)
          → Same proc st st'
          → (pg == 0) ≡ false
          → pg + full ≤ word
          → Q (k pg st'))
      → ((e : Error S) (st' : St) → Same proc st st' → Q (err e, st'))
      → Q ((reserve api full >>= k) st)
  unfolding reserve
  reserve_post {B = B} Q full k st on_ok on_err =
      non_null_post api (λ r. Q (elim r.0 [ ok a ↦ k a r.1 | err e ↦ (err e, r.1) ]))
        Operation.ring_allocate
        (api.virtual_alloc 0 full MemType.mem_reserve PageProt.page_noaccess)
        (λ pg st. (ok pg, (api.virtual_free pg 0 MemType.mem_release st).1)) st
        (λ pg st1 e nonzero.
          let (v, r, h, fits) = laws.reserve_ok full PageProt.page_noaccess st pg st1 e nonzero in
          let (v2, r2, h2) = laws.release_last pg st1 (proc.reserved st) r in
          on_ok pg (api.virtual_free pg 0 MemType.mem_release st1).1
            (record { views = v2 ∙ v; reserved = r2; handles = h2 ∙ h }) nonzero fits)
        (λ st1 e. on_err _ st1 (laws.reserve_fail full PageProt.page_noaccess st st1 e))

  -- The second view failed, and the first is unmapped, or that fails.
  undone :
      (map len pg : ℕ) (st made st1 : St) (e : Error S)
      → api.map_view_of_file map access_read_write 0 0 len pg st ≡ (pg, made)
      → api.map_view_of_file map access_read_write 0 0 len (pg + len) made ≡ (0, st1)
      → proc.views st pg ≡ none
      → proc.views st1 ≡ put_view pg (some (half map len)) (proc.views st)
      → proc.reserved st1 ≡ proc.reserved st
      → proc.handles st1 ≡ proc.handles st
      → Kept api proc map len st (or_unmap api pg (err e, st1)).1
  unfolding or_unmap
  undone map len pg st made st1 e first second free v1 r1 h1 =
      let (r2, h2) = laws.unmap_keeps pg st1 in
      record {
        reserved = r2 ∙ r1;
        handles = h2 ∙ h1;
        left = elim (Bool-cases ((api.unmap_view_of_file pg st1).0 == 0)) [
          | inl bad ↦
              let st2 = (api.unmap_view_of_file pg st1).1 in
              let call = ap (λ r. (r, st2)) (==→≡ (api.unmap_view_of_file pg st1).0 0 bad) in
              subst (Left api proc map len (proc.views st))
                (sym (laws.unmap_fail pg st1 st2 call ∙ v1))
                (one_left pg st made st1 st2 none_left free first second v1 call)
          | inr done ↦
              let there =
                ap (λ s. s pg) v1 ∙ put_view_self pg (some (half map len)) (proc.views st) in
              subst (Left api proc map len (proc.views st))
                (sym (
                  laws.unmap_ok pg (half map len) st1 _ _ there refl done
                  ∙ ap (put_view pg none) v1
                  ∙ put_view-back pg (some (half map len)) (proc.views st) free))
                none_left
        ];
      }

  -- The second view, where the first was made at `pg`.
  second-Ended :
      (map : MapHandle) (len pg : ℕ) (others : List (ℕ × Option ℕ)) (st st1 : St)
      → proc.handles st ≡ (map.map, none) ∷ others
      → api.map_view_of_file map.map access_read_write 0 0 len pg st ≡ (pg, st1)
      → 0 < len
      → (pg == 0) ≡ false
      → pg + 2 * len ≤ word
      → Vacant (proc.views st) pg len
      → proc.views st1 ≡ put_view pg (some (half map.map len)) (proc.views st)
      → proc.reserved st1 ≡ proc.reserved st
      → proc.handles st1 ≡ proc.handles st
      → Ended api proc map.map len st (
          or_unmap api pg
            (view api map Operation.ring_secondary access_read_write 0 len (pg + len) st1))
  unfolding or_unmap view view_ptr high_dword low_dword
  second-Ended map len pg others st st1 hs first pos nz fits free v1 r1 h1 =
      let apart : pg + len ≢ pg = λ e. omega (arith, e, pos) in
      let nz2 : (pg + len == 0) ≡ false = ground (arith, pos) in
      non_null_last api (λ r. Ended api proc map.map len st (or_unmap api pg r))
        Operation.ring_secondary (api.map_view_of_file map.map access_read_write 0 0 len (pg + len))
        st1
        (λ b st2 e some_b.
          let (v2, r2, h2, free2) =
            laws.view_ok map.map none access_read_write 0 0 len (pg + len) st1 others b st2
              (h1 ∙ hs) e some_b pos in
          let at =
            laws.view_at map.map access_read_write 0 0 len (pg + len) st1 b st2 e some_b nz2 in
          let beside : Vacant (put_view pg (some (half map.map len)) (proc.views st)) (pg + len)
              len =
            subst (λ p. Vacant (put_view pg (some (half map.map len)) (proc.views st)) p len) at
              (subst (λ s. Vacant s b len) v1 free2) in
          (
            r2 ∙ r1,
            h2 ∙ h1,
            (
              proc.views st,
              none_left,
              record {
                shows =
                    v2
                    ∙ ap (λ p. put_view p (some (half map.map len)) (proc.views st1)) at
                    ∙ ap (put_view (pg + len) (some (half map.map len))) v1;
                low = free;
                high = Vacant-before (half map.map len) free.none_at apart beside;
                not_null = nz;
                fits = fits;
              },
            ),
          ))
        (λ st2 e.
          let s = laws.view_fail map.map access_read_write 0 0 len (pg + len) st1 st2 e in
          undone map.map len pg st st1 st2
            (last_os_error Operation.ring_secondary (api.last_error st2)) first e free.none_at
            (s.views ∙ v1) (s.reserved ∙ r1) (s.handles ∙ h1))

  map_ring_handle-Ended :
      (map : MapHandle) (len pg : ℕ) (others : List (ℕ × Option ℕ)) (st : St)
      → proc.handles st ≡ (map.map, none) ∷ others
      → 0 < len
      → (pg == 0) ≡ false
      → pg + 2 * len ≤ word
      → Ended api proc map.map len st (map_ring_handle api map len pg st)
  unfolding map_ring_handle view view_ptr high_dword low_dword
  map_ring_handle-Ended map len pg others st hs pos nz fits =
      let next : add_word pg len ≡ pg + len = omega (arith, fits, pos) in
      let rest = λ (a : ℕ) (st : St).
        or_unmap api a
          (view api map Operation.ring_secondary access_read_write 0 len (pg + len) st) in
      rw next (
        non_null_post api (Ended api proc map.map len st) Operation.ring_primary
          (api.map_view_of_file map.map access_read_write 0 0 len pg) rest st
          (λ a st1 e some_a.
            let (v1, r1, h1, free1) =
              laws.view_ok map.map none access_read_write 0 0 len pg st others a st1 hs e some_a
                pos in
            let at = laws.view_at map.map access_read_write 0 0 len pg st a st1 e some_a nz in
            subst (λ a. Ended api proc map.map len st (rest a st1)) (sym at)
              (second-Ended map len pg others st st1 hs (e ∙ ap (λ x. (x, st1)) at) pos nz fits
                (subst (λ p. Vacant (proc.views st) p len) at free1)
                (v1 ∙ ap (λ p. put_view p (some (half map.map len)) (proc.views st)) at) r1 h1))
          (λ st1 e.
            Same-Kept api proc map.map len
              (laws.view_fail map.map access_read_write 0 0 len pg st st1 e)))

  again :
      (map : MapHandle) (len full left : ℕ) (st : St) (r : Result ℕ (Error S) × St)
      → Ended api proc map.map len st r
      → ((st' : St)
          → Kept api proc map.map len st st'
          → Ended api proc map.map len st' (attempts api map len full left st'))
      → Ended api proc map.map len st
          (elim r.0 [ ok a ↦ (ok a, r.1) | err e ↦ attempts api map len full left r.1 ])
  again map len full left st (ok a, st') ended rest = ended
  again map len full left st (err e, st') ended rest =
      after_Kept api proc map.map len (attempts api map len full left st') ended (rest st' ended)

  pub attempts-Ended :
      (map : MapHandle) (len left : ℕ) (others : List (ℕ × Option ℕ)) (st : St)
      → proc.handles st ≡ (map.map, none) ∷ others
      → 0 < len
      → Ended api proc map.map len st (attempts api map len (2 * len) left st)
  unfolding attempts
  attempts-Ended map len zero others st hs pos =
      reserve_post (Ended api proc map.map len st) (2 * len) (map_ring_handle api map len) st
        (λ pg st1 same nz fits.
          after_Kept api proc map.map len (map_ring_handle api map len pg st1)
            (Same-Kept api proc map.map len same)
            (map_ring_handle-Ended map len pg others st1 (same.handles ∙ hs) pos nz fits))
        (λ e st1 same. Same-Kept api proc map.map len same)
  attempts-Ended map len (suc left) others st hs pos =
      let one = map_ring_handle api map len in
      let next = λ (r : Result ℕ (Error S) × St). elim r.0 as (λ _. Result ℕ (Error S) × St) [
        | ok a ↦ (ok a, r.1)
        | err e ↦ attempts api map len (2 * len) left r.1
      ] in
      reserve_post (Ended api proc map.map len st) (2 * len) (λ pg st. next (one pg st)) st
        (λ pg st1 same nz fits.
          after_Kept api proc map.map len (next (one pg st1)) (Same-Kept api proc map.map len same)
            (again map len (2 * len) left st1 (one pg st1)
              (map_ring_handle-Ended map len pg others st1 (same.handles ∙ hs) pos nz fits)
              (λ st2 kept.
                attempts-Ended map len left others st2 (kept.handles ∙ same.handles ∙ hs) pos)))
        (λ e st1 same. Same-Kept api proc map.map len same)
