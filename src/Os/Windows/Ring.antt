-- ===== src/Os/Windows/Ring.antt =====
-- `map_ring` and `unmap_ring` of src/os/windows.rs: what they leave of the views, the reserved pages
-- and the open handles of the process.
use vmap_rs.Prelude.{
  ℕ, ◌+◌, ◌*◌, ◌<◌, ◌≡◌, ◌≢◌, refl, sym, ap, ◌∙◌, inl, inr, subst, ◌∷◌, none, some, arith,
  Bool-cases, ◌==◌, ==→≡, false,
}
use vmap_rs.Word.{word, add_word}
use vmap_rs.Std.{Result, ok, err}
use vmap_rs.Error.{Error, Operation}
use vmap_rs.Os.Windows.{
  Winapi, MapHandle, PageProt, drop, attempts, map_ring, unmap_ring, new_post, nonzero_post,
  high_dword, low_dword,
}
use vmap_rs.Os.Windows.Views.{
  Views, put_view, Process, WinapiLaws, put_view_self, put_view-ne, put_view-back,
}
use vmap_rs.Os.Windows.Left.{half, Ringed, Left, Kept, Ended, Same-Kept}
use vmap_rs.Os.Windows.Attempts.{attempts-Ended}

module _ {St S : Type 0} (api : Winapi St S) {proc : Process St} (laws : WinapiLaws api proc) where
  -- The handle of the mapping, opened on top of the others, is closed again.
  drop-Ended :
      (map : MapHandle) (len : ℕ) (st st1 : St) (r : Result ℕ (Error S) × St)
      → proc.views st1 ≡ proc.views st
      → proc.reserved st1 ≡ proc.reserved st
      → proc.handles st1 ≡ (map.map, none) ∷ proc.handles st
      → Ended api proc map.map len st1 r
      → Ended api proc map.map len st (drop api map r)
  unfolding drop
  drop-Ended map len st st1 (ok pg, st2) v r h (r2, h2, (views, left, ring)) =
      let (v3, r3, h3) = laws.close_last map.map none st2 (proc.handles st) (h2 ∙ h) in
      (
        r3 ∙ r2 ∙ r,
        h3,
        (
          views,
          subst (λ old. Left api proc map.map len old views) v left,
          subst (λ new. Ringed map.map len views new pg) (sym v3) ring,
        ),
      )
  drop-Ended map len st st1 (err e, st2) v r h k =
      let (v3, r3, h3) = laws.close_last map.map none st2 (proc.handles st) (k.handles ∙ h) in
      record {
        reserved = r3 ∙ k.reserved ∙ r;
        handles = h3;
        left =
            subst
              (λ old. Left api proc map.map len old (proc.views (api.close_handle map.map st2).1)) v
              (subst (Left api proc map.map len (proc.views st1)) (sym v3) k.left);
      }

  unmap_ring-keeps :
      (pg len : ℕ) (st : St)
      → (proc.reserved (unmap_ring api pg len st).1 ≡ proc.reserved st)
        × (proc.handles (unmap_ring api pg len st).1 ≡ proc.handles st)
  unfolding unmap_ring
  unmap_ring-keeps pg len st =
      let upper = laws.unmap_keeps (add_word pg len) st in
      nonzero_post api
        (λ r. (proc.reserved r.1 ≡ proc.reserved st) × (proc.handles r.1 ≡ proc.handles st))
        Operation.ring_deallocate (api.unmap_view_of_file (add_word pg len))
        (λ _ st. (ok tt, (api.unmap_view_of_file pg st).1)) st
        (λ r st1 e _.
          let (r2, h2) = laws.unmap_keeps pg st1 in
          let (r1, h1) =
            subst
              (λ q. (proc.reserved q.1 ≡ proc.reserved st) × (proc.handles q.1 ≡ proc.handles st)) e
              upper in
          (r2 ∙ r1, h2 ∙ h1))
        (λ st1 e.
          subst (λ q. (proc.reserved q.1 ≡ proc.reserved st) × (proc.handles q.1 ≡ proc.handles st))
            e upper)

  -- The views after `unmap_ring` of the ring at `pg`, which was mapped among the views `old` and taken
  -- away from `made`: the calls that may have failed are those of `unmap_ring`.
  pub data ViewsAfter (map len : ℕ) (old : Views) (pg : ℕ) (made st' : St) : Type 0 where
    unmapped : proc.views st' ≡ old → ViewsAfter map len old pg made st'
    upper_failed :
        api.unmap_view_of_file (pg + len) made ≡ (0, st')
        → proc.views st' ≡ proc.views made
        → ViewsAfter map len old pg made st'
    lower_failed :
        (r : ℕ) (mid : St)
        → api.unmap_view_of_file (pg + len) made ≡ (r, mid)
        → (r == 0) ≡ false
        → api.unmap_view_of_file pg mid ≡ (0, st')
        → proc.views st' ≡ put_view pg (some (half map len)) old
        → ViewsAfter map len old pg made st'

  lower_view :
      (map len pg : ℕ) (old : Views) (st1 st2 : St) (r : ℕ)
      → api.unmap_view_of_file (pg + len) st1 ≡ (r, st2)
      → (r == 0) ≡ false
      → proc.views st2 ≡ put_view pg (some (half map len)) old
      → old pg ≡ none
      → ViewsAfter map len old pg st1 (api.unmap_view_of_file pg st2).1
  lower_view map len pg old st1 st2 r e done v2 free =
      let st3 = (api.unmap_view_of_file pg st2).1 in
      elim (Bool-cases ((api.unmap_view_of_file pg st2).0 == 0)) [
        | inl bad ↦
            let call = ap (λ c. (c, st3)) (==→≡ (api.unmap_view_of_file pg st2).0 0 bad) in
            lower_failed r st2 e done call (laws.unmap_fail pg st2 st3 call ∙ v2)
        | inr good ↦
            let here = ap (λ s. s pg) v2 ∙ put_view_self pg (some (half map len)) old in
            unmapped (
              laws.unmap_ok pg (half map len) st2 _ _ here refl good
              ∙ ap (put_view pg none) v2
              ∙ put_view-back pg (some (half map len)) old free)
      ]

  unmap_ring-views :
      (map len pg : ℕ) (old : Views) (st1 : St)
      → 0 < len
      → Ringed map len old (proc.views st1) pg
      → ViewsAfter map len old pg st1 (unmap_ring api pg len st1).1
  unfolding unmap_ring
  unmap_ring-views map len pg old st1 pos ring =
      let low = half map len in
      let next : add_word pg len ≡ pg + len = omega (arith, ring.fits, pos) in
      let apart : pg + len ≢ pg = λ e. omega (arith, e, pos) in
      let one = put_view pg (some low) old in
      let free : one (pg + len) ≡ none =
        put_view-ne pg (some low) old (pg + len) apart ∙ ring.high.none_at in
      let there = ap (λ s. s (pg + len)) ring.shows ∙ put_view_self (pg + len) (some low) one in
      rw next (
        nonzero_post api (λ r. ViewsAfter map len old pg st1 r.1) Operation.ring_deallocate
          (api.unmap_view_of_file (pg + len)) (λ _ st. (ok tt, (api.unmap_view_of_file pg st).1))
          st1
          (λ r st2 e done.
            let v2 : proc.views st2 ≡ one =
              laws.unmap_ok (pg + len) low st1 r st2 there e done
              ∙ ap (put_view (pg + len) none) ring.shows
              ∙ put_view-back (pg + len) (some low) one free in
            lower_view map len pg old st1 st2 r e done v2 ring.low.none_at)
          (λ st2 e. upper_failed e (laws.unmap_fail (pg + len) st1 st2 e)))

  -- How `map_ring` ends, whichever handle its mapping had.
  abbrev Ends : ℕ → St → Result ℕ (Error S) × St → Type 0
  Ends len st r = (map : ℕ) × Ended api proc map len st r

  map_ring-Ends : (len : ℕ) (st : St) → 0 < len → 2 * len < word → Ends len st (map_ring api len st)
  unfolding map_ring
  map_ring-Ends len st pos h =
      let both : add_word len len ≡ 2 * len = omega arith in
      let high = high_dword (2 * len) in
      let low = low_dword (2 * len) in
      rw both (
        new_post api (Ends len st) Operation.ring_allocate none PageProt.page_readwrite (2 * len)
          (λ map st. drop api map (attempts api map len (2 * len) 5 st)) st
          (λ h st1 e nz.
            let (v, r, opened) =
              laws.create_ok none PageProt.page_readwrite high low st h st1 e nz in
            let map : MapHandle = record { map = h } in
            (
              h,
              drop-Ended map len st st1 (attempts api map len (2 * len) 5 st1) v r opened
                  (attempts-Ended api laws map len 5 (proc.handles st) st1 opened pos),
            ))
          (λ st1 e. (
            0,
            Same-Kept api proc 0 len
                (laws.create_fail none PageProt.page_readwrite high low st st1 e),
          )))

  -- Reserved pages and open handles are as before the ring was mapped. Its two views were put among
  -- the views `old`, which are those from before and the halves that failed attempts had to leave.
  pub record Unmapped (st : St) (pg len : ℕ) (made st' : St) : Type 0 where
    pub reserved : proc.reserved st' ≡ proc.reserved st
    pub handles : proc.handles st' ≡ proc.handles st
    pub map : ℕ
    pub old : Views
    pub left : Left api proc map len (proc.views st) old
    pub ring : Ringed map len old (proc.views made) pg
    pub after : ViewsAfter map len old pg made st'

  pub unmap_ring-Unmapped :
      (len : ℕ) (st : St) {pg : ℕ} {st1 : St}
      → 0 < len
      → 2 * len < word
      → map_ring api len st ≡ (ok pg, st1)
      → Unmapped st pg len st1 (unmap_ring api pg len st1).1
  unmap_ring-Unmapped len st {pg} {st1} pos h e =
      let (map, (r, hs, (old, left, ring))) = subst (Ends len st) e (map_ring-Ends len st pos h) in
      let (r2, h2) = unmap_ring-keeps pg len st1 in
      record {
        reserved = r2 ∙ r;
        handles = h2 ∙ hs;
        map = map;
        old = old;
        left = left;
        ring = ring;
        after = unmap_ring-views map len pg old st1 pos ring;
      }

  -- How `map_ring` ends, and `unmap_ring` after it.
  abbrev pub Balanced : ℕ → St → Result ℕ (Error S) × St → Type 0
  Balanced len st (ok pg, st') =
      (proc.reserved st' ≡ proc.reserved st)
      × (proc.handles st' ≡ proc.handles st)
      × Unmapped st pg len st' (unmap_ring api pg len st').1
  Balanced len st (err e, st') = (map : ℕ) × Kept api proc map len st st'

  balanced :
      (len : ℕ) (st : St) (r : Result ℕ (Error S)) (st' : St)
      → 0 < len
      → 2 * len < word
      → map_ring api len st ≡ (r, st')
      → Ends len st (r, st')
      → Balanced len st (r, st')
  balanced len st (ok pg) st' pos h made (map, (r, hs, _)) =
      (r, hs, unmap_ring-Unmapped len st pos h made)
  balanced len st (err e) st' pos h made ends = ends

  -- Reserved pages and open handles are as they were, however `map_ring` ends. On success there are
  -- two views of the same bytes side by side where there was none, and `unmap_ring` takes both away:
  -- where its first call fails both stay, where its second does the lower stays. Apart from these the
  -- views are as they were, on success as on failure, whichever of the six attempts failed and how,
  -- except for first views whose `UnmapViewOfFile` failed in an attempt and that stay. The length is
  -- positive and its double is below `2 ^ 64`, and the system keeps to `WinapiLaws`.
  pub windows_ring-Balanced :
      (len : ℕ) (st : St) → 0 < len → 2 * len < word → Balanced len st (map_ring api len st)
  windows_ring-Balanced len st pos h =
      balanced len st (map_ring api len st).0 (map_ring api len st).1 pos h refl
        (map_ring-Ends len st pos h)
