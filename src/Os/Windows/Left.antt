-- ===== src/Os/Windows/Left.antt =====
-- What an attempt of `map_ring` in src/os/windows.rs leaves of the views: two side by side, or none but
-- those that could not be taken away.
use vmap_rs.Prelude.{ℕ, ◌+◌, ◌*◌, ◌≤◌, ◌≡◌, ◌≢◌, sym, ◌∙◌, subst, none, some, false, ◌==◌}
use vmap_rs.Word.{word}
use vmap_rs.Std.{Result, ok, err}
use vmap_rs.Error.{Error}
use vmap_rs.Os.Windows.{Winapi, access_read_write}
use vmap_rs.Os.Windows.Views.{View, Views, put_view, Vacant, Process, Same, put_view-ne}

-- A view of the first `len` bytes of a mapping of memory.
abbrev pub half : ℕ → ℕ → View
half map len = record { map = map; file = none; off = 0; size = len }

-- Two views of the same `len` bytes of a mapping, side by side at `pg`, where there was none.
pub record Ringed (map len : ℕ) (old new : Views) (pg : ℕ) : Type 0 where
  pub shows :
      new ≡ put_view (pg + len) (some (half map len)) (put_view pg (some (half map len)) old)
  pub low : Vacant old pg len
  pub high : Vacant old (pg + len) len
  pub not_null : (pg == 0) ≡ false
  pub fits : pg + 2 * len ≤ word

-- What is vacant beside a view was vacant before it.
pub Vacant-before :
    {s : Views} {p q n : ℕ} (v : View)
    → s p ≡ none
    → q ≢ p
    → Vacant (put_view p (some v) s) q n
    → Vacant s q n
Vacant-before {s} {p} {q} v free ne vac = record {
  none_at = sym (put_view-ne p (some v) s q ne) ∙ vac.none_at;
  apart = λ b w e.
      let other : b ≢ p = λ same. cc in vac.apart b w (put_view-ne p (some v) s b other ∙ e);
}

module _ {St S : Type 0} (api : Winapi St S) (proc : Process St) where
  -- The views are those of `old`, and halves that attempts of `map_ring` had to leave: the first view
  -- was made at `at`, the second could not be made, and the `UnmapViewOfFile` of the first failed.
  pub data Left (map len : ℕ) (old : Views) : Views → Type 0 where
    none_left : Left map len old old
    one_left :
        (at : ℕ) (start made before after : St)
        → Left map len old (proc.views start)
        → proc.views start at ≡ none
        → api.map_view_of_file map access_read_write 0 0 len at start ≡ (at, made)
        → api.map_view_of_file map access_read_write 0 0 len (at + len) made ≡ (0, before)
        → proc.views before ≡ put_view at (some (half map len)) (proc.views start)
        → api.unmap_view_of_file at before ≡ (0, after)
        → Left map len old (put_view at (some (half map len)) (proc.views start))

  pub Left-trans :
      {map len : ℕ} {old mid new : Views}
      → Left map len old mid
      → Left map len mid new
      → Left map len old new
  Left-trans l none_left = l
  Left-trans l (one_left at start made before after m free first second shows call) =
      one_left at start made before after (Left-trans l m) free first second shows call

  pub record Kept (map len : ℕ) (st st' : St) : Type 0 where
    pub reserved : proc.reserved st' ≡ proc.reserved st
    pub handles : proc.handles st' ≡ proc.handles st
    pub left : Left map len (proc.views st) (proc.views st')

  -- How a call that may make a ring ends.
  abbrev pub Ended : ℕ → ℕ → St → Result ℕ (Error S) × St → Type 0
  Ended map len st (ok pg, st') =
      (proc.reserved st' ≡ proc.reserved st)
      × (proc.handles st' ≡ proc.handles st)
      × ((views : Views) × Left map len (proc.views st) views
          × Ringed map len views (proc.views st') pg)
  Ended map len st (err e, st') = Kept map len st st'

  pub Same-Kept : (map len : ℕ) {st st' : St} → Same proc st st' → Kept map len st st'
  Same-Kept map len {st} s = record {
    reserved = s.reserved;
    handles = s.handles;
    left = subst (Left map len (proc.views st)) (sym s.views) none_left;
  }

  -- What holds after a call that keeps all holds before it.
  pub after_Kept :
      (map len : ℕ) {st st1 : St} (r : Result ℕ (Error S) × St)
      → Kept map len st st1
      → Ended map len st1 r
      → Ended map len st r
  after_Kept map len (ok pg, st') k (r, h, (views, left, ring)) =
      (r ∙ k.reserved, h ∙ k.handles, (views, Left-trans k.left left, ring))
  after_Kept map len (err e, st') k ended = record {
    reserved = ended.reserved ∙ k.reserved;
    handles = ended.handles ∙ k.handles;
    left = Left-trans k.left ended.left;
  }
