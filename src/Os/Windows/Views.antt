-- ===== src/Os/Windows/Views.antt =====
-- What the Windows API documents of the calls that `map_ring` of src/os/windows.rs makes: how they
-- move the views of the process, its reserved pages, and its open handles.
use mathlib.Core.Path.{fun_ext}
use vmap_rs.Prelude.{
  ℕ, ◌+◌, ◌*◌, ◌^◌, ◌<◌, ◌≤◌, ◌≡◌, ◌≢◌, refl, sym, ap, ◌∙◌, ◌⊎◌, inl, inr, ◌==◌, ==→≡, Bool-cases,
  if◌then◌else◌, List, ◌∷◌, Option, none, some, false, arith,
}
use vmap_rs.Word.{word}
use vmap_rs.Os.Windows.{Winapi, Access, PageProt, MemType}

-- What a view shows: the bytes from an offset on of the mapping that had the handle `map`, which is
-- that of a file, or of memory.
pub record View : Type 0 where
  pub map : ℕ
  pub file : Option ℕ
  pub off : ℕ
  pub size : ℕ

-- The views, by the address that each begins at.
abbrev pub Views : Type 0
Views = ℕ → Option View

unfoldable pub put_view : ℕ → Option View → Views → Views
put_view p v s a = if a == p then v else s a

-- No view begins at `p`, and none meets the `n` addresses from `p` on.
pub record Vacant (s : Views) (p n : ℕ) : Type 0 where
  pub none_at : s p ≡ none
  pub apart : (b : ℕ) (v : View) → s b ≡ some v → (p + n ≤ b) ⊎ (b + v.size ≤ p)

-- What of the process the calls move. The open handles are those of mappings, the last opened first,
-- each with the file that it is a mapping of.
pub record Process (St : Type 0) : Type 0 where
  pub views : St → Views
  pub reserved : St → List ℕ
  pub handles : St → List (ℕ × Option ℕ)

-- The calls that leave all of it as it is.
pub record Same {St : Type 0} (proc : Process St) (st st' : St) : Type 0 where
  pub views : proc.views st' ≡ proc.views st
  pub reserved : proc.reserved st' ≡ proc.reserved st
  pub handles : proc.handles st' ≡ proc.handles st

pub record WinapiLaws {St S : Type 0} (api : Winapi St S) (proc : Process St) : Type 0 where
  pub create_ok :
      (file : Option ℕ) (prot : PageProt) (high low : ℕ) (st : St) (h : ℕ) (st' : St)
      → api.create_file_mapping file prot high low st ≡ (h, st')
      → (h == 0) ≡ false
      → (proc.views st' ≡ proc.views st)
        × (proc.reserved st' ≡ proc.reserved st)
        × (proc.handles st' ≡ (h, file) ∷ proc.handles st)
  pub create_fail :
      (file : Option ℕ) (prot : PageProt) (high low : ℕ) (st st' : St)
      → api.create_file_mapping file prot high low st ≡ (0, st')
      → Same proc st st'
  pub view_ok :
      (map : ℕ) (file : Option ℕ) (access : Access) (high low len at : ℕ) (st : St)
      (others : List (ℕ × Option ℕ)) (p : ℕ) (st' : St)
      → proc.handles st ≡ (map, file) ∷ others
      → api.map_view_of_file map access high low len at st ≡ (p, st')
      → (p == 0) ≡ false
      → 0 < len
      → (proc.views st'
          ≡ put_view p
              (some (record { map = map; file = file; off = high * 2 ^ 32 + low; size = len }))
              (proc.views st))
        × (proc.reserved st' ≡ proc.reserved st)
        × (proc.handles st' ≡ proc.handles st)
        × Vacant (proc.views st) p len
  pub view_at :
      (map : ℕ) (access : Access) (high low len at : ℕ) (st : St) (p : ℕ) (st' : St)
      → api.map_view_of_file map access high low len at st ≡ (p, st')
      → (p == 0) ≡ false
      → (at == 0) ≡ false
      → p ≡ at
  pub view_fail :
      (map : ℕ) (access : Access) (high low len at : ℕ) (st st' : St)
      → api.map_view_of_file map access high low len at st ≡ (0, st')
      → Same proc st st'
  pub unmap_ok :
      (p : ℕ) (v : View) (st : St) (r : ℕ) (st' : St)
      → proc.views st p ≡ some v
      → api.unmap_view_of_file p st ≡ (r, st')
      → (r == 0) ≡ false
      → proc.views st' ≡ put_view p none (proc.views st)
  pub unmap_fail :
      (p : ℕ) (st st' : St)
      → api.unmap_view_of_file p st ≡ (0, st')
      → proc.views st' ≡ proc.views st
  pub unmap_keeps :
      (p : ℕ) (st : St)
      → (proc.reserved (api.unmap_view_of_file p st).1 ≡ proc.reserved st)
        × (proc.handles (api.unmap_view_of_file p st).1 ≡ proc.handles st)
  pub reserve_ok :
      (len : ℕ) (prot : PageProt) (st : St) (p : ℕ) (st' : St)
      → api.virtual_alloc 0 len MemType.mem_reserve prot st ≡ (p, st')
      → (p == 0) ≡ false
      → (proc.views st' ≡ proc.views st)
        × (proc.reserved st' ≡ p ∷ proc.reserved st)
        × (proc.handles st' ≡ proc.handles st)
        × (p + len ≤ word)
  pub reserve_fail :
      (len : ℕ) (prot : PageProt) (st st' : St)
      → api.virtual_alloc 0 len MemType.mem_reserve prot st ≡ (0, st')
      → Same proc st st'
  pub release_last :
      (p : ℕ) (st : St) (others : List ℕ)
      → proc.reserved st ≡ p ∷ others
      → (proc.views (api.virtual_free p 0 MemType.mem_release st).1 ≡ proc.views st)
        × (proc.reserved (api.virtual_free p 0 MemType.mem_release st).1 ≡ others)
        × (proc.handles (api.virtual_free p 0 MemType.mem_release st).1 ≡ proc.handles st)
  pub close_last :
      (h : ℕ) (file : Option ℕ) (st : St) (others : List (ℕ × Option ℕ))
      → proc.handles st ≡ (h, file) ∷ others
      → (proc.views (api.close_handle h st).1 ≡ proc.views st)
        × (proc.reserved (api.close_handle h st).1 ≡ proc.reserved st)
        × (proc.handles (api.close_handle h st).1 ≡ others)

pub put_view_self : (p : ℕ) (v : Option View) (s : Views) → put_view p v s p ≡ v
unfolding put_view
put_view_self p v s = ground arith

pub put_view-ne : (p : ℕ) (v : Option View) (s : Views) (a : ℕ) → a ≢ p → put_view p v s a ≡ s a
unfolding put_view
put_view-ne p v s a h = ground arith

-- A view that is put where there was none and taken away again.
pub put_view-back :
    (p : ℕ) (v : Option View) (s : Views) → s p ≡ none → put_view p none (put_view p v s) ≡ s
unfolding put_view
put_view-back p v s h = fun_ext (λ a. elim (Bool-cases (a == p)) [
  | inl e ↦ rw e (sym h ∙ ap s (sym (==→≡ a p e)))
  | inr e ↦ rw e refl
])

pub put_view-swap :
    (p q : ℕ) (v w : Option View) (s : Views)
    → p ≢ q
    → put_view p v (put_view q w s) ≡ put_view q w (put_view p v s)
unfolding put_view
put_view-swap p q v w s h = fun_ext (λ a. elim (Bool-cases (a == p)) [
  | inl e ↦ elim (Bool-cases (a == q)) [
    | inl f ↦ absurd (h (sym (==→≡ a p e) ∙ ==→≡ a q f))
    | inr f ↦ rw (e, f) refl
  ]
  | inr e ↦ rw e refl
])
