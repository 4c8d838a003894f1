-- ===== src/Os/Space.antt =====
-- The address space of a process, as the systems under src/os move it.
use native.Mathlib.Nat.{add-mul, div-add-mod'}
use vmap_rs.Prelude.{
  subst, ◌/◌, ◌%◌, refl, sym, ap, ◌∙◌, inl, inr, arith, le→leb, lt→ltb, lt→leb, le→ltb, ltb→lt,
  ltb-false→le, ℕ, ◌+◌, ◌-◌, ◌*◌, ◌<◌, ◌≤◌, ◌≡◌, Option, none, some, List, [], ◌∷◌, zero, suc, ltb,
  leb, ◌&&◌, if◌then◌else◌, Bool-cases,
}
use vmap_rs.Word.{word}

-- What an address shows: nothing, a byte of its own, or a byte of the file that the descriptor named.
pub data Cell : Type 0 where
  unmapped own : Cell
  backed : ℕ → ℕ → Cell

abbrev pub Space : Type 0
Space = ℕ → Cell

-- A number of whole pages.
pub record Paged (page n : ℕ) : Type 0 where
  pub count : ℕ
  pub pages : n ≡ count * page

pub Paged-add : {page m n : ℕ} → Paged page m → Paged page n → Paged page (m + n)
Paged-add {page} p q = record {
  count = p.count + q.count;
  pages = rw (p.pages, q.pages) (sym (add-mul p.count q.count page));
}

pub paged_both : {page len : ℕ} → Paged page len → Paged page (2 * len)
paged_both {page} {len} p =
    let e : len + len ≡ 2 * len = omega arith in subst (Paged page) e (Paged-add p p)

pub whole_pages : (page n : ℕ) → n % page ≡ 0 → Paged page n
whole_pages page n e = record { count = n / page; pages = omega (arith, div-add-mod' n page, e) }

-- `f` on the `n` addresses from `p` on.
unfoldable pub put : ℕ → ℕ → (ℕ → Cell) → Space → Space
put p n f s a = if leb p a && ltb a (p + n) then f (a - p) else s a

abbrev pub shown : Option ℕ → ℕ → ℕ → Cell
shown none off i = own
shown (some fd) off i = backed fd (off + i)

pub put-in : (p n : ℕ) (f : ℕ → Cell) (s : Space) (i : ℕ) → i < n → put p n f s (p + i) ≡ f i
unfolding put
put-in p n f s i h =
    let back : p + i - p ≡ i = omega arith in
    rw (le→leb p (p + i) (omega arith), lt→ltb (p + i) (p + n) (omega arith), back) refl

pub put-below : (p n : ℕ) (f : ℕ → Cell) (s : Space) (a : ℕ) → a < p → put p n f s a ≡ s a
unfolding put
put-below p n f s a h = rw (lt→leb p a h) refl

pub put-above : (p n : ℕ) (f : ℕ → Cell) (s : Space) (a : ℕ) → p + n ≤ a → put p n f s a ≡ s a
unfolding put
put-above p n f s a h = rw (le→leb p a (omega arith), le→ltb a (p + n) h) refl

-- Both halves at `pg` show the same `len` bytes of one file; all of it was free before, and no other
-- address changed.
pub record Mirrored (len : ℕ) (old new : Space) (pg : ℕ) : Type 0 where
  pub file : ℕ
  pub low : (i : ℕ) → i < len → new (pg + i) ≡ shown (some file) 0 i
  pub high : (i : ℕ) → i < len → new (pg + len + i) ≡ shown (some file) 0 i
  pub free : (a : ℕ) → pg ≤ a → a < pg + 2 * len → old a ≡ unmapped
  pub below : (a : ℕ) → a < pg → new a ≡ old a
  pub above : (a : ℕ) → pg + 2 * len ≤ a → new a ≡ old a
  pub fits : pg + 2 * len ≤ word

-- They agree outside of `n` addresses from `p` on.
abbrev pub Outside : ℕ → ℕ → Space → Space → Type 0
Outside p n s t = ((a : ℕ) → a < p → t a ≡ s a) × ((a : ℕ) → p + n ≤ a → t a ≡ s a)

-- A range that was free is free again, and nothing else has changed.
pub put_back :
    (p n : ℕ) (old s : Space)
    → ((a : ℕ) → p ≤ a → a < p + n → old a ≡ unmapped)
    → Outside p n old s
    → (a : ℕ) → put p n (λ _. unmapped) s a ≡ old a
put_back p n old s free o a =
    let gone = λ (_ : ℕ). unmapped in
    elim (Bool-cases (ltb a p)) [
      | inl h ↦ let low = ltb→lt a p h in put-below p n gone s a low ∙ o.0 a low
      | inr g ↦ elim (Bool-cases (ltb a (p + n))) [
        | inl h ↦
            let low = ltb-false→le a p g in
            let at : p + (a - p) ≡ a = omega (arith, low) in
            let inside : a < p + n = ltb→lt a (p + n) h in
            ap (put p n gone s) (sym at)
            ∙ put-in p n gone s (a - p) (omega (arith, at))
            ∙ sym (free a low inside)
        | inr h ↦ let high = ltb-false→le a (p + n) h in put-above p n gone s a high ∙ o.1 a high
      ]
    ]

-- `put` changes nothing else.
pub put-Outside : (p n : ℕ) (f : ℕ → Cell) (s : Space) → Outside p n s (put p n f s)
put-Outside p n f s = (put-below p n f s, put-above p n f s)

pub Outside-trans : (p n : ℕ) {s t u : Space} → Outside p n s t → Outside p n t u → Outside p n s u
Outside-trans p n o q = ((λ a h. q.0 a h ∙ o.0 a h), (λ a h. q.1 a h ∙ o.1 a h))

-- What changes only the lower or the upper half of a range.
pub put-Outside_half :
    (p n k : ℕ) (f : ℕ → Cell) (s : Space) → k ≤ n → Outside p (2 * n) s (put (p + k) n f s)
put-Outside_half p n k f s h = (
  (λ a low. put-below (p + k) n f s a (omega arith)),
  (λ a high. put-above (p + k) n f s a (omega arith)),
)

-- The same `len` bytes of a file put in both halves of a range that was free.
pub put-Mirrored :
    (pg len file : ℕ) (old s new : Space)
    → ((a : ℕ) → pg ≤ a → a < pg + 2 * len → old a ≡ unmapped)
    → pg + 2 * len ≤ word
    → Outside pg (2 * len) old s
    → new ≡ put (pg + len) len (shown (some file) 0) (put pg len (shown (some file) 0) s)
    → Mirrored len old new pg
put-Mirrored pg len file old s new free fits o e =
    let f = shown (some file) 0 in
    let s1 = put pg len f s in
    let shows = λ (a : ℕ). ap (λ x. x a) e in
    record {
      file = file;
      low = λ i h.
          shows (pg + i)
          ∙ put-below (pg + len) len f s1 (pg + i) (omega arith)
          ∙ put-in pg len f s i h;
      high = λ i h. shows (pg + len + i) ∙ put-in (pg + len) len f s1 i h;
      free = free;
      below = λ a h.
          shows a
          ∙ put-below (pg + len) len f s1 a (omega arith)
          ∙ put-below pg len f s a h
          ∙ o.0 a h;
      above = λ a h.
          shows a
          ∙ put-above (pg + len) len f s1 a (omega arith)
          ∙ put-above pg len f s a (omega arith)
          ∙ o.1 a h;
      fits = fits;
    }

-- The bytes that `n` addresses from `p` on show, if a cell shows what `content` says.
unfoldable pub bytes_at : (Cell → ℕ) → Space → ℕ → ℕ → List ℕ
bytes_at content s p zero = []
bytes_at content s p (suc n) = content (s p) ∷ bytes_at content s (p + 1) n
