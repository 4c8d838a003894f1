-- ===== src/Os/Windows/World.antt =====
-- A process for the tests of src/os/windows.rs, whose views are made at or past the end of those
-- before; views and pages are given up to a million.
use mathlib.Core.Path.{fun_ext}
use vmap_rs.Prelude.{
  ℕ, ◌+◌, ◌*◌, ◌/◌, ◌^◌, ◌<◌, ◌≤◌, ◌≡◌, refl, sym, ap, ◌∙◌, inl, inr, max, List, [], ◌∷◌, Option,
  none, some, Bool, true, false, leb, leb→le, le→leb, ◌==◌, ==→≡, if◌then◌else◌, Bool-cases, arith,
}
use vmap_rs.Word.{word}
use vmap_rs.Std.{ok}
use vmap_rs.Types.{Protect}
use vmap_rs.Os.Windows.{Winapi, map_file, new, non_null, drop, view, view_ptr, file_access}
use vmap_rs.Os.Windows.Views.{View, Views, put_view, Vacant, Same, Process, WinapiLaws}

pub record World : Type 0 where
  pub table : Views
  pub top : ℕ
  pub reserved : List ℕ
  pub handles : List (ℕ × Option ℕ)

-- A view that does not end by `top` is none; an empty one takes up an address.
unfoldable pub clip : ℕ → ℕ → Option View → Option View
clip top a none = none
clip top a (some v) = if leb (a + max v.size 1) top then some v else none

abbrev pub views : World → Views
views w a = clip w.top a (w.table a)

abbrev pub proc : Process World
proc = record { views = views; reserved = λ w. w.reserved; handles = λ w. w.handles }

abbrev pub rest : {A : Type 0} → List A → List A
rest [] = []
rest (x ∷ xs) = xs

-- The file of the mapping that was opened last.
abbrev pub last_file : List (ℕ × Option ℕ) → Option ℕ
last_file [] = none
last_file ((h, file) ∷ others) = file

-- The address that is asked for, or the next multiple of 65536.
abbrev pub place : ℕ → World → ℕ
place at w = if at == 0 then (w.top / 65536 + 1) * 65536 else at

abbrev pub has_room : ℕ → ℕ → World → Bool
has_room p n w = if leb w.top p then leb (p + n) 1000000 else false

abbrev pub put_in : ℕ → View → World → World
put_in p v w = record w { table = put_view p (some v) (views w); top = p + v.size }

abbrev pub view_if : Bool → ℕ → View → World → ℕ × World
view_if true p v w = (p, put_in p v w)
view_if false p v w = (0, w)

abbrev pub map_view : ℕ → View → World → ℕ × World
map_view at v w = view_if (has_room (place at w) v.size w) (place at w) v w

abbrev pub reserve_if : Bool → World → ℕ × World
reserve_if true w = (w.top + 1, record w { reserved = (w.top + 1) ∷ w.reserved })
reserve_if false w = (0, w)

abbrev pub api : Winapi World ℕ
api = record {
  create_file_mapping = λ file prot high low w. (7, record w { handles = (7, file) ∷ w.handles });
  map_view_of_file = λ map access high low len at w.
      map_view at
        (record { map = map; file = last_file w.handles; off = high * 2 ^ 32 + low; size = len }) w;
  unmap_view_of_file = λ p w. (1, record w { table = put_view p none (views w) });
  close_handle = λ h w. (1, record w { handles = rest w.handles });
  get_system_info = (4096, 65536);
  virtual_alloc = λ at len type prot w. reserve_if (leb (w.top + 1 + len) 1000000) w;
  virtual_free = λ p size type w. (1, record w { reserved = rest w.reserved });
  virtual_protect = λ p len prot w. (1, w);
  flush_view_of_file = λ p len w. (1, w);
  flush_file_buffers = λ file w. (1, w);
  virtual_lock = λ p len w. (1, w);
  virtual_unlock = λ p len w. (1, w);
  last_error = λ w. 8;
}

clip-clip :
    (top top' a : ℕ) (o : Option View) → top ≤ top' → clip top' a (clip top a o) ≡ clip top a o
unfolding clip
clip-clip top top' a none h = refl
clip-clip top top' a (some v) h = elim (Bool-cases (leb (a + max v.size 1) top)) [
  | inl e ↦
      let fits = leb→le (a + max v.size 1) top e in
      rw (e, le→leb (a + max v.size 1) top' (omega (arith, fits, h))) refl
  | inr e ↦ rw e refl
]

size_of : Option View → ℕ
size_of none = 0
size_of (some v) = v.size

clip-ends : (top a : ℕ) (o : Option View) (v : View) → clip top a o ≡ some v → a + v.size ≤ top
unfolding clip size_of
clip-ends top a none v e = cc
clip-ends top a (some w) v e = elim (Bool-cases (leb (a + max w.size 1) top)) [
  | inl h ↦
      let shown = sym (ap (λ b. if b then some w else none) h) ∙ e in
      omega (arith, leb→le (a + max w.size 1) top h, ap size_of shown)
  | inr h ↦ let bad : none ≡ some v = sym (ap (λ b. if b then some w else none) h) ∙ e in cc
]

clip-past : (top a : ℕ) (o : Option View) → top ≤ a → clip top a o ≡ none
unfolding clip
clip-past top a none h = refl
clip-past top a (some v) h =
    let past : leb (a + max v.size 1) top ≡ false = ground arith in rw past refl

-- What a table that extends the shown views shows.
settled :
    (w : World) (p : ℕ) (v : View)
    → 0 < v.size
    → w.top ≤ p
    → views (put_in p v w) ≡ put_view p (some v) (views w)
unfolding put_view clip
settled w p v pos h = fun_ext (λ a. elim (Bool-cases (a == p)) [
  | inl e ↦
      let ends : leb (a + max v.size 1) (p + v.size) ≡ true =
        le→leb (a + max v.size 1) (p + v.size) (omega (arith, ==→≡ a p e, pos)) in
      rw (e, ends) refl
  | inr e ↦ rw e (clip-clip w.top (p + v.size) a (w.table a) (omega (arith, h)))
])

cleared :
    (w : World) (p : ℕ)
    → views (record w { table = put_view p none (views w) }) ≡ put_view p none (views w)
unfolding put_view clip
cleared w p = fun_ext (λ a. elim (Bool-cases (a == p)) [
  | inl e ↦ rw e refl
  | inr e ↦ rw e (clip-clip w.top w.top a (w.table a) (omega arith))
])

vacant : (w : World) (p n : ℕ) → w.top ≤ p → Vacant (views w) p n
vacant w p n h = record {
  none_at = clip-past w.top p (w.table p) h;
  apart = λ b v e. inr (omega (arith, clip-ends w.top b (w.table b) v e, h));
}

record Made (at : ℕ) (v : View) (w : World) (p : ℕ) (w' : World) : Type 0 where
  shows : views w' ≡ put_view p (some v) (views w)
  kept : (w'.reserved ≡ w.reserved) × (w'.handles ≡ w.handles)
  free : w.top ≤ p

room_is : (p n : ℕ) (w : World) → has_room p n w ≡ true → (w.top ≤ p) × (p + n ≤ 1000000)
room_is p n w h = elim (Bool-cases (leb w.top p)) [
  | inl e ↦
      let rest = sym (ap (λ b. if b then leb (p + n) 1000000 else false) e) ∙ h in
      (leb→le w.top p e, leb→le (p + n) 1000000 rest)
  | inr e ↦
      let bad : false ≡ true = sym (ap (λ b. if b then leb (p + n) 1000000 else false) e) ∙ h in cc
]

made :
    (b : Bool) (at : ℕ) (v : View) (w : World) (p : ℕ) (w' : World)
    → has_room (place at w) v.size w ≡ b
    → view_if b (place at w) v w ≡ (p, w')
    → (p == 0) ≡ false
    → 0 < v.size
    → Made at v w p w'
made false at v w p w' h e nz pos = absurd (ground (arith, ap (λ q. q.0) e, nz))
made true at v w p w' h e nz pos =
    let same : place at w ≡ p = ap (λ q. q.0) e in
    let past = (room_is (place at w) v.size w h).0 in
    record {
      shows =
          sym (ap (λ q. views q.1) e)
          ∙ settled w (place at w) v pos past
          ∙ ap (λ x. put_view x (some v) (views w)) same;
      kept = (sym (ap (λ q. q.1.reserved) e), sym (ap (λ q. q.1.handles) e));
      free = omega (arith, past, same);
    }

made_there :
    (b : Bool) (q : ℕ) (v : View) (w : World) (p : ℕ) (w' : World)
    → view_if b q v w ≡ (p, w')
    → (p == 0) ≡ false
    → p ≡ q
made_there true q v w p w' e nz = sym (ap (λ r. r.0) e)
made_there false q v w p w' e nz = absurd (ground (arith, ap (λ r. r.0) e, nz))

-- Where a view is placed, which may be empty.
pub put_there :
    (b : Bool) (at : ℕ) (v : View) (w : World) (p : ℕ) (w' : World)
    → has_room (place at w) v.size w ≡ b
    → view_if b (place at w) v w ≡ (p, w')
    → (p == 0) ≡ false
    → (place at w ≡ p) × (p + v.size ≤ 1000000)
put_there false at v w p w' h e nz = absurd (ground (arith, ap (λ q. q.0) e, nz))
put_there true at v w p w' h e nz =
    let same : place at w ≡ p = ap (λ q. q.0) e in
    let fits = (room_is (place at w) v.size w h).1 in (same, omega (arith, same, fits))

place-not_null : (at : ℕ) (w : World) → (place at w == 0) ≡ false
place-not_null at w = elim (Bool-cases (at == 0)) [
  | inl h ↦ let past : ((w.top / 65536 + 1) * 65536 == 0) ≡ false = ground arith in rw h past
  | inr h ↦ rw h h
]

not_made :
    (b : Bool) (at : ℕ) (v : View) (w w' : World) → view_if b (place at w) v w ≡ (0, w') → w ≡ w'
not_made false at v w w' e = ap (λ q. q.1) e
not_made true at v w w' e = absurd (ground (arith, ap (λ q. q.0) e, place-not_null at w))

Same-world : {w w' : World} → w ≡ w' → Same proc w w'
Same-world e = record {
  views = sym (ap views e);
  reserved = sym (ap (λ w. w.reserved) e);
  handles = sym (ap (λ w. w.handles) e);
}

reserved_ok :
    (b : Bool) (len : ℕ) (w : World) (p : ℕ) (w' : World)
    → leb (w.top + 1 + len) 1000000 ≡ b
    → reserve_if b w ≡ (p, w')
    → (p == 0) ≡ false
    → (views w' ≡ views w)
      × (w'.reserved ≡ p ∷ w.reserved)
      × (w'.handles ≡ w.handles)
      × (p + len ≤ word)
reserved_ok false len w p w' h e nz = absurd (ground (arith, ap (λ q. q.0) e, nz))
reserved_ok true len w p w' h e nz =
    let same : w.top + 1 ≡ p = ap (λ q. q.0) e in
    let fits = leb→le (w.top + 1 + len) 1000000 h in
    (
      sym (ap (λ q. views q.1) e),
      sym (ap (λ q. q.1.reserved) e) ∙ ap (λ x. x ∷ w.reserved) same,
      sym (ap (λ q. q.1.handles) e),
      omega (arith, same, fits),
    )

not_reserved : (b : Bool) (w w' : World) → reserve_if b w ≡ (0, w') → w ≡ w'
not_reserved false w w' e = ap (λ q. q.1) e
not_reserved true w w' e = absurd (omega (arith, ap (λ q. q.0) e))

pub api-WinapiLaws : WinapiLaws api proc
api-WinapiLaws = record {
  create_ok = λ file prot high low w h w' e nz. (
    sym (ap (λ q. views q.1) e),
    sym (ap (λ q. q.1.reserved) e),
    sym (ap (λ q. q.1.handles) e) ∙ ap (λ x. (x, file) ∷ w.handles) (ap (λ q. q.0) e),
  );
  create_fail = λ file prot high low w w' e. absurd (omega (arith, ap (λ q. q.0) e));
  view_ok = λ map file access high low len at w others p w' opened e nz pos.
      let v : View = record {
        map = map;
        file = last_file w.handles;
        off = high * 2 ^ 32 + low;
        size = len;
      } in
      let m = made (has_room (place at w) len w) at v w p w' refl e nz pos in
      let with_file = λ (f : Option ℕ).
        put_view p (some (record { map = map; file = f; off = high * 2 ^ 32 + low; size = len }))
          (views w) in
      (m.shows ∙ ap with_file (ap last_file opened), m.kept.0, m.kept.1, vacant w p len m.free);
  view_at = λ map access high low len at w p w' e nz some_at.
      let v : View = record {
        map = map;
        file = last_file w.handles;
        off = high * 2 ^ 32 + low;
        size = len;
      } in
      let asked : place at w ≡ at = rw some_at refl in
      made_there (has_room (place at w) len w) (place at w) v w p w' e nz ∙ asked;
  view_fail = λ map access high low len at w w' e. Same-world (
      not_made (has_room (place at w) len w) at
        (record { map = map; file = last_file w.handles; off = high * 2 ^ 32 + low; size = len }) w
        w' e);
  unmap_ok = λ p v w r w' there e nz. sym (ap (λ q. views q.1) e) ∙ cleared w p;
  unmap_fail = λ p w w' e. absurd (omega (arith, ap (λ q. q.0) e));
  unmap_keeps = λ p w. (refl, refl);
  reserve_ok =
      λ len prot w p w' e nz. reserved_ok (leb (w.top + 1 + len) 1000000) len w p w' refl e nz;
  reserve_fail =
      λ len prot w w' e. Same-world (not_reserved (leb (w.top + 1 + len) 1000000) w w' e);
  release_last = λ p w others e. (refl, ap rest e, refl);
  close_last = λ h file w others e. (refl, refl, ap rest e);
}

-- A process that has mapped nothing.
abbrev pub fresh : World
fresh = record { table = λ _. none; top = 65535; reserved = []; handles = [] }

pub map_file-fresh :
    map_file api 3 65536 34464 Protect.read_only fresh
    ≡ (ok 65536, (map_file api 3 65536 34464 Protect.read_only fresh).1)
unfolding map_file new non_null drop view view_ptr file_access
map_file-fresh = refl
