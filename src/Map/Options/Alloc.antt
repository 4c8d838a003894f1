-- ===== src/Map/Options/Alloc.antt =====
-- How much fresh memory `alloc` of src/map.rs asks for.
use vmap_rs.Prelude.{ℕ, ◌+◌, ◌-◌, ◌%◌, ◌<◌, ◌≤◌, ◌≡◌, refl, arith}
use vmap_rs.Word.{word, add_word, sub_word}
use vmap_rs.Size
use vmap_rs.Size.{Size}
use vmap_rs.Size.Units.{IsUnit, unit_pos, offset-eq-mod, round_least, round-eq-sub}
use vmap_rs.Std.{Result, ok, err}
use vmap_rs.Error.{Error}
use vmap_rs.Types.{Extent}
use vmap_rs.Os.{Platform, Files, bind_post, pure}
use vmap_rs.Map.{FromPtr}
use vmap_rs.Map.Options.{Options, alloc_len, alloc}
use native.Mathlib.Nat.{mod-lt}

-- The bytes that `len` asks for; without an extent, one.
abbrev pub wanted : Extent → ℕ
wanted Extent.end = 1
wanted (Extent.exact l) = l
wanted (Extent.min l) = l
wanted (Extent.max l) = l

-- `n` bytes, behind `off` of a page, are the bytes asked for: where these may grow, they are rounded
-- up so that the call ends at an allocation unit.
abbrev pub Fits : Size → Extent → ℕ → ℕ → Type 0
Fits s Extent.end off n = (1 ≤ n) × ((off + n) % s.unit ≡ 0) × (n < 1 + s.unit)
Fits s (Extent.min l) off n = (l ≤ n) × ((off + n) % s.unit ≡ 0) × (n < l + s.unit)
Fits s (Extent.exact l) off n = n ≡ l
Fits s (Extent.max l) off n = n ≡ l

grown :
    {s : Size} (off l : ℕ)
    → IsUnit s
    → off + l + s.unit ≤ word
    → let n = sub_word (Size.round s (add_word off l)) off in
      (l ≤ n) × ((off + n) % s.unit ≡ 0) × (n < l + s.unit)
grown {s} off l u h =
    let sum : add_word off l ≡ off + l = omega (arith, unit_pos u) in
    let up = round_least (off + l) u h in
    let top = round-eq-sub (off + l) u h in
    let less : sub_word (Size.round s (off + l)) off ≡ Size.round s (off + l) - off =
      omega (arith, up.0, top, unit_pos u) in
    let back : off + (Size.round s (off + l) - off) ≡ Size.round s (off + l) =
      omega (arith, up.0) in
    rw (sum, less, back) (omega (arith, up.0), up.1, omega (arith, up.0, top, unit_pos u))

alloc_len-Fits :
    {s : Size} (e : Extent) (off : ℕ)
    → IsUnit s
    → off + wanted e + s.unit ≤ word
    → Fits s e off (alloc_len s e off)
unfolding alloc_len
alloc_len-Fits Extent.end off u h = grown off 1 u h
alloc_len-Fits (Extent.min l) off u h = grown off l u h
alloc_len-Fits (Extent.exact l) off u h = refl
alloc_len-Fits (Extent.max l) off u h = refl

Fits-lt : {s : Size} (e : Extent) (off n : ℕ) → IsUnit s → Fits s e off n → n < wanted e + s.unit
Fits-lt Extent.end off n u f = f.2
Fits-lt (Extent.min l) off n u f = f.2
Fits-lt (Extent.exact l) off n u f = omega (arith, unit_pos u)
Fits-lt (Extent.max l) off n u f = omega (arith, unit_pos u)

module _ {St S : Type 0} (os : Platform St S) (page alloc_size : Size) (T : Type 0)
    ⦃t : FromPtr T⦄ where
  -- A map whose bytes begin behind the offset's part of a page, in memory of one call.
  pub record Fresh (o : Options) (st : St) (m : T) (st' : St) : Type 0 where
    pub base : ℕ
    pub len : ℕ
    pub call : os.map_anon (o.offset % page.unit + len) o.protect st ≡ (ok base, st')
    pub made : m ≡ t.from_ptr (add_word base (o.offset % page.unit)) len
    pub fits : Fits alloc_size o.len (o.offset % page.unit) len

  abbrev pub Allocates : Options → St → Result T (Error S) × St → Type 0
  Allocates o st (ok m, st') = Fresh o st m st'
  Allocates o st (err e, st') = (n : ℕ) × (os.map_anon n o.protect st ≡ (err e, st'))

module _ {St S : Type 0} (os : Platform St S) (files : Files St) (page alloc_size : Size)
    (T : Type 0) ⦃t : FromPtr T⦄ where
  -- `alloc` makes one call of `os::map_anon` and fails only with it. The map begins at the offset's
  -- distance from a page boundary; it has exactly the bytes that an `Exact` or `Max` length asks
  -- for, and at least those of `Min` (one byte for `End`), rounded up to end at an allocation unit.
  -- Both units are powers of two, and a page, the bytes asked for and an allocation unit fit a
  -- word.
  pub alloc-Allocates :
      IsUnit page
      → IsUnit alloc_size
      → (o : Options) (st : St) → page.unit + wanted o.len + alloc_size.unit ≤ word
      → Allocates os page alloc_size T o st (alloc os files page alloc_size o st)
  unfolding alloc
  alloc-Allocates up ua o st room =
      let off = o.offset % page.unit in
      let low : off < page.unit = mod-lt o.offset (unit_pos up) in
      let n = alloc_len alloc_size o.len off in
      let fits = alloc_len-Fits o.len off ua (omega arith) in
      let sum : add_word off n ≡ off + n =
        omega (arith, Fits-lt {s = alloc_size} o.len off n ua fits) in
      rw (offset-eq-mod o.offset up, sum)
        (bind_post (Allocates os page alloc_size T o st) (os.map_anon (off + n) o.protect)
          (λ ptr. pure (t.from_ptr (add_word ptr off) n)) st
          (λ ptr st' called. record {
            base = ptr;
            len = n;
            call = called;
            made = refl;
            fits = fits;
          })
          (λ e st' failed. (off + n, failed)))
