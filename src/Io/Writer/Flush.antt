-- ===== src/Io/Writer/Flush.antt =====
-- `BufWriter::flush_buf` of src/io/buffer.rs: what every way of ending leaves of the buffered bytes.
use vmap_rs.Prelude.{
  ℕ, zero, suc, ◌+◌, ◌≡◌, refl, ap, ap₂, ◌∙◌, inl, inr, List, [], ◌++◌, append_assoc, take, drop,
  take-append-drop, drop-drop, append-nil, nil_of_length, true, false, Option, none, some,
  Bool-cases, arith,
}
use vmap_rs.Std.{ok, err, is_interrupted, IoResult, Outcome, returned, unwound, Write}
use vmap_rs.Io.Traits.{is_empty}
use vmap_rs.Io.Ring.{Ring, ring_read, read_len}
use vmap_rs.Io.Ring.Inv.{IsValid, consume-IsValid, wpos-consume, len-consume}
use vmap_rs.Io.Ring.Contents.{contents, length-contents, contents-consume, as_read_slice_all}
use vmap_rs.Io.Writer.{
  BufWriter, Round, break, unwind, again, match_written, written, round, flush_buf,
}
use vmap_rs.Io.Writer.Laws.{Accepts}

abbrev pub Ends {ℓ κ} : {A : Type ℓ} → (A → Type κ) → Option A → Type κ
Ends P none = Unit
Ends P (some a) = P a

pub Ends-map {ℓ κ ι} :
    {A : Type ℓ} {P : A → Type κ} {Q : A → Type ι}
    → ((a : A) → P a → Q a)
    → (o : Option A) → Ends P o
    → Ends Q o
Ends-map f none h = tt
Ends-map f (some a) h = f a h

pub Ends-elim {ℓ κ ι} :
    {A : Type ℓ} {B : Type ℓ} {P : A → Type κ} (Q : B → Type ι) (g : A → B)
    → ((a : A) → P a → Q (g a))
    → (o : Option A) → Ends P o
    → Ends Q (elim o [ none ↦ none | some a ↦ some (g a) ])
Ends-elim Q g f none h = tt
Ends-elim Q g f (some a) h = f a h

contents_empty : {r : Ring} → IsValid r → is_empty r ≡ true → contents r ≡ []
unfolding is_empty
contents_empty {r} v e =
    let none_left : read_len r ≡ 0 = ground arith in
    nil_of_length (contents r) (length-contents v ∙ none_left)

module _ {W : Type 0} (accepted : W → List ℕ) where
  -- All bytes that went through the buffered writer, in order: those that the inner writer took,
  -- then those that are held.
  abbrev pub stream : BufWriter W → List ℕ
  stream w = accepted w.inner ++ contents w.buf

  -- No byte is lost, doubled or moved between `w` and `w'`, and what is held is a tail of what was.
  pub record Kept (w w' : BufWriter W) : Type 0 where
    pub valid : IsValid w'.buf
    pub same : stream w' ≡ stream w
    pub gone : ℕ
    pub held : contents w'.buf ≡ drop gone (contents w.buf)
    pub counts : w'.buf.wpos ≡ w.buf.wpos
    pub caps : w'.buf.len ≡ w.buf.len

  -- What a flush of `w` leaves, by how it ends.
  abbrev pub Flushed : BufWriter W → Outcome (IoResult (Unit {0})) × BufWriter W → Type 0
  Flushed w (returned (ok _), w') = Kept w w' × (contents w'.buf ≡ [])
  Flushed w (returned (err e), w') = Kept w w'
  Flushed w (unwound, w') =
      IsValid w'.buf
      × (w'.panicked ≡ true)
      × ((n : ℕ) × (contents w'.buf ≡ drop n (contents w.buf)))

  -- The same for one round.
  abbrev pub AfterRound : BufWriter W → Round W → Type 0
  AfterRound w (break r w') = Flushed w (returned r, w')
  AfterRound w (unwind w') = Flushed w (unwound, w')
  AfterRound w (again w') = Kept w w'

  Kept-refl : (w : BufWriter W) → IsValid w.buf → Kept w w
  Kept-refl w v = record {
    valid = v;
    same = refl;
    gone = 0;
    held = refl;
    counts = refl;
    caps = refl;
  }

  Kept-trans : {u v w : BufWriter W} → Kept u v → Kept v w → Kept u w
  Kept-trans {u} a b = record {
    valid = b.valid;
    same = b.same ∙ a.same;
    gone = a.gone + b.gone;
    held = b.held ∙ ap (drop b.gone) a.held ∙ drop-drop b.gone a.gone (contents u.buf);
    counts = b.counts ∙ a.counts;
    caps = b.caps ∙ a.caps;
  }

  Kept-Flushed :
      {w w' : BufWriter W}
      → Kept w w'
      → (p : Outcome (IoResult (Unit {0})) × BufWriter W) → Flushed w' p
      → Flushed w p
  Kept-Flushed k (returned (ok _), w'') f = (Kept-trans k f.0, f.1)
  Kept-Flushed k (returned (err e), w'') f = Kept-trans k f
  Kept-Flushed {w} k (unwound, w'') (v, p, (n, e)) =
      (v, p, (k.gone + n, e ∙ ap (drop n) k.held ∙ drop-drop n k.gone (contents w.buf)))

module _ {W : Type 0} ⦃write_w : Write W⦄ (accepted : W → List ℕ)
    (laws : Accepts write_w accepted) where
  -- What a write of the whole contents leaves.
  written_keeps :
      (w : BufWriter W) (out : Outcome (IoResult ℕ)) (inner : W)
      → IsValid w.buf
      → write_w.write w.inner (contents w.buf) ≡ (out, inner)
      → AfterRound accepted w (written w (out, inner))
  unfolding written match_written
  written_keeps w (returned (ok zero)) inner v e = record {
    valid = v;
    same =
        ap (λ a. a ++ contents w.buf)
          ((laws.on_ok w.inner (contents w.buf) 0 inner e).1 ∙ append-nil (accepted w.inner));
    gone = 0;
    held = refl;
    counts = refl;
    caps = refl;
  }
  written_keeps w (returned (ok (suc n))) inner v e =
      let took = (laws.on_ok w.inner (contents w.buf) (suc n) inner e).1 in
      record {
        valid = consume-IsValid (suc n) v;
        same =
            ap₂ ◌++◌ took (contents-consume (suc n) v)
            ∙ append_assoc (accepted w.inner) (take (suc n) (contents w.buf))
                (drop (suc n) (contents w.buf))
            ∙ ap (λ c. accepted w.inner ++ c) (take-append-drop (suc n) (contents w.buf));
        gone = suc n;
        held = contents-consume (suc n) v;
        counts = wpos-consume w.buf (suc n);
        caps = len-consume w.buf (suc n);
      }
  written_keeps w (returned (err x)) inner v e =
      let k : Kept accepted w (record { buf = w.buf; inner = inner; panicked = false }) = record {
        valid = v;
        same = ap (λ a. a ++ contents w.buf) (laws.on_err w.inner (contents w.buf) x inner e);
        gone = 0;
        held = refl;
        counts = refl;
        caps = refl;
      } in
      elim (Bool-cases (is_interrupted x.kind)) [ inl i ↦ rw i k | inr i ↦ rw i k ]
  written_keeps w unwound inner v e = (v, refl, (0, refl))

  pub round_keeps : (w : BufWriter W) → IsValid w.buf → AfterRound accepted w (round w)
  unfolding round
  round_keeps w v = elim (Bool-cases (is_empty w.buf)) [
    | inl e ↦ rw e (Kept-refl accepted w v, contents_empty v e)
    | inr e ↦
        rw (e, as_read_slice_all v)
          (written_keeps w (write_w.write w.inner (contents w.buf)).0
            (write_w.write w.inner (contents w.buf)).1 v refl)
  ]

  flush-Ends :
      (fuel : ℕ) (w : BufWriter W) (x : Round W)
      → AfterRound accepted w x
      → ((w' : BufWriter W) → IsValid w'.buf → Ends (Flushed accepted w') (flush_buf fuel w'))
      → Ends (Flushed accepted w) (elim x [
        | break r w' ↦ some (returned r, w')
        | unwind w' ↦ some (unwound, w')
        | again w' ↦ flush_buf fuel w'
      ])
  flush-Ends fuel w (break r w') k rec = k
  flush-Ends fuel w (unwind w') k rec = k
  flush-Ends fuel w (again w') k rec =
      Ends-map (Kept-Flushed accepted k) (flush_buf fuel w') (rec w' k.valid)

  -- However `flush_buf` ends, no byte is lost, doubled or reordered: if it returns, the inner
  -- writer has the bytes that it took and the ring holds those that it did not, none if the result
  -- is `Ok`; if the inner writer unwinds, `panicked` is set and the ring holds a tail of its bytes.
  -- The ring is valid, and the inner writer keeps to `Accepts`.
  pub flush_buf_keeps :
      (fuel : ℕ) (w : BufWriter W) → IsValid w.buf → Ends (Flushed accepted w) (flush_buf fuel w)
  unfolding flush_buf
  flush_buf_keeps zero w v = tt
  flush_buf_keeps (suc fuel) w v =
      flush-Ends fuel w (round w) (round_keeps w v) (flush_buf_keeps fuel)
