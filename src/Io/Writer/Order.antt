-- ===== src/Io/Writer/Order.antt =====
-- `BufWriter::write` of src/io/buffer.rs: which bytes it takes, and in which order they reach the
-- inner writer.
use vmap_rs.Prelude.{
  ℕ, ◌+◌, ◌<◌, ◌≤◌, ◌≡◌, ◌≢◌, refl, sym, ap, ◌∙◌, inl, inr, List, [], ◌++◌, append_assoc,
  append-nil, length, take, drop, true, false, some, Bool-cases, arith, ltb, leb, leb→le, le→ltb,
  le→leb, ltb-false→le, drop-drop, append-cancel,
}
use vmap_rs.Word.{word}
use vmap_rs.Std.{ok, err, IoResult, Outcome, returned, unwound, Write}
use vmap_rs.Io.Ring.{write_len}
use vmap_rs.Io.Ring.Inv.{IsValid}
use vmap_rs.Io.Ring.Contents.{contents, write_lem, accepted as taken}
use vmap_rs.Io.Writer.{BufWriter, flush_buf, write_direct, write_rest, after_flush, write}
use vmap_rs.Io.Writer.Laws.{Accepts}
use vmap_rs.Io.Writer.Flush.{stream, Ends, Ends-elim, Kept, Flushed, flush_buf_keeps}

module _ {W : Type 0} (accepted : W → List ℕ) where
  -- What a write of `bs` leaves, by how it ends.
  abbrev pub Written : BufWriter W → List ℕ → Outcome (IoResult ℕ) × BufWriter W → Type 0
  Written w bs (returned (ok n), w') =
      (n ≤ length bs) × (stream accepted w' ≡ stream accepted w ++ take n bs) × IsValid w'.buf
  Written w bs (returned (err e), w') = (stream accepted w' ≡ stream accepted w) × IsValid w'.buf
  Written w bs (unwound, w') =
      (w'.panicked ≡ true)
      × IsValid w'.buf
      × ((n : ℕ) × (contents w'.buf ≡ drop n (contents w.buf)))

  Kept-Written :
      {w w' : BufWriter W} (bs : List ℕ)
      → Kept accepted w w'
      → (p : Outcome (IoResult ℕ) × BufWriter W) → Written w' bs p
      → Written w bs p
  Kept-Written bs k (returned (ok n), w'') (le, same, v) =
      (le, same ∙ ap (λ s. s ++ take n bs) k.same, v)
  Kept-Written bs k (returned (err e), w'') (same, v) = (same ∙ k.same, v)
  Kept-Written {w} bs k (unwound, w'') (p, v, (n, e)) =
      (p, v, (k.gone + n, e ∙ ap (drop n) k.held ∙ drop-drop n k.gone (contents w.buf)))

module _ {W : Type 0} ⦃write_w : Write W⦄ (accepted : W → List ℕ)
    (laws : Accepts write_w accepted) where
  -- A write past an empty ring.
  direct_keeps :
      (w : BufWriter W) (bs : List ℕ) (out : Outcome (IoResult ℕ)) (inner : W)
      → IsValid w.buf
      → contents w.buf ≡ []
      → write_w.write w.inner bs ≡ (out, inner)
      → Written accepted w bs (write_direct w (out, inner))
  unfolding write_direct
  direct_keeps w bs (returned (ok n)) inner v none_held e =
      let took = laws.on_ok w.inner bs n inner e in
      (took.0, rw (none_held, append-nil, append-nil) took.1, v)
  direct_keeps w bs (returned (err x)) inner v none_held e =
      (ap (λ a. a ++ contents w.buf) (laws.on_err w.inner bs x inner e), v)
  direct_keeps w bs unwound inner v none_held e = (refl, v, (0, refl))

  write_rest_keeps :
      (w : BufWriter W) (bs : List ℕ)
      → IsValid w.buf
      → w.buf.wpos + length bs < word
      → (leb (write_len w.buf) (length bs) ≡ true → contents w.buf ≡ [])
      → Written accepted w bs (write_rest w bs)
  unfolding write_rest
  write_rest_keeps w bs v h room = elim (Bool-cases (leb (write_len w.buf) (length bs))) [
    | inl e ↦ rw e (
        direct_keeps w bs (write_w.write w.inner bs).0 (write_w.write w.inner bs).1 v (room e) refl)
    | inr e ↦ rw e (
        rw (write_lem bs v h).0 (
          omega arith,
          ap (λ c. accepted w.inner ++ c) (write_lem bs v h).1
              ∙ sym (append_assoc (accepted w.inner) (contents w.buf) (take (taken w.buf bs) bs)),
          (write_lem bs v h).2,
        ))
  ]

  after_flush_keeps :
      (w : BufWriter W) (bs : List ℕ) (p : Outcome (IoResult (Unit {0})) × BufWriter W)
      → w.buf.wpos + length bs < word
      → Flushed accepted w p
      → Written accepted w bs (after_flush bs p)
  unfolding after_flush
  after_flush_keeps w bs (returned (ok _), w') h (k, none_held) =
      Kept-Written accepted bs k (write_rest w' bs)
        (write_rest_keeps w' bs k.valid (rw k.counts h) (λ _. none_held))
  after_flush_keeps w bs (returned (err e), w') h k = (k.same, k.valid)
  after_flush_keeps w bs (unwound, w') h (v, p, rest) = (p, v, rest)

  -- Unless `bs` has exactly the free space's length and the ring holds bytes, a `write` that
  -- returns `Ok(n)` puts the first `n` bytes of `bs` behind all earlier ones, and one that returns
  -- an error takes none; no earlier byte is lost, doubled or reordered. If the inner writer
  -- unwinds, `panicked` is set and the ring holds a tail of its bytes. The ring is valid and fewer
  -- than 2^64 bytes are counted with these, and the inner writer keeps to `Accepts`.
  pub write_keeps :
      (fuel : ℕ) (w : BufWriter W) (bs : List ℕ)
      → IsValid w.buf
      → w.buf.wpos + length bs < word
      → (length bs ≡ write_len w.buf → contents w.buf ≡ [])
      → Ends (Written accepted w bs) (write fuel w bs)
  unfolding write
  write_keeps fuel w bs v h room = elim (Bool-cases (ltb (write_len w.buf) (length bs))) [
    | inl e ↦ rw e (
        Ends-elim (Written accepted w bs) (after_flush bs) (λ p. after_flush_keeps w bs p h)
          (flush_buf fuel w) (flush_buf_keeps accepted laws fuel w v))
    | inr e ↦ rw e (
        write_rest_keeps w bs v h
          (λ t. room (omega (arith, leb→le (write_len w.buf) (length bs) t, ltb-false→le _ _ e))))
  ]

  -- A write whose length is exactly the free space goes to the inner writer at once, without the
  -- flush: what the writer takes of it stands before the bytes that the ring held, which stay held.
  -- The inner writer keeps to `Accepts` and returns `Ok` here.
  pub write_overtakes :
      (fuel : ℕ) (w : BufWriter W) (bs : List ℕ) (n : ℕ) (inner : W)
      → length bs ≡ write_len w.buf
      → write_w.write w.inner bs ≡ (returned (ok n), inner)
      → (w' : BufWriter W) × (write fuel w bs ≡ some (returned (ok n), w'))
        × (contents w'.buf ≡ contents w.buf)
        × (stream accepted w' ≡ (accepted w.inner ++ take n bs) ++ contents w.buf)
        × (take n bs ++ contents w.buf ≢ contents w.buf ++ take n bs
            → stream accepted w' ≢ stream accepted w ++ take n bs)
  unfolding write write_rest write_direct
  write_overtakes fuel w bs n inner e took =
      let overtaken = ap (λ a. a ++ contents w.buf) (laws.on_ok w.inner bs n inner took).1 in
      (
        record w { inner = inner; panicked = false },
        rw (
          le→ltb (write_len w.buf) (length bs) (omega arith),
          le→leb (write_len w.buf) (length bs) (omega arith),
          took,
        ),
        refl,
        overtaken,
        λ apart same. apart (
            append-cancel (accepted w.inner) (
              sym (append_assoc (accepted w.inner) (take n bs) (contents w.buf))
              ∙ sym overtaken
              ∙ same
              ∙ append_assoc (accepted w.inner) (contents w.buf) (take n bs))),
      )
