-- ===== src/Io/Writer/Parts.antt =====
-- `BufWriter` of src/io/buffer.rs: `flush`, `into_inner`, `into_parts` and `drop`, and the `panicked` flag between them.
use vmap_rs.Prelude.{
  ℕ, zero, suc, ◌<◌, ◌≡◌, refl, sym, ap, ◌∙◌, inl, inr, List, [], ◌++◌, append-nil, length, Bool,
  true, false, not, Option, none, some, Bool-cases, ltb, leb, arith,
}
use vmap_rs.Prelude as P
use vmap_rs.Word.{max_word}
use vmap_rs.Std.{Result, ok, err, is_interrupted, IoResult, Outcome, returned, unwound, Write}
use vmap_rs.Io.Traits.{is_empty, as_read_slice}
use vmap_rs.Io.Ring.{ring_read, write_len}
use vmap_rs.Io.Ring.Inv.{IsValid}
use vmap_rs.Io.Ring.Contents.{contents}
use vmap_rs.Io.Writer.{
  BufWriter, Round, break, unwind, again, match_written, written, round, flush_buf, write_direct,
  write_rest, after_flush, write, flush_inner, flush, IntoInnerError, give_inner, into_inner,
  into_parts, writer_panicked, drop, recovered,
}
use vmap_rs.Io.Writer.Laws.{Accepts}
use vmap_rs.Io.Writer.Flush.{stream, Kept, Ends, Ends-elim, Ends-map, Flushed, flush_buf_keeps}

-- The flag after a call tells how the call ended.
abbrev pub Flagged : {A W : Type 0} → Outcome A × BufWriter W → Type 0
Flagged (returned _, w') = w'.panicked ≡ false
Flagged (unwound, w') = w'.panicked ≡ true

module _ {W : Type 0} ⦃write_w : Write W⦄ where
  abbrev FlaggedRound : Round W → Type 0
  FlaggedRound (break r w') = w'.panicked ≡ false
  FlaggedRound (unwind w') = w'.panicked ≡ true
  FlaggedRound (again w') = w'.panicked ≡ false

  written_flag :
      (w : BufWriter W) (out : Outcome (IoResult ℕ)) (inner : W)
      → FlaggedRound (written w (out, inner))
  unfolding written match_written
  written_flag w (returned (ok zero)) inner = refl
  written_flag w (returned (ok (suc n))) inner = refl
  written_flag w (returned (err x)) inner = elim (Bool-cases (is_interrupted x.kind)) [
    | inl i ↦ rw i
    | inr i ↦ rw i
  ]
  written_flag w unwound inner = refl

  round_flag : (w : BufWriter W) → w.panicked ≡ false → FlaggedRound (round w)
  unfolding round
  round_flag w p = elim (Bool-cases (is_empty w.buf)) [
    | inl e ↦ rw e p
    | inr e ↦ rw e (
        written_flag w (write_w.write w.inner (as_read_slice w.buf max_word)).0
          (write_w.write w.inner (as_read_slice w.buf max_word)).1)
  ]

  flush_flag :
      (fuel : ℕ) (x : Round W)
      → FlaggedRound x
      → ((w' : BufWriter W) → w'.panicked ≡ false → Ends Flagged (flush_buf fuel w'))
      → Ends Flagged (elim x [
        | break r w' ↦ some (returned r, w')
        | unwind w' ↦ some (unwound, w')
        | again w' ↦ flush_buf fuel w'
      ])
  flush_flag fuel (break r w') f rec = f
  flush_flag fuel (unwind w') f rec = f
  flush_flag fuel (again w') f rec = rec w' f

  flush_buf_flag :
      (fuel : ℕ) (w : BufWriter W) → w.panicked ≡ false → Ends Flagged (flush_buf fuel w)
  unfolding flush_buf
  flush_buf_flag zero w p = tt
  flush_buf_flag (suc fuel) w p = flush_flag fuel (round w) (round_flag w p) (flush_buf_flag fuel)

  direct_flag :
      (w : BufWriter W) (out : Outcome (IoResult ℕ)) (inner : W)
      → Flagged (write_direct w (out, inner))
  unfolding write_direct
  direct_flag w (returned r) inner = refl
  direct_flag w unwound inner = refl

  rest_flag : (w : BufWriter W) (bs : List ℕ) → w.panicked ≡ false → Flagged (write_rest w bs)
  unfolding write_rest
  rest_flag w bs p = elim (Bool-cases (leb (write_len w.buf) (length bs))) [
    | inl e ↦ rw e (direct_flag w (write_w.write w.inner bs).0 (write_w.write w.inner bs).1)
    | inr e ↦ rw e p
  ]

  after_flag :
      (bs : List ℕ) (p : Outcome (IoResult (Unit {0})) × BufWriter W)
      → Flagged p
      → Flagged (after_flush bs p)
  unfolding after_flush
  after_flag bs (returned (ok _), w') f = rest_flag w' bs f
  after_flag bs (returned (err e), w') f = f
  after_flag bs (unwound, w') f = f

  -- What can be done with the buffered writer after a call, by how the call ended: past an
  -- unwinding call the ring is given out as a `WriterPanicked` and `drop` writes nothing; else the
  -- ring is given out as it is and `drop` flushes it.
  abbrev pub Recovers : {A : Type 0} → ℕ → Outcome A × BufWriter W → Type 0
  Recovers fuel (returned _, w') =
      (into_parts w' ≡ (w'.inner, ok w'.buf)) × (drop fuel w' ≡ flush_buf fuel w')
  Recovers fuel (unwound, w') =
      (into_parts w' ≡ (w'.inner, err (writer_panicked w'.buf)))
      × (drop fuel w' ≡ some (returned (ok tt), w'))

  flag-Recovers :
      {A : Type 0} (fuel : ℕ) (p : Outcome A × BufWriter W) → Flagged p → Recovers fuel p
  unfolding into_parts drop
  flag-Recovers fuel (returned a, w') f = (rw f, rw f)
  flag-Recovers fuel (unwound, w') f = (rw f, rw f)

  -- From a clear flag, after `write` and after `flush_buf`: if the inner writer unwound, the parts
  -- hold the ring as a `WriterPanicked` and `drop` does not write again; if not, they hold the plain
  -- ring and `drop` flushes.
  pub panic_recovery :
      (fuel more : ℕ) (w : BufWriter W) (bs : List ℕ)
      → w.panicked ≡ false
      → Ends (Recovers more) (write fuel w bs) × Ends (Recovers more) (flush_buf fuel w)
  unfolding write
  panic_recovery fuel more w bs p = (
    Ends-map (flag-Recovers more) (write fuel w bs)
        (elim (Bool-cases (ltb (write_len w.buf) (length bs))) [
          | inl e ↦ rw e (
              Ends-elim Flagged (after_flush bs) (after_flag bs) (flush_buf fuel w)
                (flush_buf_flag fuel w p))
          | inr e ↦ rw e (rest_flag w bs p)
        ]),
    Ends-map (flag-Recovers more) (flush_buf fuel w) (flush_buf_flag fuel w p),
  )

module _ {W : Type 0} ⦃write_w : Write W⦄ (accepted : W → List ℕ)
    (laws : Accepts write_w accepted) where
  -- All bytes are with the inner writer, or an error or an unwinding stopped them.
  abbrev pub Delivered : BufWriter W → Outcome (IoResult (Unit {0})) × BufWriter W → Type 0
  Delivered w (returned (ok _), w') =
      (accepted w'.inner ≡ stream accepted w) × (contents w'.buf ≡ [])
  Delivered w (returned (err e), w') = stream accepted w' ≡ stream accepted w
  Delivered w (unwound, w') = (n : ℕ) × (contents w'.buf ≡ P.drop n (contents w.buf))

  -- What `into_inner` gives back.
  abbrev pub Unwrapped : BufWriter W → Outcome (Result W (IntoInnerError W)) → Type 0
  Unwrapped w (returned (ok inner)) = accepted inner ≡ stream accepted w
  Unwrapped w (returned (err x)) = stream accepted (recovered x) ≡ stream accepted w
  Unwrapped w unwound = Unit

  delivered :
      {w w' : BufWriter W}
      → Kept accepted w w'
      → contents w'.buf ≡ []
      → accepted w'.inner ≡ stream accepted w
  delivered {w' = w'} k e =
      sym (append-nil (accepted w'.inner)) ∙ ap (λ c. accepted w'.inner ++ c) (sym e) ∙ k.same

  inner_delivers :
      (w w' : BufWriter W) (out : Outcome (IoResult (Unit {0}))) (inner : W)
      → Kept accepted w w'
      → contents w'.buf ≡ []
      → write_w.flush w'.inner ≡ (out, inner)
      → Delivered w (out, record w' { inner = inner })
  inner_delivers w w' (returned (ok _)) inner k e f =
      (laws.on_flush w'.inner (returned (ok tt)) inner f ∙ delivered k e, e)
  inner_delivers w w' (returned (err x)) inner k e f =
      ap (λ a. a ++ contents w'.buf) (laws.on_flush w'.inner (returned (err x)) inner f) ∙ k.same
  inner_delivers w w' unwound inner k e f = (k.gone, k.held)

  flush_inner_delivers :
      (w : BufWriter W) (p : Outcome (IoResult (Unit {0})) × BufWriter W)
      → Flushed accepted w p
      → Delivered w (flush_inner p)
  unfolding flush_inner
  flush_inner_delivers w (returned (ok _), w') (k, e) =
      inner_delivers w w' (write_w.flush w'.inner).0 (write_w.flush w'.inner).1 k e refl
  flush_inner_delivers w (returned (err x), w') k = k.same
  flush_inner_delivers w (unwound, w') (v, p, rest) = rest

  give_inner_unwraps :
      (w : BufWriter W) (p : Outcome (IoResult (Unit {0})) × BufWriter W)
      → Flushed accepted w p
      → Unwrapped w (give_inner p)
  unfolding give_inner into_parts recovered
  give_inner_unwraps w (returned (ok _), w') (k, e) = delivered k e
  give_inner_unwraps w (returned (err x), w') k = k.same
  give_inner_unwraps w (unwound, w') f = tt

  -- `flush` that returns `Ok` has given every byte to the inner writer, in order, and `into_inner`
  -- too; where they return an error, the inner writer and the ring that is given back with it hold
  -- every byte between them. The ring is valid, and the inner writer keeps to `Accepts`.
  pub flush_delivers :
      (fuel : ℕ) (w : BufWriter W)
      → IsValid w.buf
      → Ends (Delivered w) (flush fuel w) × Ends (Unwrapped w) (into_inner fuel w)
  unfolding flush into_inner
  flush_delivers fuel w v =
      let kept = flush_buf_keeps accepted laws fuel w v in
      (
        Ends-elim (Delivered w) flush_inner (flush_inner_delivers w) (flush_buf fuel w) kept,
        Ends-elim (Unwrapped w) give_inner (give_inner_unwraps w) (flush_buf fuel w) kept,
      )
