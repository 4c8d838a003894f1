-- ===== src/Io/Tests/Buffers.antt =====
-- `BufWriter` and `BufReader` of src/io/buffer.rs over a sink and a source of two bytes a call, where
-- the sink is interrupted every other time.
use vmap_rs.Prelude.{
  ℕ, sym, ap, ◌∙◌, take-take_append, ◌≤◌, ◌≡◌, ◌≢◌, refl, List, [], ◌∷◌, ◌++◌, length, min, take,
  drop, take-append-drop, length-append, length-take, length-drop, Bool, true, false, some, arith,
}
use vmap_rs.Std.{
  ok, err, ErrorKind, Result, IoError, IoResult, io_error, Outcome, returned, unwound, Read, Write,
}
use vmap_rs.Io.Ring.{Ring}
use vmap_rs.Io.Ring.Inv.{IsValid, read_len_lem, write_len_lem}
use vmap_rs.Io.Ring.Contents.{contents, length-contents}
use vmap_rs.Io.Writer.{BufWriter, flush_buf, write, flush, into_inner, IntoInnerError}
use vmap_rs.Io.Writer as Writer
use vmap_rs.Io.Writer.Laws.{Accepts, Patient}
use vmap_rs.Io.Writer.Flush.{stream, Ends, Flushed, flush_buf_keeps}
use vmap_rs.Io.Writer.Total.{calls_total}
use vmap_rs.Io.Writer.Rounds.{flush_buf_total}
use vmap_rs.Io.Writer.Order.{Written, write_keeps, write_overtakes}
use vmap_rs.Io.Writer.Parts.{Recovers, Delivered, Unwrapped, panic_recovery, flush_delivers}
use vmap_rs.Io.Reader.{BufReader, read}
use vmap_rs.Io.Reader.Stream.{Gives, HandedOut, read_hands}

record Sink : Type 0 where
  got : List ℕ
  stalled : Bool

abbrev take_two : List ℕ → Bool → List ℕ → Outcome (IoResult ℕ) × Sink
take_two got true bs =
    (returned (err (io_error ErrorKind.interrupted)), record { got = got; stalled = false })
take_two got false bs =
    let n = min 2 (length bs) in
    (returned (ok n), record { got = got ++ take n bs; stalled = true })

instance abbrev sink_write : Write Sink
sink_write = record { write = λ s. take_two s.got s.stalled; flush = λ s. (returned (ok tt), s) }

abbrev got : Sink → List ℕ
got s = s.got

took :
    (old : List ℕ) (st : Bool) (bs : List ℕ) (n : ℕ) (w' : Sink)
    → take_two old st bs ≡ (returned (ok n), w')
    → (n ≤ length bs) × (w'.got ≡ old ++ take n bs)
took old true bs n w' e = cc
took old false bs n w' e =
    let same : min 2 (length bs) ≡ n = cc in
    (omega arith, sym (ap (λ p. p.1.got) e) ∙ ap (λ k. old ++ take k bs) same)

refused :
    (old : List ℕ) (st : Bool) (bs : List ℕ) (x : IoError) (w' : Sink)
    → take_two old st bs ≡ (returned (err x), w')
    → (w'.got ≡ old) × (st ≡ true) × (w'.stalled ≡ false)
refused old true bs x w' e = (sym (ap (λ p. p.1.got) e), refl, sym (ap (λ p. p.1.stalled) e))
refused old false bs x w' e = cc

sink-Accepts : Accepts sink_write got
sink-Accepts = record {
  on_ok = λ w bs n w' e. took w.got w.stalled bs n w' e;
  on_err = λ w bs x w' e. (refused w.got w.stalled bs x w' e).0;
  on_flush = λ w out w' e. sym (ap (λ p. got p.1) e);
}

abbrev wait : Bool → ℕ
wait true = 1
wait false = 0

wait-le : (b : Bool) → wait b ≤ 1
wait-le true = omega arith
wait-le false = omega arith

sink-Patient : Patient sink_write (λ s. wait s.stalled) 1
sink-Patient = record {
  within = λ w. wait-le w.stalled;
  waits = λ w bs x w' e _.
      let (_, before, after) = refused w.got w.stalled bs x w' e in
      omega (arith, ap wait before, ap wait after);
}

-- It holds the bytes 40 and 50.
abbrev held : Ring
held = record { ptr = 0; mem = 50 ∷ 20 ∷ 30 ∷ 40 ∷ []; len = 4; rpos = 3; wpos = 5 }

held-IsValid : IsValid held
held-IsValid = record {
  mapped = refl;
  nonempty = omega arith;
  addressable = omega arith;
  ordered = omega arith;
  bounded = omega arith;
  counted = omega arith;
}

abbrev ready : BufWriter Sink
ready = record { buf = held; inner = record { got = 10 ∷ []; stalled = true }; panicked = false }

abbrev five : List ℕ
five = 1 ∷ 2 ∷ 3 ∷ 4 ∷ 5 ∷ []

flush_buf_keeps_example : Ends (Flushed got ready) (flush_buf 9 ready)
flush_buf_keeps_example = flush_buf_keeps got sink-Accepts 9 ready held-IsValid

flush_buf_total_example :
    (p : Outcome (IoResult (Unit {0})) × BufWriter Sink) × (flush_buf 9 ready ≡ some p)
flush_buf_total_example =
    flush_buf_total sink-Accepts sink-Patient 9 ready held-IsValid
      (omega (arith, length-contents held-IsValid, read_len_lem held-IsValid))

calls_total_example :
    ((p : Outcome (IoResult ℕ) × BufWriter Sink) × (write 9 ready five ≡ some p))
    × ((p : Outcome (IoResult (Unit {0})) × BufWriter Sink) × (flush 9 ready ≡ some p))
    × ((p : Outcome (Result Sink (IntoInnerError Sink))) × (into_inner 9 ready ≡ some p))
    × ((p : Outcome (IoResult (Unit {0})) × BufWriter Sink) × (Writer.drop 9 ready ≡ some p))
calls_total_example =
    calls_total sink-Accepts sink-Patient 9 ready five held-IsValid
      (omega (arith, length-contents held-IsValid, read_len_lem held-IsValid))

write_keeps_example : Ends (Written got ready five) (write 9 ready five)
write_keeps_example =
    write_keeps got sink-Accepts 9 ready five held-IsValid (omega arith)
      (λ e. absurd (omega (arith, write_len_lem held-IsValid, e)))

flush_delivers_example :
    Ends (Delivered got sink-Accepts ready) (flush 9 ready)
    × Ends (Unwrapped got sink-Accepts ready) (into_inner 9 ready)
flush_delivers_example = flush_delivers got sink-Accepts 9 ready held-IsValid

abbrev calm : BufWriter Sink
calm = record { buf = held; inner = record { got = 10 ∷ []; stalled = false }; panicked = false }

abbrev two : List ℕ
two = 1 ∷ 2 ∷ []

write_overtakes_example :
    (w' : BufWriter Sink) × (write 9 calm two ≡ some (returned (ok 2), w'))
    × (contents w'.buf ≡ contents held)
    × (stream got w' ≡ ((10 ∷ []) ++ take 2 two) ++ contents held)
    × (take 2 two ++ contents held ≢ contents held ++ take 2 two
        → stream got w' ≢ stream got calm ++ take 2 two)
write_overtakes_example =
    write_overtakes got sink-Accepts 9 calm two 2 (record { got = 10 ∷ 1 ∷ 2 ∷ []; stalled = true })
      (omega (arith, write_len_lem held-IsValid)) refl

-- A writer that unwinds.
data Bomb : Type 0 where
  bomb : Bomb

instance abbrev bomb_write : Write Bomb
bomb_write = record { write = λ w _. (unwound, w); flush = λ w. (unwound, w) }

abbrev armed : BufWriter Bomb
armed = record { buf = held; inner = bomb; panicked = false }

panic_recovery_example :
    Ends (Recovers 9) (write 9 armed five) × Ends (Recovers 9) (flush_buf 9 armed)
panic_recovery_example = panic_recovery 9 9 armed five refl

abbrev read_two : List ℕ → List ℕ → IoResult ℕ × List ℕ × List ℕ
read_two r into =
    let n = min 2 (min (length r) (length into)) in (ok n, take n r ++ drop n into, drop n r)

instance abbrev source_read : Read (List ℕ)
source_read = record { read = read_two }

gave :
    (r into : List ℕ) (n : ℕ) (into' r' : List ℕ)
    → read_two r into ≡ (ok n, into', r')
    → (n ≤ length into) × (take n into' ++ r' ≡ r)
gave r into n into' r' e =
    let k = min 2 (min (length r) (length into)) in
    let same : k ≡ n = cc in
    let left : take k r ++ drop k into ≡ into' = ap (λ p. p.1) e in
    let rest : drop k r ≡ r' = ap (λ p. p.2) e in
    (
      omega arith,
      rw⁻¹ (same, left, rest)
          (ap (λ x. x ++ drop k r) (take-take_append k r (drop k into) (omega arith))
            ∙ take-append-drop k r),
    )

source-Gives : Gives source_read (λ r. r)
source-Gives = record {
  on_ok = λ r into n into' r' e. gave r into n into' r' e;
  on_err = λ r into x into' r' e. cc;
  keeps_length = λ r into.
      let k = min 2 (min (length r) (length into)) in
      omega (arith, length-append (take k r) (drop k into), length-take k r, length-drop k into);
}

abbrev reader : BufReader (List ℕ)
reader = record { buf = held; inner = five; lowat = 2 }

read_hands_example : HandedOut (λ r. r) reader (0 ∷ 0 ∷ 0 ∷ []) (read reader (0 ∷ 0 ∷ 0 ∷ []))
read_hands_example =
    read_hands (λ r. r) source-Gives reader (0 ∷ 0 ∷ 0 ∷ []) held-IsValid (omega arith)
