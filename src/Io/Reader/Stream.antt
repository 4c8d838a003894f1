-- ===== src/Io/Reader/Stream.antt =====
-- `BufReader` of src/io/buffer.rs: the bytes that it hands out against those of the inner reader.
use vmap_rs.Prelude.{
  ℕ, ◌+◌, ◌<◌, ◌≤◌, ◌≡◌, refl, sym, ap, ap₂, ◌∙◌, inl, inr, min, List, [], ◌++◌, append_assoc,
  length, take, drop, take-append-drop, take-take_append, nil_of_length, Bool, true, Bool-cases,
  arith, leb, ◌&&◌, ◌==◌,
}
use vmap_rs.Word.{word, max_word}
use vmap_rs.Std.{ok, err, IoError, IoResult, Read}
use vmap_rs.Io.Mirror.{length-view}
use vmap_rs.Io.Traits.{as_write_slice}
use vmap_rs.Io.Ring.{Ring, ring_read, ring_write, read_len, write_len, write_offset, write_capacity}
use vmap_rs.Io.Ring.Inv.{IsValid, write_len_lem, consume-IsValid}
use vmap_rs.Io.Ring.Contents.{
  contents, length-contents, contents-consume, as_read_slice_all, contents-feed_fill,
  feed_fill-IsValid, contents-fill, fill-IsValid,
}
use vmap_rs.Io.Reader.{
  BufReader, buffer, consume, write_region, filled, fill_buf, read_filled, read_direct, read,
}

-- What the documentation of `std::io::Read` promises: `pending` is all that the reader has yet to
-- give. A read that returns `Ok(n)` put the next `n` of it at the front of its slice, and one that
-- returns an error gave none. The slice keeps its length.
pub record Gives {R : Type 0} (read_r : Read R) (pending : R → List ℕ) : Type 0 where
  pub on_ok :
      (r : R) (into : List ℕ) (n : ℕ) (into' : List ℕ) (r' : R)
      → read_r.read r into ≡ (ok n, into', r')
      → (n ≤ length into) × (take n into' ++ pending r' ≡ pending r)
  pub on_err :
      (r : R) (into : List ℕ) (e : IoError) (into' : List ℕ) (r' : R)
      → read_r.read r into ≡ (err e, into', r')
      → pending r' ≡ pending r
  pub keeps_length : (r : R) (into : List ℕ) → length (read_r.read r into).1 ≡ length into

module _ {R : Type 0} (pending : R → List ℕ) where
  -- The bytes yet to be handed out: those buffered, then those of the inner reader.
  abbrev pub stream : BufReader R → List ℕ
  stream b = contents b.buf ++ pending b.inner

  -- What `fill_buf` leaves: the stream, and on success all that is buffered in its result.
  abbrev pub Filled : BufReader R → IoResult (List ℕ) × BufReader R → Type 0
  Filled b (ok bytes, b') =
      (bytes ≡ contents b'.buf) × (stream b' ≡ stream b) × IsValid b'.buf × (b'.lowat ≡ b.lowat)
  Filled b (err e, b') = (stream b' ≡ stream b) × IsValid b'.buf × (b'.lowat ≡ b.lowat)

  -- What `read` leaves: on success the bytes at the front of the slice are the next of the stream.
  abbrev pub HandedOut : BufReader R → List ℕ → IoResult ℕ × List ℕ × BufReader R → Type 0
  HandedOut b into (ok n, into', b') =
      (n ≤ length into) × (take n into' ++ stream b' ≡ stream b) × IsValid b'.buf
  HandedOut b into (err e, into', b') = (stream b' ≡ stream b) × IsValid b'.buf

and_left : {n : ℕ} (b : Bool) → ((n == 0) && b) ≡ true → n ≡ 0
and_left b e = ground arith

length-write_region : {r : Ring} → IsValid r → length (write_region r) ≡ write_len r
unfolding write_region as_write_slice
length-write_region {r} v =
    omega (arith, length-view r.mem (write_offset r) (min (write_len r) max_word), write_len_lem v)

module _ {R : Type 0} ⦃read_r : Read R⦄ (pending : R → List ℕ) (laws : Gives read_r pending) where
  region_length :
      (b : BufReader R) (region : List ℕ)
      → IsValid b.buf
      → (read_r.read b.inner (write_region b.buf)).1 ≡ region
      → length region ≡ write_len b.buf
  region_length b region v e =
      ap length (sym e) ∙ laws.keeps_length b.inner (write_region b.buf) ∙ length-write_region v

  filled_keeps :
      (b : BufReader R) (r : IoResult ℕ) (region : List ℕ) (inner : R)
      → IsValid b.buf
      → b.buf.wpos + b.buf.len < word
      → read_r.read b.inner (write_region b.buf) ≡ (r, region, inner)
      → Filled pending b (filled b (r, region, inner))
  unfolding filled buffer as_write_slice
  filled_keeps b (ok n) region inner v h e =
      let gave = laws.on_ok b.inner (write_region b.buf) n region inner e in
      let long = region_length b region v (ap (λ p. p.1) e) in
      let m = min (write_len b.buf) max_word in
      let le : n ≤ length region = omega (arith, gave.0, length-write_region v) in
      let room : b.buf.wpos + n < word = omega (arith, write_len_lem v) in
      let valid = feed_fill-IsValid region m n v room in
      (
        as_read_slice_all valid,
        ap (λ c. c ++ pending inner) (contents-feed_fill region m n v (omega arith) le room)
            ∙ append_assoc (contents b.buf) (take n region) (pending inner)
            ∙ ap (λ p. contents b.buf ++ p) gave.1,
        valid,
        refl,
      )
  filled_keeps b (err x) region inner v h e =
      let long = region_length b region v (ap (λ p. p.1) e) in
      let m = min (write_len b.buf) max_word in
      (
        ap₂ ◌++◌ (contents-fill region m v (omega arith))
            (laws.on_err b.inner (write_region b.buf) x region inner e),
        fill-IsValid region m v,
        refl,
      )

  fill_buf-Filled :
      (b : BufReader R)
      → IsValid b.buf
      → b.buf.wpos + b.buf.len < word
      → Filled pending b (fill_buf b)
  unfolding fill_buf buffer
  fill_buf-Filled b v h = elim (Bool-cases (leb (read_len b.buf) b.lowat)) [
    | inl e ↦ rw e (
        filled_keeps b (read_r.read b.inner (write_region b.buf)).0
          (read_r.read b.inner (write_region b.buf)).1 (read_r.read b.inner (write_region b.buf)).2
          v h refl)
    | inr e ↦ rw e (as_read_slice_all v, refl, v, refl)
  ]

  read_filled_hands :
      (b : BufReader R) (into : List ℕ) (p : IoResult (List ℕ) × BufReader R)
      → Filled pending b p
      → HandedOut pending b into (read_filled into p)
  unfolding read_filled consume
  read_filled_hands b into (ok rem, b') (all, same, v, _) =
      let n = min (length rem) (length into) in
      let front = take-take_append n rem (drop n into) (omega arith) ∙ ap (take n) all in
      (
        omega arith,
        ap₂ ◌++◌ front (ap (λ c. c ++ pending b'.inner) (contents-consume n v))
            ∙ sym (
                append_assoc (take n (contents b'.buf)) (drop n (contents b'.buf))
                  (pending b'.inner))
            ∙ ap (λ c. c ++ pending b'.inner) (take-append-drop n (contents b'.buf))
            ∙ same,
        consume-IsValid n v,
      )
  read_filled_hands b into (err e, b') (same, v, _) = (same, v)

  read_direct_hands :
      (b : BufReader R) (into : List ℕ) (r : IoResult ℕ) (into' : List ℕ) (inner : R)
      → IsValid b.buf
      → contents b.buf ≡ []
      → read_r.read b.inner into ≡ (r, into', inner)
      → HandedOut pending b into (read_direct b (r, into', inner))
  unfolding read_direct
  read_direct_hands b into (ok n) into' inner v none_held e =
      let gave = laws.on_ok b.inner into n into' inner e in (gave.0, rw none_held gave.1, v)
  read_direct_hands b into (err x) into' inner v none_held e =
      (ap (λ p. contents b.buf ++ p) (laws.on_err b.inner into x into' inner e), v)

  -- `read` hands out the next bytes of the stream, whether it reads past an empty ring, from the
  -- ring, or fills the ring first; where it returns an error, no byte is lost. The ring is valid
  -- and counts fewer than 2^64 bytes even if it is filled, and the inner reader keeps to `Gives`.
  pub read_hands :
      (b : BufReader R) (into : List ℕ)
      → IsValid b.buf
      → b.buf.wpos + b.buf.len < word
      → HandedOut pending b into (read b into)
  unfolding read
  read_hands b into v h =
      elim (Bool-cases ((read_len b.buf == 0) && leb (write_capacity b.buf) (length into))) [
        | inl e ↦ rw e (
            read_direct_hands b into (read_r.read b.inner into).0 (read_r.read b.inner into).1
              (read_r.read b.inner into).2 v
              (nil_of_length (contents b.buf) (length-contents v ∙ and_left _ e)) refl)
        | inr e ↦ rw e (read_filled_hands b into (fill_buf b) (fill_buf-Filled b v h))
      ]
