-- ===== src/Span/Splice.antt =====
-- Bytes of a list replaced by others, as a write into a span of src/lib.rs does.
use vmap_rs.Prelude.{
  ℕ, ◌+◌, ◌-◌, ◌≤◌, ◌≡◌, sym, ap, ◌∙◌, List, ◌++◌, length, take, drop, length-append, length-take,
  length-drop, take-append-drop, take_all, drop_all, drop-append, drop-drop, take-append, arith,
}
use vmap_rs.Span.{splice}

pub length-splice :
    (xs : List ℕ) (at : ℕ) (bs : List ℕ)
    → at + length bs ≤ length xs
    → length (splice xs at bs) ≡ length xs
length-splice xs at bs h =
    let rest = drop (at + length bs) xs in
    omega (
      arith,
      length-append (take at xs) (bs ++ rest),
      length-append bs rest,
      length-take at xs,
      length-drop (at + length bs) xs,
    )

drop-splice :
    (xs : List ℕ) (at : ℕ) (bs : List ℕ)
    → at ≤ length xs
    → drop at (splice xs at bs) ≡ bs ++ drop (at + length bs) xs
drop-splice xs at bs h =
    let rest = bs ++ drop (at + length bs) xs in
    drop-append at (take at xs) rest (omega (arith, length-take at xs))
    ∙ ap (λ l. l ++ rest) (drop_all at (take at xs) (omega (arith, length-take at xs)))

pub splice_self :
    (xs : List ℕ) (at : ℕ) (bs : List ℕ)
    → at ≤ length xs
    → take (length bs) (drop at (splice xs at bs)) ≡ bs
splice_self xs at bs h =
    ap (take (length bs)) (drop-splice xs at bs h)
    ∙ take-append (length bs) bs (drop (at + length bs) xs) (omega arith)
    ∙ take_all (length bs) bs (omega arith)

front :
    (xs ys : List ℕ) (at i n : ℕ)
    → i + n ≤ at
    → at ≤ length xs
    → take n (drop i (take at xs ++ ys)) ≡ take n (drop i (take at xs))
front xs ys at i n h le =
    let long = length-take at xs in
    ap (take n) (drop-append i (take at xs) ys (omega (arith, long)))
    ∙ take-append n (drop i (take at xs)) ys (omega (arith, long, length-drop i (take at xs)))

pub splice_before :
    (xs : List ℕ) (at : ℕ) (bs : List ℕ) (i n : ℕ)
    → i + n ≤ at
    → at ≤ length xs
    → take n (drop i (splice xs at bs)) ≡ take n (drop i xs)
splice_before xs at bs i n h le =
    front xs (bs ++ drop (at + length bs) xs) at i n h le
    ∙ sym (front xs (drop at xs) at i n h le)
    ∙ ap (λ l. take n (drop i l)) (take-append-drop at xs)

past_splice :
    (xs : List ℕ) (at : ℕ) (bs : List ℕ)
    → at ≤ length xs
    → drop (at + length bs) (splice xs at bs) ≡ drop (at + length bs) xs
past_splice xs at bs h =
    let rest = drop (at + length bs) xs in
    sym (drop-drop (length bs) at (splice xs at bs))
    ∙ ap (drop (length bs)) (drop-splice xs at bs h)
    ∙ drop-append (length bs) bs rest (omega arith)
    ∙ ap (λ l. l ++ rest) (drop_all (length bs) bs (omega arith))

pub splice_after :
    (xs : List ℕ) (at : ℕ) (bs : List ℕ) (i : ℕ)
    → at + length bs ≤ i
    → at ≤ length xs
    → drop i (splice xs at bs) ≡ drop i xs
splice_after xs at bs i h le =
    let k = i - (at + length bs) in
    let e : at + length bs + k ≡ i = omega arith in
    ap (λ x. drop x (splice xs at bs)) (sym e)
    ∙ sym (drop-drop k (at + length bs) (splice xs at bs))
    ∙ ap (drop k) (past_splice xs at bs le)
    ∙ drop-drop k (at + length bs) xs
    ∙ ap (λ x. drop x xs) e
