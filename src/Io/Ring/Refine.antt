-- ===== src/Io/Ring/Refine.antt =====
-- `Ring` of src/io/ring.rs, call by call, against the queue of `Io.Queue`.
use vmap_rs.Prelude.{
  ℕ, List, [], ◌∷◌, ◌++◌, ◌+◌, ◌-◌, ◌<◌, ◌≤◌, ◌≡◌, refl, ap, ap₂, ◌∙◌, min, length, take, arith,
}
use vmap_rs.Word.{word}
use vmap_rs.Std.{ok}
use vmap_rs.Io.Calls.{Op, offered}
use vmap_rs.Io.Calls.{Reply, count, count_into, slice, filled, done}
use vmap_rs.Io.Queue
use vmap_rs.Io.Traits.{read_from, write_into, fill_slice, as_write_slice}
use vmap_rs.Io.Ring.{Ring, write_len, feed, consume, clear, read_and_consume, read, write, fill_buf}
use vmap_rs.Io.Ring.Inv.{IsValid, read_len_lem, write_len_lem, consume-IsValid, clear-IsValid}
use vmap_rs.Io.Ring.Contents.{
  contents, length-contents, as_read_slice_all, contents-consume, write_lem, read_lem,
  read_and_consume_lem, clear_lem,
}

-- One call of a client.
unfoldable pub step : Ring → Op → Reply × Ring
step r (Op.write bs) = let (n, r') = write r bs in (count n, r')
step r (Op.read into) = let (n, into', r') = read r into in (count_into n into', r')
step r (Op.consume n) = (done, consume r n)
step r (Op.read_and_consume n) = let (bytes, r') = read_and_consume r n in (slice bytes, r')
step r Op.fill_buf = (filled (fill_buf r), r)
step r Op.clear = (done, clear r)

pub run : Ring → List Op → List Reply
run r [] = []
run r (op ∷ ops) = let (reply, r') = step r op in reply ∷ run r' ops

-- Each call answers as the queue does, and leaves the ring holding the queue's bytes.
pub step_refines :
    {r : Ring} (op : Op)
    → IsValid r
    → r.wpos + offered (op ∷ []) < word
    → let (reply, r') = step r op in (reply, contents r') ≡ Queue.step r.len (contents r) op
unfolding step fill_buf Queue.step
step_refines {r} (Op.write bs) v h =
    let l = write_lem bs v (omega arith) in
    let free : write_len r ≡ r.len - length (contents r) =
      omega (arith, length-contents v, read_len_lem v, write_len_lem v) in
    ap₂ {C = Reply × List ℕ} (λ n q. (count n, q)) l.0 l.1
    ∙ ap {B = Reply × List ℕ}
        (λ k. (count (ok (min k (length bs))), contents r ++ take (min k (length bs)) bs)) free
step_refines {r} (Op.read into) v h =
    let (answer, left, rest, _) = read_lem into v in rw (answer, left, rest, length-contents v)
step_refines {r} (Op.consume n) v h = ap (λ q. (done, q)) (contents-consume n v)
step_refines {r} (Op.read_and_consume n) v h =
    let l = read_and_consume_lem n v in ap₂ (λ b q. (slice b, q)) l.0 l.1
step_refines {r} Op.fill_buf v h = ap (λ q. (filled (ok q), contents r)) (as_read_slice_all v)
step_refines {r} Op.clear v h = ap (λ q. (done, q)) (clear_lem v)

-- Every call keeps the invariant, as long as it counts fewer than 2^64 bytes written in all.
pub step-IsValid :
    {r : Ring} (op : Op) → IsValid r → r.wpos + offered (op ∷ []) < word → IsValid (step r op).1
unfolding step
step-IsValid (Op.write bs) v h = (write_lem bs v (omega arith)).2
step-IsValid (Op.read into) v h = (read_lem into v).3
step-IsValid (Op.consume n) v h = consume-IsValid n v
step-IsValid (Op.read_and_consume n) v h = (read_and_consume_lem n v).2
step-IsValid Op.fill_buf v h = v
step-IsValid Op.clear v h = clear-IsValid v

-- A call keeps the capacity, and counts at most the bytes that it offers.
step_counts :
    {r : Ring} (op : Op)
    → IsValid r
    → r.wpos + offered (op ∷ []) < word
    → ((step r op).1.len ≡ r.len) × ((step r op).1.wpos ≤ r.wpos + offered (op ∷ []))
unfolding step consume clear read_and_consume read read_from write write_into feed fill_slice
    as_write_slice
step_counts {r} (Op.write bs) v h = omega arith
step_counts {r} (Op.read into) v h = omega arith
step_counts {r} (Op.consume n) v h = omega arith
step_counts {r} (Op.read_and_consume n) v h = omega arith
step_counts {r} Op.fill_buf v h = omega arith
step_counts {r} Op.clear v h = omega arith

offered-cons : (op : Op) (ops : List Op) → offered (op ∷ ops) ≡ offered (op ∷ []) + offered ops
offered-cons (Op.write bs) ops = omega arith
offered-cons (Op.read into) ops = omega arith
offered-cons (Op.consume n) ops = omega arith
offered-cons (Op.read_and_consume n) ops = omega arith
offered-cons Op.fill_buf ops = omega arith
offered-cons Op.clear ops = omega arith

-- No sequence of calls tells a valid ring from the bounded queue of its contents, as long as fewer
-- than 2^64 bytes are written in all.
pub run_refines :
    (ops : List Op) {r : Ring}
    → IsValid r
    → r.wpos + offered ops < word
    → run r ops ≡ Queue.run r.len (contents r) ops
unfolding run Queue.run
run_refines [] v h = refl
run_refines (op ∷ ops) {r} v h =
    let room = offered-cons op ops in
    let one = step_refines op v (omega arith) in
    let next = step_counts op v (omega arith) in
    let rest = run_refines ops (step-IsValid op v (omega arith)) (omega arith) in
    ap₂ ◌∷◌ (ap (λ p. p.0) one) (rest ∙ ap₂ (λ c q. Queue.run c q ops) next.0 (ap (λ p. p.1) one))
