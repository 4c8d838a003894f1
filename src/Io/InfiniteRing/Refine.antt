-- ===== src/Io/InfiniteRing/Refine.antt =====
-- `InfiniteRing` of src/io/ring.rs, call by call, against the queue of `Io.InfiniteRing.Queue`.
use vmap_rs.Prelude.{List, [], ◌∷◌, ◌+◌, ◌<◌, ◌≤◌, ◌≡◌, refl, ap, ap₂, ◌∙◌, take_all, arith}
use vmap_rs.Word.{word, max_word}
use vmap_rs.Std.{ok}
use vmap_rs.Io.Traits.{as_read_slice, read_from, write_into, fill_slice, as_write_slice}
use vmap_rs.Io.InfiniteRing.Queue
use vmap_rs.Io.InfiniteRing.Queue.{Op, Reply, offered}
use vmap_rs.Io.InfiniteRing.{
  InfiniteRing, infinite_read, read_len, write_len, write_capacity, feed, consume, read, write,
  write_all, fill_buf,
}
use vmap_rs.Io.InfiniteRing.Inv.{IsValid, consume-IsValid}
use vmap_rs.Io.InfiniteRing.Contents.{
  contents, length-contents, as_read_slice-eq-take, contents-consume, infinite_write_lem,
  infinite_read_lem, write_all_lem,
}

-- One call of a client; `consume` returns nothing.
unfoldable pub step : InfiniteRing → Op → Reply × InfiniteRing
step r (Op.write bs) = let (n, r') = write r bs in (Reply.count n, r')
step r (Op.write_all bs) = let (u, r') = write_all r bs in (Reply.done u, r')
step r (Op.read into) = let (n, into', r') = read r into in (Reply.count_into n into', r')
step r (Op.consume n) = (Reply.done (ok tt), consume r n)
step r Op.fill_buf = (Reply.filled (fill_buf r), r)

pub run : InfiniteRing → List Op → List Reply
run r [] = []
run r (op ∷ ops) = let (reply, r') = step r op in reply ∷ run r' ops

read_all : {r : InfiniteRing} → IsValid r → as_read_slice r max_word ≡ contents r
read_all {r} v =
    as_read_slice-eq-take max_word v
    ∙ take_all max_word (contents r) (omega (arith, length-contents r, v.held, v.addressable))

step_refines :
    {r : InfiniteRing} (op : Op)
    → IsValid r
    → r.wpos + offered (op ∷ []) < word
    → let (reply, r') = step r op in
      ((reply, contents r') ≡ Queue.step r.len (contents r) op) × IsValid r'
unfolding step fill_buf read_len Queue.step
step_refines {r} (Op.write bs) v h =
    let (answer, left, valid) = infinite_write_lem bs v (omega arith) in
    (ap₂ (λ n q. (Reply.count n, q)) answer left, valid)
step_refines {r} (Op.write_all bs) v h =
    let (answer, left, valid) = write_all_lem bs v (omega arith) in
    (ap₂ (λ u q. (Reply.done u, q)) answer left, valid)
step_refines {r} (Op.read into) v h =
    let (answer, left, rest, valid) = infinite_read_lem into v in
    rw (answer, left, rest, length-contents r) (refl, valid)
step_refines {r} (Op.consume n) v h =
    (ap (λ q. (Reply.done (ok tt), q)) (contents-consume n v), consume-IsValid n v)
step_refines {r} Op.fill_buf v h = (ap (λ q. (Reply.filled (ok q), contents r)) (read_all v), v)

-- A call keeps the capacity, and counts at most the bytes that it offers.
step_counts :
    {r : InfiniteRing} (op : Op)
    → IsValid r
    → r.wpos + offered (op ∷ []) < word
    → ((step r op).1.len ≡ r.len) × ((step r op).1.wpos ≤ r.wpos + offered (op ∷ []))
unfolding step consume read read_from write write_all write_into feed fill_slice as_write_slice
    write_len write_capacity
step_counts {r} (Op.write bs) v h = omega arith
step_counts {r} (Op.write_all bs) v h = omega arith
step_counts {r} (Op.read into) v h = omega arith
step_counts {r} (Op.consume n) v h = omega arith
step_counts {r} Op.fill_buf v h = omega arith

offered-cons : (op : Op) (ops : List Op) → offered (op ∷ ops) ≡ offered (op ∷ []) + offered ops
offered-cons (Op.write bs) ops = omega arith
offered-cons (Op.write_all bs) ops = omega arith
offered-cons (Op.read into) ops = omega arith
offered-cons (Op.consume n) ops = omega arith
offered-cons Op.fill_buf ops = omega arith

-- No sequence of calls tells a valid `InfiniteRing` from the queue that keeps the last bytes, as
-- long as fewer than 2^64 bytes are written in all.
pub infinite_run_refines :
    (ops : List Op) {r : InfiniteRing}
    → IsValid r
    → r.wpos + offered ops < word
    → run r ops ≡ Queue.run r.len (contents r) ops
unfolding run Queue.run
infinite_run_refines [] v h = refl
infinite_run_refines (op ∷ ops) {r} v h =
    let room = offered-cons op ops in
    let one = step_refines op v (omega arith) in
    let next = step_counts op v (omega arith) in
    let rest = infinite_run_refines ops one.1 (omega arith) in
    ap₂ ◌∷◌ (ap (λ p. p.0) one.0)
      (rest ∙ ap₂ (λ c q. Queue.run c q ops) next.0 (ap (λ p. p.1) one.0))
