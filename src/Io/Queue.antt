-- ===== src/Io/Queue.antt =====
-- The abstract bounded queue for `Ring` of src/io/ring.rs: its bytes, the oldest first.
use vmap_rs.Prelude.{ℕ, ◌-◌, List, [], ◌∷◌, ◌++◌, min, length, take, drop}
use vmap_rs.Std.{ok}
use vmap_rs.Io.Calls.{Op, write, read, consume, read_and_consume, fill_buf, clear}
use vmap_rs.Io.Calls.{Reply, count, count_into, slice, filled, done}

-- One call on a queue of at most `cap` bytes.
unfoldable pub step : ℕ → List ℕ → Op → Reply × List ℕ
step cap q (write bs) = let n = min (cap - length q) (length bs) in (count (ok n), q ++ take n bs)
step cap q (read into) =
    let n = min (length q) (length into) in (count_into (ok n) (take n q ++ drop n into), drop n q)
step cap q (consume n) = (done, drop n q)
step cap q (read_and_consume n) = (slice (take n q), drop n q)
step cap q fill_buf = (filled (ok q), q)
step cap q clear = (done, [])

unfoldable pub run : ℕ → List ℕ → List Op → List Reply
run cap q [] = []
run cap q (op ∷ ops) = let (reply, q') = step cap q op in reply ∷ run cap q' ops
