-- ===== src/Io/InfiniteRing/Queue.antt =====
-- The abstract queue for `InfiniteRing` of src/io/ring.rs: of the bytes offered it keeps the last.
use vmap_rs.Prelude.{ℕ, ◌+◌, List, [], ◌∷◌, ◌++◌, min, length, take, drop}
use vmap_rs.Std.{IoResult, ok}
use vmap_rs.Io.InfiniteRing.Contents.{keep_last}

pub data Op : Type 0 where
  write : List ℕ → Op
  write_all : List ℕ → Op
  read : List ℕ → Op
  consume : ℕ → Op
  fill_buf : Op

pub data Reply : Type 0 where
  count : IoResult ℕ → Reply
  count_into : IoResult ℕ → List ℕ → Reply
  filled : IoResult (List ℕ) → Reply
  done : IoResult (Unit {0}) → Reply

-- The bytes that the calls offer to write.
abbrev pub offered : List Op → ℕ
offered [] = 0
offered (write bs ∷ ops) = length bs + offered ops
offered (write_all bs ∷ ops) = length bs + offered ops
offered (_ ∷ ops) = offered ops

-- One call on a queue that keeps at most `cap` bytes.
unfoldable pub step : ℕ → List ℕ → Op → Reply × List ℕ
step cap q (write bs) =
    let n = min cap (length bs) in (count (ok n), keep_last cap (q ++ take n bs))
step cap q (write_all bs) = (done (ok tt), keep_last cap (q ++ bs))
step cap q (read into) =
    let n = min (length q) (length into) in (count_into (ok n) (take n q ++ drop n into), drop n q)
step cap q (consume n) = (done (ok tt), drop n q)
step cap q fill_buf = (filled (ok q), q)

unfoldable pub run : ℕ → List ℕ → List Op → List Reply
run cap q [] = []
run cap q (op ∷ ops) = let (reply, q') = step cap q op in reply ∷ run cap q' ops
