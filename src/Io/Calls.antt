-- ===== src/Io/Calls.antt =====
-- What a client can ask of a `Ring` of src/io/ring.rs, and what it sees of each call.
use vmap_rs.Prelude.{ℕ, ◌+◌, List, [], ◌∷◌, length}
use vmap_rs.Std.{IoResult}

pub data Op : Type 0 where
  write : List ℕ → Op
  read : List ℕ → Op
  consume : ℕ → Op
  read_and_consume : ℕ → Op
  fill_buf : Op
  clear : Op

pub data Reply : Type 0 where
  count : IoResult ℕ → Reply
  count_into : IoResult ℕ → List ℕ → Reply
  slice : List ℕ → Reply
  filled : IoResult (List ℕ) → Reply
  done : Reply

-- The bytes that the calls offer to write.
abbrev pub offered : List Op → ℕ
offered [] = 0
offered (write bs ∷ ops) = length bs + offered ops
offered (_ ∷ ops) = offered ops
