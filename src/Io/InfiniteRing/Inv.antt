-- ===== src/Io/InfiniteRing/Inv.antt =====
-- The invariant of `InfiniteRing` of src/io/ring.rs, and the offsets of its slices.
use native.Mathlib.Nat.{mod-lt}
use vmap_rs.Prelude.{ℕ, ◌+◌, ◌*◌, ◌<◌, ◌≤◌, ◌≡◌, length, arith}
use vmap_rs.Word.{word, sub_word}
use vmap_rs.Io.InfiniteRing.{
  InfiniteRing, read_offset, read_len, write_offset, write_capacity, write_len, feed, consume,
}

-- The last `rlen` of the `wpos` bytes written are held.
pub record IsValid (r : InfiniteRing) : Type 0 where
  pub mapped : length r.mem ≡ r.len
  pub nonempty : 0 < r.len
  pub addressable : 2 * r.len ≤ word
  pub held : r.rlen ≤ r.len
  pub written : r.rlen ≤ r.wpos
  pub counted : r.wpos < word

-- The readable and the writable slice lie in the two halves of the mapping.
pub infinite_slices_in_bounds :
    {r : InfiniteRing}
    → IsValid r
    → (read_offset r + read_len r < 2 * r.len) × (write_offset r + write_len r < 2 * r.len)
unfolding read_offset read_len write_offset write_len write_capacity
infinite_slices_in_bounds {r} v =
    omega (arith, mod-lt (sub_word r.wpos r.rlen) v.nonempty, mod-lt r.wpos v.nonempty)

pub feed-IsValid :
    {r : InfiniteRing} (n : ℕ) → IsValid r → n ≤ r.len → r.wpos + n < word → IsValid (feed r n)
unfolding feed write_len write_capacity
feed-IsValid {r} n v le h = omega arith

pub consume-IsValid : {r : InfiniteRing} (n : ℕ) → IsValid r → IsValid (consume r n)
unfolding consume read_len
consume-IsValid {r} n v = omega arith
