-- ===== src/Io/Ring/Inv.antt =====
-- The invariant of `Ring` of src/io/ring.rs, and the offsets of its slices.
use native.Mathlib.Nat.{mod-lt}
use vmap_rs.Prelude.{ℕ, ◌+◌, ◌-◌, ◌*◌, ◌<◌, ◌≤◌, ◌≡◌, refl, length, arith}
use vmap_rs.Word.{word}
use vmap_rs.Io.Ring.{
  Ring, read_offset, read_len, write_offset, write_capacity, write_len, feed, consume, clear,
}

-- The mapping has `len` bytes twice over, so `2 * len` fits the address space; `wpos` counts the
-- bytes written, of which the last `wpos - rpos` are held.
pub record IsValid (r : Ring) : Type 0 where
  pub mapped : length r.mem ≡ r.len
  pub nonempty : 0 < r.len
  pub addressable : 2 * r.len ≤ word
  pub ordered : r.rpos ≤ r.wpos
  pub bounded : r.wpos ≤ r.rpos + r.len
  pub counted : r.wpos < word

pub read_len_lem : {r : Ring} → IsValid r → read_len r ≡ r.wpos - r.rpos
unfolding read_len
read_len_lem v = omega arith

pub write_len_lem : {r : Ring} → IsValid r → write_len r ≡ r.len - (r.wpos - r.rpos)
unfolding write_len write_capacity
write_len_lem v = omega (arith, read_len_lem v)

-- The readable and the writable slice lie in the two halves of the mapping, and together they are
-- as long as the ring.
pub slices_in_bounds :
    {r : Ring}
    → IsValid r
    → (read_offset r + read_len r < 2 * r.len)
      × (write_offset r + write_len r < 2 * r.len)
      × (read_len r + write_len r ≡ write_capacity r)
unfolding read_offset write_offset write_capacity
slices_in_bounds {r} v =
    omega
      (arith, read_len_lem v, write_len_lem v, mod-lt r.rpos v.nonempty, mod-lt r.wpos v.nonempty)

-- `feed` keeps the invariant, unless it counts past the last `u64`.
pub feed-IsValid : {r : Ring} (n : ℕ) → IsValid r → r.wpos + n < word → IsValid (feed r n)
unfolding feed
feed-IsValid {r} n v h = omega (arith, write_len_lem v)

pub consume-IsValid : {r : Ring} (n : ℕ) → IsValid r → IsValid (consume r n)
unfolding consume
consume-IsValid {r} n v = omega (arith, read_len_lem v)

pub clear-IsValid : {r : Ring} → IsValid r → IsValid (clear r)
unfolding clear
clear-IsValid v = omega arith

pub wpos-consume : (r : Ring) (n : ℕ) → (consume r n).wpos ≡ r.wpos
unfolding consume
wpos-consume r n = refl

pub len-consume : (r : Ring) (n : ℕ) → (consume r n).len ≡ r.len
unfolding consume
len-consume r n = refl
