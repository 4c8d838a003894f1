-- ===== src/Io/InfiniteRing/Contents.antt =====
-- The bytes that an `InfiniteRing` of src/io/ring.rs holds, under each operation.
use vmap_rs.Prelude.{
  ℕ, suc, zero, List, [], ◌∷◌, ◌++◌, ◌+◌, ◌-◌, ◌<◌, ◌≤◌, ◌≡◌, refl, sym, ap, ap₂, ◌∙◌, min, length,
  take, drop, arith, length-take, length-drop, take-min, drop-append, length-append, dec_lt,
}
use vmap_rs.Word.{word, add_word, sub_word}
use vmap_rs.Std.{ok}
use vmap_rs.Io.Mirror.{
  view, store, length-view, length-store, view-add, view-wrap, store-wrap, view-store_ne,
  view-store_self, take-view, drop-view,
}
use vmap_rs.Io.Traits.{as_read_slice, as_write_slice, fill_slice, read_from, write_into}
use vmap_rs.Io.InfiniteRing.{
  InfiniteRing, infinite_read, infinite_write, read_offset, read_len, write_offset, write_capacity,
  write_len, feed, consume, read, write, write_all,
}
use vmap_rs.Io.InfiniteRing.Inv.{IsValid, feed-IsValid, consume-IsValid}

-- The last bytes written that are not consumed, the oldest first.
abbrev pub contents : InfiniteRing → List ℕ
contents r = view r.mem (r.wpos - r.rlen) r.rlen

pub length-contents : (r : InfiniteRing) → length (contents r) ≡ r.rlen
length-contents r = length-view r.mem (r.wpos - r.rlen) r.rlen

-- What is left of `q` where only `cap` bytes are kept: the last ones.
unfoldable pub keep_last : ℕ → List ℕ → List ℕ
keep_last cap q = drop (length q - cap) q

drop-append_length : (q ys : List ℕ) (m : ℕ) → drop (length q + m) (q ++ ys) ≡ drop m ys
drop-append_length [] ys m = let e : zero + m ≡ m = omega arith in rw e
drop-append_length (x ∷ q) ys m =
    let e : suc (length q) + m ≡ suc (length q + m) = omega arith in
    rw e (drop-append_length q ys m)

-- Bytes that are pushed out in any case need not be written.
pub keep_last-drop :
    (cap : ℕ) (q bs : List ℕ)
    → keep_last cap (q ++ drop (length bs - min cap (length bs)) bs) ≡ keep_last cap (q ++ bs)
unfolding keep_last
keep_last-drop cap q bs = elim (dec_lt cap (length bs)) [
  | yes over ↦
      let t = length bs - min cap (length bs) in
      let len : length (drop t bs) ≡ cap = omega (arith, length-drop t bs) in
      let a : length (q ++ drop t bs) - cap ≡ length q + 0 =
        omega (arith, length-append q (drop t bs)) in
      let b : length (q ++ bs) - cap ≡ length q + t = omega (arith, length-append q bs) in
      rw (a, b) (drop-append_length q (drop t bs) 0 ∙ sym (drop-append_length q bs t))
  | no fits ↦ let t : length bs - min cap (length bs) ≡ 0 = omega arith in rw t
]

pub as_read_slice-eq-take :
    {r : InfiniteRing} (n : ℕ) → IsValid r → as_read_slice r n ≡ take n (contents r)
unfolding as_read_slice read_offset read_len
as_read_slice-eq-take {r} n v =
    let at : sub_word r.wpos r.rlen ≡ r.wpos - r.rlen = omega arith in
    view-wrap r.mem (sub_word r.wpos r.rlen) (min r.rlen n) v.mapped
    ∙ ap (λ x. view r.mem x (min r.rlen n)) at
    ∙ sym (take-view r.mem (r.wpos - r.rlen) n r.rlen)

pub contents-consume :
    {r : InfiniteRing} (n : ℕ) → IsValid r → contents (consume r n) ≡ drop n (contents r)
unfolding consume read_len
contents-consume {r} n v =
    let left : sub_word r.rlen (min n r.rlen) ≡ r.rlen - min n r.rlen = omega arith in
    let at : r.wpos - sub_word r.rlen (min n r.rlen) ≡ r.wpos - r.rlen + min n r.rlen =
      omega arith in
    ap₂ (view r.mem) at left ∙ sym (drop-view r.mem (r.wpos - r.rlen) n r.rlen)

-- Bytes written to the front of the writable slice and fed are appended, and push out the oldest.
pub contents-feed_fill :
    {r : InfiniteRing} (bytes : List ℕ) (m : ℕ)
    → IsValid r
    → length bytes ≤ r.len
    → r.wpos + length bytes < word
    → contents (feed (fill_slice r (write_offset r, m) bytes) (length bytes))
      ≡ keep_last r.len (contents r ++ bytes)
unfolding feed fill_slice write_offset write_len write_capacity keep_last
contents-feed_fill {r} bytes m v fits h =
    let n = length bytes in
    let d = r.rlen + n - r.len in
    let mem = store r.mem r.wpos bytes in
    let from = r.wpos - r.rlen + d in
    let wp : add_word r.wpos (min n r.len) ≡ r.wpos + n = omega arith in
    let rl : min (add_word r.rlen n) r.len ≡ r.rlen - d + n = omega arith in
    let start : add_word r.wpos (min n r.len) - min (add_word r.rlen n) r.len ≡ from =
      omega (arith, wp, rl) in
    let end : from + (r.rlen - d) ≡ r.wpos = omega arith in
    let dropped : min d r.rlen ≡ d = omega arith in
    let over : d ≡ length (contents r ++ bytes) - r.len =
      omega (arith, length-append (contents r) bytes, length-contents r) in
    let old : view mem from (r.rlen - d) ≡ drop d (contents r) =
      view-store_ne r.mem from (r.rlen - d) r.wpos bytes (omega arith) (omega arith)
      ∙ ap (λ k. view r.mem (r.wpos - r.rlen + k) (r.rlen - k)) (sym dropped)
      ∙ sym (drop-view r.mem (r.wpos - r.rlen) d r.rlen) in
    let new : view mem r.wpos n ≡ bytes = view-store_self r.mem r.wpos bytes (omega arith) in
    ap₂ (λ m k. view m k (min (add_word r.rlen n) r.len)) (store-wrap r.mem r.wpos bytes v.mapped)
      start
    ∙ ap (view mem from) rl
    ∙ view-add mem from (r.rlen - d) n
    ∙ ap₂ ◌++◌ old (ap (λ x. view mem x n) end ∙ new)
    ∙ sym (drop-append d (contents r) bytes (omega (arith, length-contents r)))
    ∙ ap (λ k. drop k (contents r ++ bytes)) over

feed_fill-IsValid :
    {r : InfiniteRing} (bytes : List ℕ) (m n : ℕ)
    → IsValid r
    → n ≤ r.len
    → r.wpos + n < word
    → IsValid (feed (fill_slice r (write_offset r, m) bytes) n)
unfolding fill_slice
feed_fill-IsValid {r} bytes m n v le h =
    feed-IsValid n
      (record {
        mapped = length-store r.mem (write_offset r) bytes ∙ v.mapped;
        nonempty = v.nonempty;
        addressable = v.addressable;
        held = v.held;
        written = v.written;
        counted = v.counted;
      })
      le h

-- `write` takes as many bytes as the ring can hold at all; they are appended, and push out the
-- oldest bytes. Fewer than 2^64 bytes are counted in all. The ring is valid.
pub infinite_write_lem :
    {r : InfiniteRing} (bs : List ℕ)
    → IsValid r
    → r.wpos + length bs < word
    → let n = min r.len (length bs) in
      ((write r bs).0 ≡ ok n)
      × (contents (write r bs).1 ≡ keep_last r.len (contents r ++ take n bs))
      × IsValid (write r bs).1
unfolding write write_into as_write_slice write_len write_capacity
infinite_write_lem {r} bs v h =
    let n = min r.len (length bs) in
    let len : length (take n bs) ≡ n = omega (arith, length-take n bs) in
    (
      refl,
      ap (λ k. contents (feed (fill_slice r (write_offset r, n) (take n bs)) k)) (sym len)
          ∙ contents-feed_fill (take n bs) n v (omega arith) (omega arith),
      feed_fill-IsValid (take n bs) n n v (omega arith) (omega arith),
    )

-- `write_all` always succeeds, and leaves the last bytes of the old contents and all of `buf`. The
-- ring is valid and fewer than 2^64 bytes are counted with these.
pub write_all_lem :
    {r : InfiniteRing} (bs : List ℕ)
    → IsValid r
    → r.wpos + length bs < word
    → ((write_all r bs).0 ≡ ok tt)
      × (contents (write_all r bs).1 ≡ keep_last r.len (contents r ++ bs))
      × IsValid (write_all r bs).1
unfolding write_all as_write_slice write_len write_capacity
write_all_lem {r} bs v h =
    let n = min r.len (length bs) in
    let kept = drop (length bs - n) bs in
    let len : length kept ≡ n = omega (arith, length-drop (length bs - n) bs) in
    (
      refl,
      ap (λ k. contents (feed (fill_slice r (write_offset r, n) kept) k)) (sym len)
          ∙ contents-feed_fill kept n v (omega arith) (omega arith)
          ∙ keep_last-drop r.len (contents r) bs,
      feed_fill-IsValid kept n n v (omega arith) (omega arith),
    )

-- `read` copies the oldest bytes, as many as the ring holds and `into` has room for, to the front
-- of `into` and consumes them; the invariant stays. The ring is valid.
pub infinite_read_lem :
    {r : InfiniteRing} (into : List ℕ)
    → IsValid r
    → let n = min (read_len r) (length into) in
      ((read r into).0 ≡ ok n)
      × ((read r into).1 ≡ take n (contents r) ++ drop n into)
      × (contents (read r into).2 ≡ drop n (contents r))
      × IsValid (read r into).2
unfolding read read_from read_len
infinite_read_lem {r} into v =
    let n = min r.rlen (length into) in
    let src : as_read_slice r (length into) ≡ take n (contents r) =
      as_read_slice-eq-take (length into) v
      ∙ take-min (length into) (contents r)
      ∙ ap (λ k. take (min k (length into)) (contents r)) (length-contents r) in
    let len : length (as_read_slice r (length into)) ≡ n =
      omega (arith, ap length src, length-take n (contents r), length-contents r) in
    rw (len, src) (refl, refl, contents-consume n v, consume-IsValid n v)
