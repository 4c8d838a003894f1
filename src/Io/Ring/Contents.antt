-- ===== src/Io/Ring/Contents.antt =====
-- The bytes that a `Ring` of src/io/ring.rs holds, under each operation.
use vmap_rs.Prelude.{
  ℕ, List, [], ◌++◌, ◌+◌, ◌-◌, ◌%◌, ◌<◌, ◌≤◌, ◌≡◌, refl, sym, subst, ap, ap₂, ◌∙◌, min, length,
  take, drop, arith, length-take, take_all, take-take, take-min,
}
use vmap_rs.Word.{word, add_word, max_word}
use vmap_rs.Std.{ok}
use vmap_rs.Io.Mirror.{
  view, store, length-view, length-store, view-add, view-wrap, store-wrap, view-store_ne,
  view-store_self, take-view, drop-view,
}
use vmap_rs.Io.Traits.{as_read_slice, as_write_slice, fill_slice, read_from, write_into}
use vmap_rs.Io.Ring.{
  Ring, ring_read, ring_write, read_offset, read_len, write_offset, write_capacity, write_len, feed,
  consume, clear, read_and_consume, read, write,
}
use vmap_rs.Io.Ring.Inv.{IsValid, read_len_lem, write_len_lem, feed-IsValid, consume-IsValid}

-- The bytes written and not yet consumed, the oldest first.
abbrev pub contents : Ring → List ℕ
contents r = view r.mem r.rpos (r.wpos - r.rpos)

pub length-contents : {r : Ring} → IsValid r → length (contents r) ≡ read_len r
length-contents {r} v = length-view r.mem r.rpos (r.wpos - r.rpos) ∙ sym (read_len_lem v)

pub as_read_slice-eq-take : {r : Ring} (n : ℕ) → IsValid r → as_read_slice r n ≡ take n (contents r)
unfolding as_read_slice read_offset
as_read_slice-eq-take {r} n v =
    let k = r.wpos - r.rpos in
    view-wrap r.mem r.rpos (min (read_len r) n) v.mapped
    ∙ ap (λ x. view r.mem r.rpos (min x n)) (read_len_lem v)
    ∙ sym (take-view r.mem r.rpos n k)

-- All of it, in one slice.
pub as_read_slice_all : {r : Ring} → IsValid r → as_read_slice r max_word ≡ contents r
as_read_slice_all {r} v =
    as_read_slice-eq-take max_word v
    ∙ take_all max_word (contents r) (omega (arith, length-contents v, read_len_lem v))

pub contents-consume : {r : Ring} (n : ℕ) → IsValid r → contents (consume r n) ≡ drop n (contents r)
unfolding consume
contents-consume {r} n v =
    let k = r.wpos - r.rpos in
    let at : add_word r.rpos (min n (read_len r)) ≡ r.rpos + min n k =
      omega (arith, read_len_lem v) in
    let left : r.wpos - add_word r.rpos (min n (read_len r)) ≡ k - min n k =
      omega (arith, read_len_lem v) in
    ap₂ (view r.mem) at left ∙ sym (drop-view r.mem r.rpos n k)

write_len-mem : (r : Ring) (m : List ℕ) → write_len (record r { mem = m }) ≡ write_len r
unfolding write_len read_len write_capacity
write_len-mem r m = refl

-- What is copied to the writable slice does not show until it is fed.
pub contents-fill :
    {r : Ring} (bytes : List ℕ) (m : ℕ)
    → IsValid r
    → length bytes ≤ write_len r
    → contents (fill_slice r (write_offset r, m) bytes) ≡ contents r
unfolding fill_slice write_offset
contents-fill {r} bytes m v fits =
    let k = r.wpos - r.rpos in
    ap (λ mem. view mem r.rpos k) (store-wrap r.mem r.wpos bytes v.mapped)
    ∙ view-store_ne r.mem r.rpos k r.wpos bytes (omega arith) (omega (arith, write_len_lem v))

-- Bytes copied to the front of the writable slice, of which `n` are then fed, are appended; what
-- the slice holds past them does not matter.
pub contents-feed_fill :
    {r : Ring} (bytes : List ℕ) (m n : ℕ)
    → IsValid r
    → length bytes ≤ write_len r
    → n ≤ length bytes
    → r.wpos + n < word
    → contents (feed (fill_slice r (write_offset r, m) bytes) n) ≡ contents r ++ take n bytes
unfolding feed fill_slice write_offset
contents-feed_fill {r} bytes m n v fits le h =
    let k = r.wpos - r.rpos in
    let free = write_len_lem v in
    let mem = store r.mem r.wpos bytes in
    let at : add_word r.wpos
          (min n (write_len (record r { mem = store r.mem (r.wpos % r.len) bytes })))
        ≡ r.wpos + n =
      omega (arith, write_len-mem r (store r.mem (r.wpos % r.len) bytes)) in
    let more : r.wpos + n - r.rpos ≡ k + n = omega arith in
    let end : r.rpos + k ≡ r.wpos = omega arith in
    let old : view mem r.rpos k ≡ contents r =
      view-store_ne r.mem r.rpos k r.wpos bytes (omega arith) (omega arith) in
    let new : view mem r.wpos n ≡ take n bytes =
      let e : min (length bytes) n ≡ n = omega arith in
      ap (view mem r.wpos) (sym e)
      ∙ sym (take-view mem r.wpos n (length bytes))
      ∙ ap (take n) (view-store_self r.mem r.wpos bytes (omega arith)) in
    ap₂ (λ m x. view m r.rpos (x - r.rpos)) (store-wrap r.mem r.wpos bytes v.mapped) at
    ∙ ap (view mem r.rpos) more
    ∙ view-add mem r.rpos k n
    ∙ ap₂ ◌++◌ old (ap (λ x. view mem x n) end ∙ new)

pub fill-IsValid :
    {r : Ring} (bytes : List ℕ) (m : ℕ)
    → IsValid r
    → IsValid (fill_slice r (write_offset r, m) bytes)
unfolding fill_slice
fill-IsValid {r} bytes m v = record {
  mapped = length-store r.mem (write_offset r) bytes ∙ v.mapped;
  nonempty = v.nonempty;
  addressable = v.addressable;
  ordered = v.ordered;
  bounded = v.bounded;
  counted = v.counted;
}

pub feed_fill-IsValid :
    {r : Ring} (bytes : List ℕ) (m n : ℕ)
    → IsValid r
    → r.wpos + n < word
    → IsValid (feed (fill_slice r (write_offset r, m) bytes) n)
unfolding fill_slice
feed_fill-IsValid bytes m n v h = feed-IsValid n (fill-IsValid bytes m v) h

-- What `write` takes: as many bytes as both the source and the free space have.
abbrev pub accepted : Ring → List ℕ → ℕ
accepted r bs = min (write_len r) (length bs)

pub write_lem :
    {r : Ring} (bs : List ℕ)
    → IsValid r
    → r.wpos + length bs < word
    → ((write r bs).0 ≡ ok (accepted r bs))
      × (contents (write r bs).1 ≡ contents r ++ take (accepted r bs) bs)
      × IsValid (write r bs).1
unfolding write write_into as_write_slice
write_lem {r} bs v h =
    let n = accepted r bs in
    let len : length (take n bs) ≡ n = omega (arith, length-take n bs) in
    let e : min n n ≡ n = omega arith in
    (
      refl,
      contents-feed_fill (take n bs) n n v (omega arith) (omega arith) (omega arith)
          ∙ ap (λ l. contents r ++ l) (take-take n n bs ∙ ap (λ k. take k bs) e),
      feed_fill-IsValid (take n bs) n n v (omega arith),
    )

pub read_lem :
    {r : Ring} (into : List ℕ)
    → IsValid r
    → let n = min (read_len r) (length into) in
      ((read r into).0 ≡ ok n)
      × ((read r into).1 ≡ take n (contents r) ++ drop n into)
      × (contents (read r into).2 ≡ drop n (contents r))
      × IsValid (read r into).2
unfolding read read_from
read_lem {r} into v =
    let n = min (read_len r) (length into) in
    let src : as_read_slice r (length into) ≡ take n (contents r) =
      as_read_slice-eq-take (length into) v
      ∙ take-min (length into) (contents r)
      ∙ ap (λ k. take (min k (length into)) (contents r)) (length-contents v) in
    let len : length (as_read_slice r (length into)) ≡ n =
      omega (arith, ap length src, length-take n (contents r), length-contents v) in
    rw (len, src) (refl, refl, contents-consume n v, consume-IsValid n v)

pub read_and_consume_lem :
    {r : Ring} (n : ℕ)
    → IsValid r
    → ((read_and_consume r n).0 ≡ take n (contents r))
      × (contents (read_and_consume r n).1 ≡ drop n (contents r))
      × IsValid (read_and_consume r n).1
unfolding read_and_consume consume as_read_slice
read_and_consume_lem {r} n v =
    let comm : min n (read_len r) ≡ min (read_len r) n = omega arith in
    let same : consume r n ≡ (read_and_consume r n).1 =
      ap (λ k. record r { rpos = add_word r.rpos k }) comm in
    (
      as_read_slice-eq-take n v,
      ap contents (sym same) ∙ contents-consume n v,
      subst IsValid same (consume-IsValid n v),
    )

pub clear_lem : {r : Ring} → IsValid r → contents (clear r) ≡ []
unfolding clear view
clear_lem v = refl
