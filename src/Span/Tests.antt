-- ===== src/Span/Tests.antt =====
-- Reads and writes of `u16` and `u8` in a span of six bytes.
use vmap_rs.Prelude.{ℕ, ◌+◌, ◌<◌, ◌≤◌, ◌≡◌, refl, ◌⊎◌, List, [], ◌∷◌, length, arith}
use vmap_rs.Span.{Span, Scalar, undefined, made, read_unaligned, write_unaligned}
use vmap_rs.Span.Checks.{ScalarLaws, Panics, Made, accesses_checked, accesses_wrap, write-read}

-- A `u16` as its bytes, the low one first.
record U16 : Type 0 where
  low : ℕ
  high : ℕ

abbrev u16_of : List ℕ → U16
u16_of [] = record { low = 0; high = 0 }
u16_of (a ∷ []) = record { low = a; high = 0 }
u16_of (a ∷ b ∷ _) = record { low = a; high = b }

instance abbrev u16 : Scalar U16
u16 = record { size = 2; align = 2; to_bytes = λ v. v.low ∷ v.high ∷ []; of_bytes = u16_of }

u16-ScalarLaws : ScalarLaws u16
u16-ScalarLaws = record { long = λ v. refl; same = λ v. refl }

abbrev first_of : List ℕ → ℕ
first_of [] = 0
first_of (a ∷ _) = a

instance abbrev u8 : Scalar ℕ
u8 = record { size = 1; align = 1; to_bytes = λ v. v ∷ []; of_bytes = first_of }

abbrev six_bytes : Span
six_bytes = record { ptr = 4096; bytes = 1 ∷ 2 ∷ 3 ∷ 4 ∷ 5 ∷ 6 ∷ [] }

abbrev value : U16
value = record { low = 200; high = 100 }

accesses_checked_example : (6 < 5 → Panics six_bytes 3 value) × (5 ≤ 6 → Made six_bytes 3 value)
accesses_checked_example = accesses_checked six_bytes 3 value (omega arith)

accesses_wrap_example :
    (read_unaligned ⦃t = u16⦄ six_bytes 18446744073709551615 ≡ undefined)
    × (write_unaligned six_bytes 18446744073709551615 value ≡ undefined)
accesses_wrap_example =
    accesses_wrap six_bytes 18446744073709551615 value (omega arith) (omega arith) (omega arith)
      (omega arith) (omega arith)

write-read_example :
    (s' : Span) × (write_unaligned six_bytes 3 value ≡ made s')
    × (s'.ptr ≡ 4096)
    × (length s'.bytes ≡ 6)
    × (read_unaligned s' 3 ≡ made value)
    × ((i : ℕ) → (i + 1 ≤ 3) ⊎ (5 ≤ i) → read_unaligned ⦃t = u8⦄ s' i ≡ read_unaligned six_bytes i)
write-read_example = write-read u16-ScalarLaws six_bytes 3 value (omega arith) (omega arith)
