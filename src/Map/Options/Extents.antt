-- ===== src/Map/Options/Extents.antt =====
-- The lengths that `resize` and `len` of src/map.rs ask for.
use vmap_rs.Prelude.{
  ℕ, ◌<◌, ◌≤◌, ◌≡◌, refl, ◌⊎◌, inl, inr, min, max, none, some, ltb, if◌then◌else◌, ltb→lt,
  ltb-false→le, Bool-cases, arith,
}
use vmap_rs.Word.{word}
use vmap_rs.Std.{ok}
use vmap_rs.Types.{Extent}
use vmap_rs.Os.{Files}
use vmap_rs.Map.Options.{Options, match_len}

-- What `std::fs` documents of a file's length, `len_of`: `metadata` tells it and leaves it, and
-- `set_len` sets it.
pub record FileLaws {St : Type 0} (files : Files St) (len_of : ℕ → St → ℕ) : Type 0 where
  pub on_metadata :
      (f : ℕ) (st : St) (n : ℕ) (st' : St)
      → files.metadata_len f st ≡ (ok n, st')
      → (n ≡ len_of f st) × (len_of f st' ≡ len_of f st)
  pub on_set :
      (f n : ℕ) (st : St) (u : Unit {0}) (st' : St)
      → files.set_len f n st ≡ (ok u, st')
      → len_of f st' ≡ n
  pub fits : (f : ℕ) (st : St) → len_of f st < word

-- The calls of `std::fs` on the file `f` that lead from one state to another.
pub data FileSteps {St : Type 0} (files : Files St) (f : ℕ) (st : St) : St → Type 0 where
  here : FileSteps files f st st
  by_metadata :
      {st1 st2 : St} (n : ℕ)
      → FileSteps files f st st1
      → files.metadata_len f st1 ≡ (ok n, st2)
      → FileSteps files f st st2
  by_set :
      {st1 st2 : St} (n : ℕ) (u : Unit {0})
      → FileSteps files f st st1
      → files.set_len f n st1 ≡ (ok u, st2)
      → FileSteps files f st st2

-- The length that the options ask for, from the length that the file has.
abbrev pub resized : Extent → ℕ → ℕ
resized Extent.end n = n
resized (Extent.exact sz) n = sz
resized (Extent.min sz) n = max sz n
resized (Extent.max sz) n = min sz n

abbrev pub final_len : Options → ℕ → ℕ
final_len o n = resized o.resize (if o.truncate then 0 else n)

-- The bytes that must be there, and the length that is mapped where `room` bytes are.
abbrev pub least : Extent → ℕ
least Extent.end = 0
least (Extent.exact l) = l
least (Extent.min l) = l
least (Extent.max l) = 0

abbrev pub chosen : Extent → ℕ → ℕ
chosen Extent.end room = room
chosen (Extent.exact l) room = l
chosen (Extent.min l) room = room
chosen (Extent.max l) room = min l room

pub match_len_lem :
    (e : Extent) (room : ℕ)
    → ((match_len e room ≡ none) × (room < least e))
      ⊎ ((match_len e room ≡ some (chosen e room)) × (least e ≤ room) × (chosen e room ≤ room))
unfolding match_len
match_len_lem Extent.end room = inr (refl, omega arith, omega arith)
match_len_lem (Extent.exact l) room = elim (Bool-cases (ltb room l)) [
  | inl h ↦ inl (rw h, ltb→lt room l h)
  | inr h ↦ inr (rw h, ltb-false→le room l h, ltb-false→le room l h)
]
match_len_lem (Extent.min l) room = elim (Bool-cases (ltb room l)) [
  | inl h ↦ inl (rw h, ltb→lt room l h)
  | inr h ↦ inr (rw h, ltb-false→le room l h, omega arith)
]
match_len_lem (Extent.max l) room = inr (refl, omega arith, omega arith)
