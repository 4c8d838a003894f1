-- ===== src/Error/Names.antt =====
-- `Operation` and `Input` of src/error.rs, and the fragments of messages that they print as.
use Prim.Native.String.{String}
use mathlib.Core.Option.{Option}
use vmap_rs.Prelude.{◌≡◌, refl, sym, ap, ◌∙◌, if◌then◌else◌}
use text.Mathlib.Text.{◌==◌ as str_eq}

pub data Operation : Type 0 where
  map_file map_file_handle map_file_view : Operation
  map_anonymous map_anonymous_handle map_anonymous_view : Operation
  unmap protect advise lock unlock flush : Operation
  ring_allocate ring_deallocate ring_entry ring_primary ring_secondary : Operation
  memory_fd none : Operation

pub data Input : Type 0 where
  invalid_range : Input

unfoldable pub as_str : Operation → Option String
as_str map_file = Option.some "map file"
as_str map_file_handle = Option.some "map file handle"
as_str map_file_view = Option.some "map file view"
as_str map_anonymous = Option.some "map anonymous"
as_str map_anonymous_handle = Option.some "map anonymous handle"
as_str map_anonymous_view = Option.some "map anonymous view"
as_str unmap = Option.some "unmap"
as_str protect = Option.some "protect mapped memory"
as_str advise = Option.some "advise mapped memory"
as_str lock = Option.some "lock mapped memory"
as_str unlock = Option.some "unlock mapped memory"
as_str flush = Option.some "flush mapped memory"
as_str ring_allocate = Option.some "allocate full ring"
as_str ring_deallocate = Option.some "deallocate full ring"
as_str ring_entry = Option.some "make ring memory entry"
as_str ring_primary = Option.some "map ring first half"
as_str ring_secondary = Option.some "map ring second half"
as_str memory_fd = Option.some "open memory fd"
as_str none = Option.none

unfoldable pub input_str : Input → String
input_str invalid_range = "invalid range"

-- `Display for Operation`
unfoldable pub fmt : Operation → String
fmt op = elim (as_str op) [ Option.none ↦ "" | Option.some s ↦ s ]

-- The operation that a message belongs to.
abbrev named : Operation → String → Operation → Operation
named op s other = elim (as_str op) [
  | Option.none ↦ other
  | Option.some t ↦ if str_eq s t then op else other
]

parse : Option String → Operation
unfolding as_str
parse Option.none = none
parse (Option.some s) = named map_file s (
    named map_file_handle s (
      named map_file_view s (
        named map_anonymous s (
          named map_anonymous_handle s (
            named map_anonymous_view s (
              named unmap s (
                named protect s (
                  named advise s (
                    named lock s (
                      named unlock s (
                        named flush s (
                          named ring_allocate s (
                            named ring_deallocate s (
                              named ring_entry s (
                                named ring_primary s
                                  (named ring_secondary s (named memory_fd s none)))))))))))))))))

parse-as_str : (op : Operation) → parse (as_str op) ≡ op
unfolding parse
parse-as_str map_file = refl
parse-as_str map_file_handle = refl
parse-as_str map_file_view = refl
parse-as_str map_anonymous = refl
parse-as_str map_anonymous_handle = refl
parse-as_str map_anonymous_view = refl
parse-as_str unmap = refl
parse-as_str protect = refl
parse-as_str advise = refl
parse-as_str lock = refl
parse-as_str unlock = refl
parse-as_str flush = refl
parse-as_str ring_allocate = refl
parse-as_str ring_deallocate = refl
parse-as_str ring_entry = refl
parse-as_str ring_primary = refl
parse-as_str ring_secondary = refl
parse-as_str memory_fd = refl
parse-as_str none = refl

-- Two operations with one message are one operation.
pub as_str-injective : (a b : Operation) → as_str a ≡ as_str b → a ≡ b
as_str-injective a b e = sym (parse-as_str a) ∙ ap parse e ∙ parse-as_str b
