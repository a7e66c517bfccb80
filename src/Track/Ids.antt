-- ===== src/Track/Ids.antt =====
-- The ids of bars: `next_property_block_id` (domain/file/storage/storage.rs), with the decimal
-- printing and the `str::parse::<u32>` of the standard library that it uses.
pub mod Fresh
use thaum_painter.Base.{ℕ, zero, suc, ◌+◌, ◌-◌, ◌*◌, ◌%◌, Bool, true, false, ◌&&◌, Option}
use thaum_painter.Base.{none, some, List, [], ◌∷◌, ◌++◌, length, if◌then◌else◌, ltb, leb, ◌==◌}
use thaum_painter.Base.Text.{Text, codes, text_eq, contains}
use thaum_painter.Track.Block.{SharedDocumentPropertyBlock as Block}
use Prim.Native.Nat.{◌/◌}

-- The digits of `n` before those of `acc`; `n` needs at most `n + 1` digits.
unfoldable pub print_digits : ℕ → ℕ → Text → Text
print_digits zero n acc = acc
print_digits (suc fuel) n acc =
    let digit = n % 10 + 48 in
    elim (ltb n 10) [ true ↦ digit ∷ acc | false ↦ print_digits fuel (n / 10) (digit ∷ acc) ]

unfoldable pub print_u32 : ℕ → Text
unfolding print_digits
print_u32 n = print_digits (n + 1) n []

-- `none` for a character that is no digit and for a value above `u32::MAX`.
unfoldable pub parse_digits : ℕ → Text → Option ℕ
parse_digits value [] = some value
parse_digits value (c ∷ cs) =
    let value' = value * 10 + (c - 48) in
    let rest = parse_digits value' cs in
    if leb 48 c && leb c 57 then (if leb value' 4294967295 then rest else none) else none

unfoldable pub parse_u32 : Text → Option ℕ
unfolding parse_digits
parse_u32 [] = none
parse_u32 (c ∷ []) = if c == 43 then none else parse_digits 0 (c ∷ [])
parse_u32 (c ∷ d ∷ cs) = if c == 43 then parse_digits 0 (d ∷ cs) else parse_digits 0 (c ∷ d ∷ cs)

unfoldable pub strip_prefix : Text → Text → Option Text
strip_prefix [] s = some s
strip_prefix (p ∷ ps) [] = none
strip_prefix (p ∷ ps) (c ∷ cs) = if p == c then strip_prefix ps cs else none

abbrev pub block_prefix : Text
block_prefix = codes "block-"

unfoldable pub block_number : Text → Option ℕ
unfolding strip_prefix parse_u32
block_number new_id = elim (strip_prefix block_prefix new_id) [ none ↦ none | some s ↦ parse_u32 s ]

unfoldable pub used_numbers : List Text → List ℕ
unfolding block_number
used_numbers [] = []
used_numbers (s ∷ ids) = elim (block_number s) [
  | none ↦ used_numbers ids
  | some n ↦ n ∷ used_numbers ids
]

unfoldable pub contains_key : List ℕ → ℕ → Bool
contains_key [] n = false
contains_key (m ∷ ms) n = if m == n then true else contains_key ms n

-- `while used.contains_key(&next) { next += 1 }`, on fuel.
unfoldable pub first_free : ℕ → List ℕ → ℕ → ℕ
unfolding contains_key
first_free zero used next = next
first_free (suc fuel) used next = elim (contains_key used next) [
  | true ↦ first_free fuel used (next + 1)
  | false ↦ next
]

unfoldable pub next_id : List Text → Text
unfolding used_numbers first_free print_u32
next_id ids =
    let used = used_numbers ids in block_prefix ++ print_u32 (first_free (length used) used 1)

-- `while used_ids.contains(&id) { id = format!("{id}x") }`, on fuel.
unfoldable pub free_id : ℕ → List Text → Text → Text
unfolding contains
free_id zero used new_id = new_id
free_id (suc fuel) used new_id = elim (contains used new_id) [
  | true ↦ free_id fuel used (new_id ++ codes "x")
  | false ↦ new_id
]

module _ {Value : Type 0} where
  unfoldable pub ids_of : List (Block Value) → List Text
  ids_of [] = []
  ids_of (b ∷ bs) = b.id ∷ ids_of bs

  unfoldable pub next_property_block_id : List (Block Value) → Text
  unfolding ids_of next_id
  next_property_block_id blocks = next_id (ids_of blocks)

  -- The closure of the re-tiling: the id, which its caller adds to the used ones.
  unfoldable pub next_free_block_id : List Text → List (Block Value) → Text
  unfolding free_id next_property_block_id
  next_free_block_id used tiled = free_id (length used) used (next_property_block_id tiled)
