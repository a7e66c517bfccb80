-- ===== src/Track/Mode.antt =====
-- The vocabulary of empty bars (domain/painter-document/properties/interp_mode.rs): the modes and
-- ease strengths, their cycles, and where each mode may stand.
use thaum_painter.Base.{ℕ, Bool, true, not, ◌&&◌, ◌||◌, Option, none, some}
use thaum_painter.Base.{List, [], ◌∷◌, if◌then◌else◌, ◌==◌}
use thaum_painter.Base.Text.{Text, codes, text_eq}

abbrev pub interpolate : Text
interpolate = codes "interpolate"

abbrev pub hold : Text
hold = codes "hold"

abbrev pub smear : Text
smear = codes "smear"

abbrev pub loop_out : Text
loop_out = codes "loop_out"

abbrev pub loop_in : Text
loop_in = codes "loop_in"

abbrev pub interp_modes : List Text
interp_modes = interpolate ∷ hold ∷ smear ∷ loop_out ∷ loop_in ∷ []

abbrev pub ease_strengths : List ℕ
ease_strengths = 0 ∷ 33 ∷ 66 ∷ 100 ∷ []

abbrev pub default_mode : Text
default_mode = interpolate

find_text : Text → List Text → Option Text
find_text s [] = none
find_text s (t ∷ ts) = if text_eq t s then some t else find_text s ts

unfoldable pub resolve_mode : Option Text → Text
unfolding find_text
resolve_mode (some mode) = elim (find_text mode interp_modes) [ some t ↦ t | none ↦ default_mode ]
resolve_mode none = default_mode

unfoldable pub mode_is_ease_adjustable : Text → Bool
mode_is_ease_adjustable mode = text_eq mode interpolate || text_eq mode smear

unfoldable pub mode_allowed_at : Text → Bool → Bool → Bool
mode_allowed_at mode is_first is_last =
    if text_eq mode loop_out
    then is_last
    else if text_eq mode loop_in
    then is_first
    else if text_eq mode smear
    then not is_first && not is_last
    else true

unfoldable pub mode_allowed_for_property_at : Text → Text → Bool → Bool → Bool
unfolding mode_allowed_at
mode_allowed_for_property_at mode property_id is_first is_last =
    mode_allowed_at mode is_first is_last
    && (not (text_eq mode smear) || text_eq property_id (codes "raster"))

-- `INTERP_MODES[(position(current) + 1) % 5]`: the element behind the first match, the first element
-- at the end of the list.
unfoldable pub behind : Text → List Text → Text
behind s [] = interpolate
behind s (t ∷ []) = interpolate
behind s (t ∷ u ∷ ts) = if text_eq t s then u else behind s (u ∷ ts)

unfoldable pub next_mode : Option Text → Text
unfolding behind resolve_mode
next_mode interpretation = behind (resolve_mode interpretation) interp_modes

-- `EASE_STRENGTHS[(position(current).unwrap_or(0) + 1) % 4]`.
unfoldable pub next_ease_percent : Option ℕ → ℕ
next_ease_percent none = 33
next_ease_percent (some n) =
    if n == 33 then 66 else if n == 66 then 100 else if n == 100 then 0 else 33
