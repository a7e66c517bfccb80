-- ===== src/Breath.antt =====
-- Spans of breaths, edits of a span among its neighbours
-- (domain/painter-document/properties/properties.rs), and the piece of a bar that a breath lies on
-- (domain/painter-document/properties/pieces/pieces.rs).
mod Tests
pub mod Pieces
pub mod Destructive
use thaum_painter.Base.{ℕ, ◌+◌, max, ◌%◌, Bool, true, false, not, ◌&&◌, ◌||◌, Option, none, some}
use thaum_painter.Base.{
  List, [], ◌∷◌, if◌then◌else◌, ltb, leb, add32, sub32, saturating_add, saturating_sub,
}
use thaum_painter.Base.Int.{ℤ, pos, pos_part, ◌+ℤ◌, ◌-ℤ◌, eqb_ℤ}
use thaum_painter.Base.Text.{Text}
use thaum_painter.Track.Block.{PropertyBlock}

-- A start and a length.
abbrev pub Span : Type 0
Span = ℕ × ℕ

unfoldable pub span_end_breath : ℕ → ℕ → ℕ
span_end_breath start length = saturating_add start length

unfoldable pub breath_in_span : ℕ → ℕ → ℕ → Bool
unfolding span_end_breath
breath_in_span breath start length = leb start breath && ltb breath (span_end_breath start length)

unfoldable pub block_covering_breath :
    {Value : Type 0} → List (PropertyBlock Value) → ℕ → Option (PropertyBlock Value)
block_covering_breath [] breath = none
block_covering_breath (b ∷ bs) breath =
    if leb b.start_breath breath && leb breath b.end_breath
    then some b
    else block_covering_breath bs breath

pub record PushedBreathSpan : Type 0 where
  pub edited : Span
  pub shifted : List (ℕ × Span)

-- `(start as i64 + delta).max(0) as u32`
unfoldable pub shifted_start : ℕ → ℤ → ℕ
shifted_start start delta = pos_part (pos start +ℤ delta) % 4294967296

-- The loop over the neighbours, from `index` on.
unfoldable pub push_neighbours : ℕ → List Span → Span → ℤ → ℤ → List (ℕ × Span)
unfolding span_end_breath shifted_start
push_neighbours index [] original start_delta end_delta = []
push_neighbours index ((start, length) ∷ others) original start_delta end_delta =
    let rest = push_neighbours (index + 1) others original start_delta end_delta in
    if not (eqb_ℤ start_delta (pos 0)) && leb (span_end_breath start length) original.0
    then (index, (shifted_start start start_delta, length)) ∷ rest
    else if not (eqb_ℤ end_delta (pos 0)) && leb (span_end_breath original.0 original.1) start
    then (index, (shifted_start start end_delta, length)) ∷ rest
    else rest

unfoldable pub pushed_breath_span : List Span → Span → Span → PushedBreathSpan
unfolding push_neighbours
pushed_breath_span others original requested =
    let start_delta = pos requested.0 -ℤ pos original.0 in
    let end_delta =
      pos (span_end_breath requested.0 requested.1)
      -ℤ pos (span_end_breath original.0 original.1) in
    record {
      edited = (requested.0, max requested.1 1);
      shifted = push_neighbours 0 others original start_delta end_delta;
    }

pub record DestructiveBreathSpan : Type 0 where
  pub edited : Span
  pub trimmed : List (ℕ × Span)
  pub removed : List ℕ

-- What the loop's body does with one neighbour: `continue`, a push on `removed`, or one or two pushes
-- on `trimmed`.
pub data Fate : Type 0 where
  kept dies : Fate
  crops : List Span → Fate

unfoldable pub fate : Span → ℕ → Span → Fate
unfolding span_end_breath
fate edited edited_end (start, length) =
    let end = span_end_breath start length in
    let right : Span = (edited_end, sub32 end edited_end) in
    if leb end edited.0 || leb edited_end start
    then kept
    else if leb edited.0 start && leb end edited_end
    then dies
    else if ltb start edited.0
    then crops ((start, sub32 edited.0 start) ∷ (if ltb edited_end end then right ∷ [] else []))
    else crops (right ∷ [])

unfoldable pub indexed : ℕ → List Span → List (ℕ × Span) → List (ℕ × Span)
indexed index [] rest = rest
indexed index (s ∷ ss) rest = (index, s) ∷ indexed index ss rest

-- The pushes of one round, in front of those of the later rounds.
unfoldable pub apply_fate : ℕ → Fate → List (ℕ × Span) × List ℕ → List (ℕ × Span) × List ℕ
unfolding indexed
apply_fate index kept rest = rest
apply_fate index dies rest = (rest.0, index ∷ rest.1)
apply_fate index (crops spans) rest = (indexed index spans rest.0, rest.1)

-- The trimmed entries and the removed indices of the neighbours from `index` on.
unfoldable pub destroy_neighbours : ℕ → List Span → Span → ℕ → List (ℕ × Span) × List ℕ
unfolding fate apply_fate
destroy_neighbours index [] edited edited_end = ([], [])
destroy_neighbours index (s ∷ others) edited edited_end =
    apply_fate index (fate edited edited_end s)
      (destroy_neighbours (index + 1) others edited edited_end)

unfoldable pub destructive_breath_span : List Span → Span → DestructiveBreathSpan
unfolding destroy_neighbours
destructive_breath_span others requested =
    let edited : Span = (requested.0, max requested.1 1) in
    let result = destroy_neighbours 0 others edited (span_end_breath edited.0 edited.1) in
    record { edited = edited; trimmed = result.0; removed = result.1 }
