-- ===== src/Breath/Pieces.antt =====
-- Which piece of which bar a breath lies on (domain/painter-document/properties/pieces/pieces.rs).
use thaum_painter.Base.{ℕ, Bool, false, ◌&&◌, Option, none, some}
use thaum_painter.Base.{List, [], ◌∷◌, if◌then◌else◌, ltb, leb, ◌==◌, add32, sub32, saturating_sub}
use thaum_painter.Track.Block.{SharedDocumentPropertyBlock, PropertyBlock}

pub data BarPiece : Type 0 where
  single left_head right_head center : BarPiece

pub data CellType : Type 0 where
  empty solid : CellType

pub record BarCell : Type 0 where
  pub piece : BarPiece
  pub cell_type : CellType

-- The trait `BreathBar`.
pub record BreathBar (B : Type 0) : Type 0 where
  pub bar_start_breath : B → ℕ
  pub bar_length_breaths : B → ℕ
  pub bar_is_blank : B → Bool

instance abbrev pub stored_bar : {Value : Type 0} → BreathBar (SharedDocumentPropertyBlock Value)
stored_bar = record {
  bar_start_breath = λ b. b.start_breath;
  bar_length_breaths = λ b. b.length_breaths;
  bar_is_blank = λ b. b.is_blank;
}

-- The end of a schema bar is inclusive, and such a bar always has content.
instance abbrev pub schema_bar : {Value : Type 0} → BreathBar (PropertyBlock Value)
schema_bar = record {
  bar_start_breath = λ b. b.start_breath;
  bar_length_breaths = λ b. add32 (saturating_sub b.end_breath b.start_breath) 1;
  bar_is_blank = λ b. false;
}

unfoldable pub classify_bar_piece : ℕ → ℕ → ℕ → BarPiece
classify_bar_piece start length breath =
    let end = sub32 (add32 start length) 1 in
    if leb length 1
    then single
    else if breath == start
    then left_head
    else if breath == end
    then right_head
    else center

unfoldable pub cell_type_of : Bool → CellType
cell_type_of is_blank = if is_blank then empty else solid

module _ {B : Type 0} ⦃bar : BreathBar B⦄ where
  unfoldable pub covering_bar_cell : List B → ℕ → Option BarCell
  unfolding classify_bar_piece cell_type_of
  covering_bar_cell [] breath = none
  covering_bar_cell (b ∷ bs) breath =
      let start = bar.bar_start_breath b in
      let length = bar.bar_length_breaths b in
      if leb start breath && ltb breath (add32 start length)
      then some (record {
        piece = classify_bar_piece start length breath;
        cell_type = cell_type_of (bar.bar_is_blank b);
      })
      else covering_bar_cell bs breath
