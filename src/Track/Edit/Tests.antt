-- ===== src/Track/Edit/Tests.antt =====
-- Edits of small tracks, and the theorems at concrete tracks.
use thaum_painter.Base.{
  ℕ, ◌≡◌, ◌↔◌, refl, false, some, List, [], ◌∷◌, arith, All, length, u32_max, ◌<◌, sub32, add32,
}
use thaum_painter.Base.Text.{Text, codes, text_eq}
use thaum_painter.Track.Block.{SharedDocumentPropertyBlock as Block, blank_block}
use thaum_painter.Track.Ids.{ids_of, next_property_block_id}
use thaum_painter.Track.Tiling.{Chain, ApartFrom, EndsBlank, FitsU32}
use thaum_painter.Track.Edit.{split_blocks, insert_at, modify}
use thaum_painter.Track.Edit.Split.{split_blocks-Paints, split_blocks-tiles}
use thaum_painter.Track.Edit.Halves.{Paints}

abbrev solid : Text → ℕ → ℕ → Block ℕ
solid name start length = record (blank_block name start length) {
  is_blank = false;
  value = some 7;
}

abbrev track : List (Block ℕ)
track = solid (codes "block-1") 0 6 ∷ blank_block (codes "block-2") 6 1 ∷ []

abbrev halves : List (Block ℕ) × Text
halves = (
  solid (codes "block-1") 0 4
      ∷ solid (codes "block-3") 4 2
      ∷ blank_block (codes "block-2") 6 1
      ∷ [],
  codes "block-3",
)

split_track : split_blocks (codes "block-1") 4 track ≡ some halves
unfolding split_blocks text_eq sub32 add32 insert_at next_property_block_id modify
split_track = refl

track-FitsU32 : All FitsU32 track
track-FitsU32 = ((omega arith, omega arith), ((omega arith, omega arith), tt))

split_blocks-Paints_example : Paints 5 (some 7) halves.0 ↔ Paints 5 (some 7) track
split_blocks-Paints_example =
    split_blocks-Paints (codes "block-1") 4 track halves track-FitsU32 split_track 5 (some 7)

split_blocks-tiles_example : Chain 0 7 halves.0 × ApartFrom false halves.0 × EndsBlank halves.0
split_blocks-tiles_example =
    split_blocks-tiles (codes "block-1") 4 track halves track-FitsU32 split_track 0 7
      ((refl, omega arith, (refl, omega arith, refl)), (refl, (refl, tt)), refl)

few : length (ids_of track) < u32_max
unfolding ids_of
few = omega arith

-- The mode behind `loop_out` is `loop_in`, which a bar in the middle skips.
