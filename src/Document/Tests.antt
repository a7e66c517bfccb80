-- ===== src/Document/Tests.antt =====
-- A document with one layer, and the theorems at it.
use thaum_painter.Base.{
  ℕ, ◌≡◌, refl, ◌≢◌, ◌⊎◌, inl, true, false, some, [], ◌∷◌, arith, All, if◌then◌else◌,
}
use thaum_painter.Base.Int.{pos}
use thaum_painter.Base.Text.{Text, codes, text_eq}
use thaum_painter.Base.Map.{get}
use thaum_painter.Cell.{Renderer}
use thaum_painter.Plane.{cell_point}
use thaum_painter.Track.Block.{
  SharedDocumentPropertyBlock as Block, SharedDocumentPropertyTrack as Track, blank_block,
}
use thaum_painter.Track.Edit.{position, modify}
use thaum_painter.Track.Tiling.{FitsU32, Shows}
use thaum_painter.Track.Tiling.Clip.{Disjoint}
use thaum_painter.Track.Tiling.Names.{Distinct}
use thaum_painter.Document.{
  SharedDocumentLayer as Layer, SharedDocumentRuntime as Runtime, find_layer, property_track,
  ensure_property_track_mut, ensure_block_canvas_coverage, key_Eq, find, update, ensure_track,
}
use thaum_painter.Document.Edits.{blank_property_block, swap_property_blocks, set_layer_timing}
use thaum_painter.Document.Coverage.{has_bar, has_blank, or_empty, get-ensure_block_canvas_coverage}
use thaum_painter.Document.Timing.{set_layer_timing-IsTrackTiled}
use thaum_painter.Document.Tiled.{IsTrackTiled}
use thaum_painter.Document.Seams.{
  blank_property_block-IsTrackTiled, swap_property_blocks-IsTrackTiled,
}
use thaum_painter.Base.{List, Option, sub32, add32, ◌↔◌, ◌&&◌}
use thaum_painter.Track.Ids.{next_property_block_id}
use thaum_painter.Track.Edit.{split_blocks, insert_at}
use thaum_painter.Track.Edit.Halves.{Paints}
use thaum_painter.Document.{CanvasKey, key_eq}
use thaum_painter.Document.Edits.{split_property_block}
use thaum_painter.Document.Halving.{split_property_block-keeps}

-- A renderer whose payloads are texts.
abbrev texts : Renderer
texts = record {
  Sprite = Text;
  Sided = Text;
  sprite_eq = text_eq;
  sided_eq = text_eq;
  atlas_relative_path = λ s. s;
  sprite_new = λ s. s;
  sided_declaration_json = λ s. s;
  parse_sided_declaration = λ s. some s;
}

abbrev solid : Text → ℕ → ℕ → Block ℕ
solid name start length = record (blank_block name start length) {
  is_blank = false;
  value = some 7;
}

abbrev raster : Track ℕ
raster = record {
  property_id = codes "raster";
  blocks =
      solid (codes "block-1") 0 4
      ∷ solid (codes "block-2") 4 2
      ∷ blank_block (codes "block-3") 6 1
      ∷ [];
}

abbrev layer : Layer ℕ
layer = record {
  layer_id = codes "ink";
  name = codes "Ink";
  visible = true;
  locked = false;
  origin = cell_point (pos 0) (pos 0) (pos 0);
  start_breath = 0;
  length_breaths = 6;
  property_tracks = raster ∷ [];
}

abbrev document : Runtime texts ℕ
document = record { layers = layer ∷ []; block_canvases = [] }

layer_found : find_layer document (codes "ink") ≡ some layer
unfolding find_layer find text_eq
layer_found = refl

ensured : (ensure_property_track_mut document (codes "ink") (codes "raster")).1 ≡ some raster
unfolding ensure_property_track_mut find text_eq update ensure_track property_track find_layer
ensured = refl

first_at : position (codes "block-1") raster.blocks ≡ some 0
unfolding position text_eq
first_at = refl

second_at : position (codes "block-2") raster.blocks ≡ some 1
unfolding position text_eq
second_at = refl

fits : All FitsU32 raster.blocks
fits = ((omega arith, omega arith), ((omega arith, omega arith), ((omega arith, omega arith), tt)))

track_found : property_track document (codes "ink") (codes "raster") ≡ some raster
unfolding property_track find_layer find text_eq
track_found = refl

different : text_eq (codes "block-1") (codes "block-2") ≡ false
unfolding text_eq
different = refl

apart : Disjoint raster.blocks
apart = ((inl (omega arith), (inl (omega arith), tt)), ((inl (omega arith), tt), (tt, tt)))

distinct : Distinct raster.blocks
distinct = (
  ((λ e. ground (arith, e)), ((λ e. ground (arith, e)), tt)),
  (((λ e. ground (arith, e)), tt), (tt, tt)),
)

blank_property_block-IsTrackTiled_example :
    ((blank_property_block document (codes "ink") (codes "raster") (codes "block-1")).0 ≡ true)
    × IsTrackTiled
        (blank_property_block document (codes "ink") (codes "raster") (codes "block-1")).1
        (codes "ink")
        (codes "raster")
        0
        6
        (λ x k v. Shows x k v raster.blocks × (k ≢ codes "block-1"))
    × (get
          (codes "ink", codes "raster", codes "block-1")
          (blank_property_block document
            (codes "ink")
            (codes "raster")
            (codes "block-1")).1.block_canvases
        ≡ some [])
blank_property_block-IsTrackTiled_example =
    blank_property_block-IsTrackTiled document (codes "ink") (codes "raster") (codes "block-1")
      layer raster 0 layer_found ensured first_at fits (omega arith) apart distinct

swap_property_blocks-IsTrackTiled_example :
    ((swap_property_blocks document
        (codes "ink")
        (codes "raster")
        (codes "block-1")
        (codes "block-2")).0
      ≡ true)
    × IsTrackTiled
        (swap_property_blocks document
          (codes "ink")
          (codes "raster")
          (codes "block-1")
          (codes "block-2")).1
        (codes "ink")
        (codes "raster")
        0
        6
        (λ x k v.
          (Shows x k v raster.blocks × (k ≢ codes "block-1") × (k ≢ codes "block-2"))
          ⊎ Shows x k v (solid (codes "block-1") 4 2 ∷ solid (codes "block-2") 0 4 ∷ []))
swap_property_blocks-IsTrackTiled_example =
    swap_property_blocks-IsTrackTiled document (codes "ink") (codes "raster") (codes "block-1")
      layer raster 0 layer_found ensured first_at fits (omega arith) apart distinct
      (codes "block-2") 1 different second_at (solid (codes "block-1") 0 4)
      (solid (codes "block-2") 4 2) refl refl

get-ensure_block_canvas_coverage_example :
    get
      (codes "ink", codes "raster", codes "block-3")
      (ensure_block_canvas_coverage document (codes "ink")).block_canvases
    ≡ (if has_blank (codes "block-3") raster.blocks
        then some []
        else if has_bar (codes "block-3") raster.blocks
        then some
            (or_empty (get (codes "ink", codes "raster", codes "block-3") document.block_canvases))
        else get (codes "ink", codes "raster", codes "block-3") document.block_canvases)
get-ensure_block_canvas_coverage_example =
    get-ensure_block_canvas_coverage document (codes "ink") (codes "block-3") raster track_found

set_layer_timing-IsTrackTiled_example :
    ((set_layer_timing document (codes "ink") 2 9).0 ≡ true)
    × (after : Layer ℕ) × (find_layer (set_layer_timing document (codes "ink") 2 9).1 (codes "ink")
        ≡ some after)
    × (after.start_breath ≡ 2)
    × (after.length_breaths ≡ 9)
    × IsTrackTiled
        (set_layer_timing document (codes "ink") 2 9).1
        (codes "ink")
        (codes "raster")
        2
        9
        (λ x k v. Shows x k v raster.blocks)
set_layer_timing-IsTrackTiled_example =
    set_layer_timing-IsTrackTiled document (codes "ink") (codes "raster") layer raster 2 9
      layer_found track_found fits (omega arith) apart

abbrev halves : List (Block ℕ) × Text
halves = (
  solid (codes "block-1") 0 1
      ∷ solid (codes "block-4") 1 3
      ∷ solid (codes "block-2") 4 2
      ∷ blank_block (codes "block-3") 6 1
      ∷ [],
  codes "block-4",
)

cut : split_blocks (codes "block-1") 1 raster.blocks ≡ some halves
unfolding split_blocks text_eq sub32 add32 insert_at next_property_block_id modify
cut = refl

split_property_block-keeps_example :
    ((split_property_block document (codes "ink") (codes "raster") (codes "block-1") 1).0
      ≡ some (codes "block-4"))
    × (after : Track ℕ) × (property_track
          (split_property_block document (codes "ink") (codes "raster") (codes "block-1") 1).1
          (codes "ink")
          (codes "raster")
        ≡ some after)
    × ((x : ℕ) (v : Option ℕ) → Paints x v after.blocks ↔ Paints x v raster.blocks)
    × ((k : CanvasKey)
        → get k
            (split_property_block document
              (codes "ink")
              (codes "raster")
              (codes "block-1")
              1).1.block_canvases
          ≡ (if text_eq (codes "raster") (codes "raster")
                && key_eq (codes "ink", codes "raster", codes "block-4") k
              then some []
              else get k document.block_canvases))
split_property_block-keeps_example =
    split_property_block-keeps document (codes "ink") (codes "raster") (codes "block-1") 1 raster 0
      halves ensured first_at fits cut
