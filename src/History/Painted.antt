-- ===== src/History/Painted.antt =====
-- Patches painted into the raster bar that an action names (domain/file/storage/storage.rs).
use thaum_painter.Base.{ℕ, false, not, Option, none, some, List, [], ◌∷◌}
use thaum_painter.Base.Text.{Text, codes, text_eq, text_Eq}
use thaum_painter.Cell.{Renderer}
use thaum_painter.Track.Block.{SharedDocumentPropertyBlock as Block}
use thaum_painter.Document.{
  SharedDocumentLayer as Layer, SharedDocumentRuntime as Runtime, key_Eq, find, update, find_layer,
  property_track, write_tiled, ensure_block_canvas_coverage,
}
use thaum_painter.History.{
  SharedCellPatch, AppliedCellPatches, HistoryRuntime, canvas_at, put_canvas,
}
use thaum_painter.History.Patches.{PatchDirection, apply_patches}

module _ {Value : Type 0} where
  -- The first bar with content, or else the first one.
  unfoldable pub first_content : List (Block Value) → Option (Block Value)
  unfolding find
  first_content blocks = elim (find (λ b. not b.is_blank) blocks) [
    | some block ↦ some block
    | none ↦ elim blocks [ [] ↦ none | b ∷ _ ↦ some b ]
  ]

  -- The span that the raster track is tiled over.
  unfoldable pub span_of : Option (Layer Value) → ℕ × ℕ
  span_of none = (0, 1)
  span_of (some layer) = (layer.start_breath, layer.length_breaths)

  unfoldable pub unblank_blocks : Text → List (Block Value) → List (Block Value)
  unfolding update
  unblank_blocks block_id blocks =
      update (λ b. text_eq b.id block_id) (λ b. record b { is_blank = false }) blocks

module _ {R : Renderer} {Value : Type 0} where
  unfoldable pub legacy_raster_block_target : Runtime R Value → Text → Option (Text × Text)
  unfolding property_track first_content
  legacy_raster_block_target document layer_id =
      elim (property_track document layer_id (codes "raster")) [
        | none ↦ none
        | some track ↦ elim (first_content track.blocks) [
          | none ↦ none
          | some block ↦ some (layer_id, block.id)
        ]
      ]

  unfoldable pub unblank_raster_block : Runtime R Value → Text → Text → Runtime R Value
  unfolding find_layer span_of property_track unblank_blocks write_tiled
      ensure_block_canvas_coverage
  unblank_raster_block document layer_id block_id =
      let span = span_of (find_layer document layer_id) in
      let written : Runtime R Value = elim (property_track document layer_id (codes "raster")) [
        | none ↦ document
        | some track ↦
            write_tiled document layer_id (codes "raster") (unblank_blocks block_id track.blocks)
              span.0 span.1
      ] in
      ensure_block_canvas_coverage written layer_id

  -- The bar made content, and patches written to its canvas.
  unfoldable pub paint :
      HistoryRuntime R Value → Text → Text → List SharedCellPatch → HistoryRuntime R Value
  unfolding unblank_raster_block canvas_at put_canvas apply_patches
  paint r layer_id block_id patches =
      let document : Runtime R Value = unblank_raster_block r.document layer_id block_id in
      record r {
        document =
            put_canvas document layer_id block_id
              (apply_patches (canvas_at document layer_id block_id) patches PatchDirection.after);
      }

  -- The patches of an action written again in one direction.
  unfoldable pub repaint : Runtime R Value → AppliedCellPatches → PatchDirection → Runtime R Value
  unfolding canvas_at put_canvas apply_patches
  repaint document applied direction = put_canvas document applied.layer_id applied.block_id (
      apply_patches (canvas_at document applied.layer_id applied.block_id) applied.patches
        direction)

  unfoldable pub patch_target : Runtime R Value → Text → Option Text → Option (Text × Text)
  unfolding legacy_raster_block_target
  patch_target document layer_id (some block_id) = some (layer_id, block_id)
  patch_target document layer_id none = legacy_raster_block_target document layer_id
