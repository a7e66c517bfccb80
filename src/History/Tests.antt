-- ===== src/History/Tests.antt =====
-- A document with one layer and one stroke, and the theorems at it.
use thaum_painter.Base.{
  ℕ, ◌≤◌, ◌-◌, ◌+◌, ◌≡◌, refl, true, false, none, some, List, [], ◌∷◌, map, length, arith, Nodup,
  is_some,
}
use thaum_painter.Base.Int.{pos}
use thaum_painter.Base.Text.{Text, codes, text_eq, text_Eq}
use thaum_painter.Base.Map.{get}
use thaum_painter.Cell.{
  Renderer, CellGraphic, PaintColor, PaintedCell, CellFacing, CellPoint, Canvas, point_Eq,
}
use thaum_painter.Cell.Stored.{StoresPayloads, from_runtime}
use thaum_painter.Track.Block.{SharedDocumentPropertyTrack as Track, blank_block}
use thaum_painter.Document.{SharedDocumentLayer as Layer, key_Eq, key_eq}
use thaum_painter.History.{
  SharedCellPatch, inverse, revert_patch_set, cell_patch_set, DocumentWindow,
  SharedDocumentActionRecord as Record, HistoryRevertPatches, HistoryRuntime, stack, push, pop,
  canvas_at,
}
use thaum_painter.History.Painted.{unblank_raster_block, paint}
use thaum_painter.History.Apply.{apply_action_record}
use thaum_painter.History.Opened.{new}
use thaum_painter.History.Undo.{undo_top_action, redo_top_action, stage_canvas_patches}
use thaum_painter.History.Fold.{fold_history, actions_for_file, baseline_record}
use thaum_painter.History.Canvases.{StartFrom}
use thaum_painter.History.Strokes.{
  undo_top_action-apply_action_record, redo_top_action-undo_top_action,
}
use thaum_painter.History.Replayed.{
  paint-stage_canvas_patches, apply_action_record-undo_top_action, blank_bar,
}
use thaum_painter.History.Reached.{HistoryRun, here, next, applied, folded}
use thaum_painter.History.Tops.{HistoryRun-top_action}
use thaum_painter.History.Logged.{HistoryRun-IsLogged, fold_history-actions_for_file}
use thaum_painter.History.Baseline.{apply_action_record-baseline_record}

-- A renderer whose payloads are texts.
abbrev texts : Renderer
texts = record {
  Sprite = Text;
  Sided = Text;
  sprite_eq = text_eq;
  sided_eq = text_eq;
  atlas_relative_path = λ s. s;
  sprite_new = λ s. s;
  sided_declaration_json = λ s. s;
  parse_sided_declaration = λ s. some s;
}

abbrev texts_kept : StoresPayloads texts
texts_kept = record { sprite_kept = λ s. refl; sided_kept = λ s. refl }

abbrev dot : ℕ → PaintedCell texts
dot shade = record {
  graphic = CellGraphic.glyph 46;
  color = PaintColor.flat_rgb shade 0 0;
  weight_index = pos 0;
  shader_stack = [];
  facing = CellFacing.pos_z;
}

abbrev at : ℕ → CellPoint
at x = record { x = pos x; y = pos 0; z = pos 0 }

abbrev ink : Text
ink = codes "ink"

abbrev bar : Text
bar = codes "block-1"

abbrev raster : Track ℕ
raster = record {
  property_id = codes "raster";
  blocks =
      record (blank_block bar 0 4) { is_blank = false } ∷ blank_block (codes "block-2") 4 1 ∷ [];
}

abbrev layer : Layer ℕ
layer = record {
  layer_id = ink;
  name = codes "Ink";
  visible = true;
  locked = false;
  origin = at 0;
  start_breath = 0;
  length_breaths = 4;
  property_tracks = raster ∷ [];
}

abbrev window : DocumentWindow
window = record { start_breath = 0; end_breath = 23 }

abbrev opened : HistoryRuntime texts ℕ
opened = new (codes "doc") (layer ∷ []) window

-- A red cell where there was none, and a second one.
abbrev patch : SharedCellPatch
patch = record { position = at 1; before = none; after = some (from_runtime (dot 200)) }

abbrev patches : List SharedCellPatch
patches = record { position = at 2; before = none; after = some (from_runtime (dot 90)) } ∷ []

abbrev entry : Record ℕ
entry = record {
  action_id = codes "a1";
  document_id = codes "doc";
  layer_id = ink;
  user_id = codes "u";
  created_at = codes "now";
  action = cell_patch_set (patch ∷ patches) (some bar) false none;
}

empty_bar : canvas_at (unblank_raster_block opened.document ink bar) ink bar ≡ []
unfolding canvas_at unblank_raster_block new key_eq
empty_bar = refl

starts :
    StartFrom (canvas_at (unblank_raster_block opened.document ink bar) ink bar) (patch ∷ patches)
unfolding get
starts = rw empty_bar (refl, (refl, tt))

undo_top_action-apply_action_record_example :
    (get
        (at 1)
        (canvas_at (undo_top_action (apply_action_record opened entry) ink).0.document ink bar)
      ≡ get (at 1) (canvas_at (unblank_raster_block opened.document ink bar) ink bar))
    × (stack ink
          (undo_top_action (apply_action_record opened entry) ink).0.applied_action_ids_by_layer
        ≡ stack ink opened.applied_action_ids_by_layer)
    × (stack ink
          (undo_top_action (apply_action_record opened entry) ink).0.undone_action_ids_by_layer
        ≡ codes "a1" ∷ [])
    × ((undo_top_action (apply_action_record opened entry) ink).1
        ≡ some (record {
          block_id = bar;
          patches = map inverse (patch ∷ patches);
          action_id = codes "a1";
        }))
undo_top_action-apply_action_record_example =
    undo_top_action-apply_action_record opened entry bar patch patches none (at 1) refl starts

redo_top_action-undo_top_action_example :
    (get (at 2) (
        canvas_at
          (redo_top_action
            (undo_top_action (apply_action_record opened entry) ink).0
            ink).0.document
          ink
          bar)
      ≡ get (at 2) (canvas_at (apply_action_record opened entry).document ink bar))
    × (stack ink
          (redo_top_action
            (undo_top_action (apply_action_record opened entry) ink).0
            ink).0.applied_action_ids_by_layer
        ≡ stack ink (apply_action_record opened entry).applied_action_ids_by_layer)
    × (stack ink
          (redo_top_action
            (undo_top_action (apply_action_record opened entry) ink).0
            ink).0.undone_action_ids_by_layer
        ≡ [])
    × ((redo_top_action (undo_top_action (apply_action_record opened entry) ink).0 ink).1
        ≡ some (record { block_id = bar; patches = patch ∷ patches; action_id = codes "a1" }))
redo_top_action-undo_top_action_example =
    redo_top_action-undo_top_action opened entry bar patch patches none (at 2) refl

not_blank :
    blank_bar
      (unblank_raster_block
        (stage_canvas_patches opened ink bar (patch ∷ patches)).document
        ink
        bar)
      ink
      bar
    ≡ false
unfolding blank_bar unblank_raster_block new stage_canvas_patches
not_blank = refl

paint-stage_canvas_patches_example :
    get (at 2) (
      canvas_at
        (paint
          (stage_canvas_patches opened ink bar (patch ∷ patches))
          ink
          bar
          (patch ∷ patches)).document
        ink
        bar)
    ≡ get (at 2) (canvas_at (paint opened ink bar (patch ∷ patches)).document ink bar)
paint-stage_canvas_patches_example =
    paint-stage_canvas_patches opened ink bar patch patches (at 2) not_blank

kept_points : Nodup (at 1 ∷ at 2 ∷ [])
kept_points = (λ m. ground (arith, m), (λ m. m, tt))

abbrev drawn : HistoryRuntime texts ℕ
drawn = apply_action_record opened entry

top_of_stack : get ink drawn.applied_action_ids_by_layer ≡ some (push (codes "a1") [])
unfolding apply_action_record new
top_of_stack = refl

recorded :
    get (codes "a1") drawn.patches_by_action_id
    ≡ some (record { layer_id = ink; block_id = bar; patches = patch ∷ patches })
unfolding apply_action_record new
recorded = refl

drawn_not_blank : blank_bar (unblank_raster_block drawn.document ink bar) ink bar ≡ false
unfolding blank_bar unblank_raster_block new apply_action_record
drawn_not_blank = refl

abbrev revert : HistoryRevertPatches
revert = record { block_id = bar; patches = map inverse (patch ∷ patches); action_id = codes "a1" }

returned : (undo_top_action drawn ink).1 ≡ some revert
unfolding undo_top_action apply_action_record new
returned = refl

apply_action_record-undo_top_action_example :
    (canvas_at
        (apply_action_record drawn (
          revert_patch_set
            (codes "r1")
            (codes "doc")
            ink
            (codes "u")
            (codes "later")
            revert.patches
            (some revert.block_id)
            revert.action_id)).document
        ink
        bar
      ≡ canvas_at (undo_top_action drawn ink).0.document ink bar)
    × ((apply_action_record drawn (
          revert_patch_set
            (codes "r1")
            (codes "doc")
            ink
            (codes "u")
            (codes "later")
            revert.patches
            (some revert.block_id)
            revert.action_id)).applied_action_ids_by_layer
        ≡ (undo_top_action drawn ink).0.applied_action_ids_by_layer)
    × ((apply_action_record drawn (
          revert_patch_set
            (codes "r1")
            (codes "doc")
            ink
            (codes "u")
            (codes "later")
            revert.patches
            (some revert.block_id)
            revert.action_id)).undone_action_ids_by_layer
        ≡ (undo_top_action drawn ink).0.undone_action_ids_by_layer)
    × ((apply_action_record drawn (
          revert_patch_set
            (codes "r1")
            (codes "doc")
            ink
            (codes "u")
            (codes "later")
            revert.patches
            (some revert.block_id)
            revert.action_id)).patches_by_action_id
        ≡ (undo_top_action drawn ink).0.patches_by_action_id)
apply_action_record-undo_top_action_example =
    apply_action_record-undo_top_action drawn ink bar (codes "a1") [] patch patches revert
      (codes "r1") (codes "doc") (codes "u") (codes "later") top_of_stack (λ m. absurd m) recorded
      drawn_not_blank returned

drawn_run : HistoryRun opened (fold_history drawn)
drawn_run = next (next here (applied opened entry)) (folded drawn)

HistoryRun-top_action_example :
    (is_some (undo_top_action (fold_history drawn) ink).1
      ≡ is_some (pop (stack ink (fold_history drawn).applied_action_ids_by_layer)))
    × (is_some (redo_top_action (fold_history drawn) ink).1
        ≡ is_some (pop (stack ink (fold_history drawn).undone_action_ids_by_layer)))
HistoryRun-top_action_example =
    HistoryRun-top_action (codes "doc") (layer ∷ []) window (fold_history drawn) ink drawn_run

HistoryRun-IsLogged_example :
    (fold_history drawn).squashed_through ≤ length (fold_history drawn).actions
HistoryRun-IsLogged_example =
    HistoryRun-IsLogged (codes "doc") (layer ∷ []) window (fold_history drawn) drawn_run

fold_history-actions_for_file_example :
    (length (fold_history drawn).actions - (fold_history drawn).squashed_through ≤ 20)
    × (length (actions_for_file (fold_history drawn)) ≤ length (fold_history drawn).baseline + 20)
fold_history-actions_for_file_example = fold_history-actions_for_file drawn

abbrev kept_canvas : Canvas texts
kept_canvas = (at 2, dot 90) ∷ []

apply_action_record-baseline_record_example :
    (get (at 2) (
        canvas_at
          (apply_action_record opened (
            baseline_record
              (codes "doc")
              (ink, codes "raster", bar)
              ((at 1, dot 200) ∷ kept_canvas))).document
          ink
          bar)
      ≡ get (at 2) ((at 1, dot 200) ∷ kept_canvas))
    × ((apply_action_record opened (
          baseline_record
            (codes "doc")
            (ink, codes "raster", bar)
            ((at 1, dot 200) ∷ kept_canvas))).applied_action_ids_by_layer
        ≡ opened.applied_action_ids_by_layer)
    × ((apply_action_record opened (
          baseline_record
            (codes "doc")
            (ink, codes "raster", bar)
            ((at 1, dot 200) ∷ kept_canvas))).undone_action_ids_by_layer
        ≡ opened.undone_action_ids_by_layer)
apply_action_record-baseline_record_example =
    apply_action_record-baseline_record texts_kept opened (codes "doc") ink (codes "raster") bar
      (at 1, dot 200) kept_canvas (at 2) kept_points empty_bar
