-- ===== src/History/Undo.antt =====
-- Live strokes, undo and redo (domain/file/storage/storage.rs).
use thaum_painter.Base.{Option, none, some, List, [], ◌∷◌, map}
use thaum_painter.Base.Text.{Text, text_Eq}
use thaum_painter.Base.Map.{get, insert}
use thaum_painter.Cell.{Renderer}
use thaum_painter.History.{
  SharedCellPatch, inverse, SharedDocumentActionRecord as Record, HistoryRevertPatches,
  HistoryRuntime, with_stack, push, pop, structure_record,
}
use thaum_painter.History.Patches.{PatchDirection}
use thaum_painter.History.Apply.{push_history_record}
use thaum_painter.History.Painted.{paint, repaint}

module _ {R : Renderer} {Value : Type 0} where
  -- Patches shown while a stroke is drawn, before its record is applied.
  unfoldable pub stage_canvas_patches :
      HistoryRuntime R Value → Text → Text → List SharedCellPatch → HistoryRuntime R Value
  unfolding paint
  stage_canvas_patches r layer_id block_id [] = r
  stage_canvas_patches r layer_id block_id (patch ∷ patches) =
      paint r layer_id block_id (patch ∷ patches)

  -- The runtime, also where the early returns leave a stack popped, and what is returned.
  unfoldable pub undo_top_action :
      HistoryRuntime R Value → Text → HistoryRuntime R Value × Option HistoryRevertPatches
  unfolding with_stack pop get insert repaint inverse
  undo_top_action r layer_id = elim (get layer_id r.applied_action_ids_by_layer) [
    | none ↦ (r, none)
    | some ids ↦ elim (pop ids) [
      | none ↦ (r, none)
      | some top ↦
          let popped : HistoryRuntime R Value = record r {
            applied_action_ids_by_layer = insert layer_id top.0 r.applied_action_ids_by_layer;
          } in
          elim (get top.1 r.patches_by_action_id) [
            | none ↦ (popped, none)
            | some applied ↦ (
              record popped {
                document = repaint r.document applied PatchDirection.before;
                undone_action_ids_by_layer =
                    with_stack layer_id (push top.1) r.undone_action_ids_by_layer;
              },
              some (record {
                block_id = applied.block_id;
                patches = map inverse applied.patches;
                action_id = top.1;
              }),
            )
          ]
    ]
  ]

  unfoldable pub redo_top_action :
      HistoryRuntime R Value → Text → HistoryRuntime R Value × Option HistoryRevertPatches
  unfolding with_stack pop get insert repaint
  redo_top_action r layer_id = elim (get layer_id r.undone_action_ids_by_layer) [
    | none ↦ (r, none)
    | some ids ↦ elim (pop ids) [
      | none ↦ (r, none)
      | some top ↦
          let popped : HistoryRuntime R Value = record r {
            undone_action_ids_by_layer = insert layer_id top.0 r.undone_action_ids_by_layer;
          } in
          elim (get top.1 r.patches_by_action_id) [
            | none ↦ (popped, none)
            | some applied ↦ (
              record popped {
                document = repaint r.document applied PatchDirection.after;
                applied_action_ids_by_layer =
                    with_stack layer_id (push top.1) r.applied_action_ids_by_layer;
              },
              some (record {
                block_id = applied.block_id;
                patches = applied.patches;
                action_id = top.1;
              }),
            )
          ]
    ]
  ]

  -- The runtime with the record, and the record.
  unfoldable pub push_structure_set_record :
      HistoryRuntime R Value
      → (action_id user_id created_at : Text) → HistoryRuntime R Value × Record Value
  unfolding structure_record push_history_record
  push_structure_set_record r action_id user_id created_at =
      let entry : Record Value =
        structure_record action_id r.document_id user_id created_at r.document.layers
          r.document_window in
      (push_history_record r entry, entry)
