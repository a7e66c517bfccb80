-- ===== src/History/Strokes.antt =====
-- Undo and redo of strokes (domain/file/storage/storage.rs).
use thaum_painter.Base.{false, Option, some, List, [], ◌∷◌, map, ◌≡◌, refl, sym, ◌∙◌, ap}
use thaum_painter.Base.Text.{Text, text_Eq}
use thaum_painter.Base.Map.{get, insert}
use thaum_painter.Cell.{CellPoint, Renderer, Canvas, point_Eq}
use thaum_painter.History.{
  SharedCellPatch, inverse, cell_patch_set, SharedDocumentActionRecord as Record,
  AppliedCellPatches, HistoryRuntime, stack, with_stack, push, canvas_at,
}
use thaum_painter.History.Patches.{PatchDirection, apply_patches}
use thaum_painter.History.Apply.{
  apply_action_record, apply_action, apply_patch_set, record_stroke, push_history_record,
}
use thaum_painter.History.Painted.{patch_target, paint, repaint, unblank_raster_block}
use thaum_painter.History.Undo.{undo_top_action, redo_top_action}
use thaum_painter.History.Canvases.{StartFrom, undone_cell, rewritten_cell}
use thaum_painter.History.Stacks.{
  get-insert_same, stack-with_stack, stack-insert, canvas_at-repaint, canvas_at-paint, undo_known,
  redo_known,
}

module _ {R : Renderer} {Value : Type 0} where
  -- What a stroke leaves.
  abbrev stroke_of :
      HistoryRuntime R Value → Record Value → Text → List SharedCellPatch → HistoryRuntime R Value
  stroke_of r entry b patches =
      push_history_record
        (record_stroke (paint r entry.layer_id b patches) entry.layer_id entry.action_id
          (record { layer_id = entry.layer_id; block_id = b; patches = patches }))
        entry

  stroke_lem :
      (r : HistoryRuntime R Value) (entry : Record Value) (b : Text) (patch : SharedCellPatch)
      (patches : List SharedCellPatch) (reverts : Option Text)
      → entry.action ≡ cell_patch_set (patch ∷ patches) (some b) false reverts
      → apply_action_record r entry ≡ stroke_of r entry b (patch ∷ patches)
  unfolding apply_action_record apply_action patch_target apply_patch_set
  stroke_lem r entry b patch patches reverts h = rw h refl

  canvas_at-stroke_of :
      (r : HistoryRuntime R Value) (entry : Record Value) (b : Text)
      (patches : List SharedCellPatch)
      → canvas_at (stroke_of r entry b patches).document entry.layer_id b
        ≡ apply_patches
            (canvas_at (unblank_raster_block r.document entry.layer_id b) entry.layer_id b)
            patches
            PatchDirection.after
  unfolding push_history_record record_stroke
  canvas_at-stroke_of r entry b patches = canvas_at-paint r entry.layer_id b patches

  -- The state that an undo of a stroke leaves.
  abbrev undone_of :
      HistoryRuntime R Value → Record Value → Text → List SharedCellPatch → HistoryRuntime R Value
  undone_of r entry b patches =
      let s : HistoryRuntime R Value = stroke_of r entry b patches in
      record s {
        document =
            repaint s.document
              (record { layer_id = entry.layer_id; block_id = b; patches = patches })
              PatchDirection.before;
        applied_action_ids_by_layer =
            insert entry.layer_id (stack entry.layer_id r.applied_action_ids_by_layer)
              s.applied_action_ids_by_layer;
        undone_action_ids_by_layer =
            with_stack entry.layer_id (push entry.action_id) s.undone_action_ids_by_layer;
      }

  undo_stroke :
      (r : HistoryRuntime R Value) (entry : Record Value) (b : Text)
      (patches : List SharedCellPatch)
      → undo_top_action (stroke_of r entry b patches) entry.layer_id ≡ (
        undone_of r entry b patches,
        some (record { block_id = b; patches = map inverse patches; action_id = entry.action_id }),
      )
  unfolding push_history_record record_stroke with_stack paint
  undo_stroke r entry b patches =
      let applied : AppliedCellPatches = record {
        layer_id = entry.layer_id;
        block_id = b;
        patches = patches;
      } in
      undo_known (stroke_of r entry b patches) entry.layer_id entry.action_id
        (stack entry.layer_id r.applied_action_ids_by_layer) applied
        (get-insert_same entry.layer_id
          (push entry.action_id (stack entry.layer_id r.applied_action_ids_by_layer))
          r.applied_action_ids_by_layer)
        (get-insert_same entry.action_id applied r.patches_by_action_id)

  -- Undoing the record of a stroke, whose patches start from the canvas of its bar made content, gives
  -- every cell of that canvas back and the stack of the layer as it was, with the stroke as the only
  -- undone action; the patches returned are the stroke's turned around.
  pub undo_top_action-apply_action_record :
      (r : HistoryRuntime R Value) (entry : Record Value) (b : Text) (patch : SharedCellPatch)
      (patches : List SharedCellPatch) (reverts : Option Text) (q : CellPoint)
      → entry.action ≡ cell_patch_set (patch ∷ patches) (some b) false reverts
      → StartFrom
          (canvas_at (unblank_raster_block r.document entry.layer_id b) entry.layer_id b)
          (patch ∷ patches)
      → let after = undo_top_action (apply_action_record r entry) entry.layer_id in
        (get q (canvas_at after.0.document entry.layer_id b)
          ≡ get q (canvas_at (unblank_raster_block r.document entry.layer_id b) entry.layer_id b))
        × (stack entry.layer_id after.0.applied_action_ids_by_layer
            ≡ stack entry.layer_id r.applied_action_ids_by_layer)
        × (stack entry.layer_id after.0.undone_action_ids_by_layer ≡ entry.action_id ∷ [])
        × (after.1
            ≡ some (record {
              block_id = b;
              patches = map inverse (patch ∷ patches);
              action_id = entry.action_id;
            }))
  unfolding push_history_record record_stroke paint
  undo_top_action-apply_action_record r entry b patch patches reverts q action start =
      let l = entry.layer_id in
      let ps = patch ∷ patches in
      let s : HistoryRuntime R Value = stroke_of r entry b ps in
      let applied : AppliedCellPatches = record { layer_id = l; block_id = b; patches = ps } in
      rw (stroke_lem r entry b patch patches reverts action, undo_stroke r entry b ps)
        (
          ap (get q) (
                canvas_at-repaint s.document applied PatchDirection.before
                ∙ rw (canvas_at-stroke_of r entry b ps) refl)
              ∙ undone_cell q ps (canvas_at (unblank_raster_block r.document l b) l b) start,
          stack-insert l (stack l r.applied_action_ids_by_layer) s.applied_action_ids_by_layer,
          stack-with_stack l (push entry.action_id) s.undone_action_ids_by_layer
              ∙ ap (push entry.action_id)
                  (stack-with_stack l (λ ids. []) r.undone_action_ids_by_layer),
          refl,
        )

  redo_stroke :
      (r : HistoryRuntime R Value) (entry : Record Value) (b : Text)
      (patches : List SharedCellPatch)
      → let u = undone_of r entry b patches in
        redo_top_action u entry.layer_id ≡ (
          record u {
            document =
                repaint u.document
                  (record { layer_id = entry.layer_id; block_id = b; patches = patches })
                  PatchDirection.after;
            undone_action_ids_by_layer = insert entry.layer_id [] u.undone_action_ids_by_layer;
            applied_action_ids_by_layer =
                with_stack entry.layer_id (push entry.action_id) u.applied_action_ids_by_layer;
          },
          some (record { block_id = b; patches = patches; action_id = entry.action_id }),
        )
  unfolding push_history_record record_stroke with_stack paint
  redo_stroke r entry b patches =
      let l = entry.layer_id in
      let s : HistoryRuntime R Value = stroke_of r entry b patches in
      let applied : AppliedCellPatches = record { layer_id = l; block_id = b; patches = patches } in
      redo_known (undone_of r entry b patches) l entry.action_id [] applied
        (get-insert_same l (push entry.action_id (stack l s.undone_action_ids_by_layer))
            s.undone_action_ids_by_layer
          ∙ ap (λ ids. some (push entry.action_id ids))
              (stack-with_stack l (λ ids. []) r.undone_action_ids_by_layer))
        (get-insert_same entry.action_id applied r.patches_by_action_id)

  redone_cell :
      (r : HistoryRuntime R Value) (entry : Record Value) (b : Text)
      (patches : List SharedCellPatch) (q : CellPoint)
      → get q (
          canvas_at
            (repaint
              (undone_of r entry b patches).document
              (record { layer_id = entry.layer_id; block_id = b; patches = patches })
              PatchDirection.after)
            entry.layer_id
            b)
        ≡ get q (canvas_at (stroke_of r entry b patches).document entry.layer_id b)
  redone_cell r entry b patches q =
      let l = entry.layer_id in
      let s : HistoryRuntime R Value = stroke_of r entry b patches in
      let u : HistoryRuntime R Value = undone_of r entry b patches in
      let c : Canvas R = canvas_at (unblank_raster_block r.document l b) l b in
      let applied : AppliedCellPatches = record { layer_id = l; block_id = b; patches = patches } in
      rw
        (
          canvas_at-repaint u.document applied PatchDirection.after,
          canvas_at-repaint s.document applied PatchDirection.before,
          canvas_at-stroke_of r entry b patches,
        )
        (rewritten_cell PatchDirection.before q patches
            (apply_patches c patches PatchDirection.after)
          ∙ rewritten_cell PatchDirection.after q patches c)

  -- Redoing an undone stroke gives every cell of its canvas and the stacks of the layer as the stroke
  -- left them, whatever its patches started from; the patches returned are the stroke's.
  pub redo_top_action-undo_top_action :
      (r : HistoryRuntime R Value) (entry : Record Value) (b : Text) (patch : SharedCellPatch)
      (patches : List SharedCellPatch) (reverts : Option Text) (q : CellPoint)
      → entry.action ≡ cell_patch_set (patch ∷ patches) (some b) false reverts
      → let done = apply_action_record r entry in
        let after = redo_top_action (undo_top_action done entry.layer_id).0 entry.layer_id in
        (get q (canvas_at after.0.document entry.layer_id b)
          ≡ get q (canvas_at done.document entry.layer_id b))
        × (stack entry.layer_id after.0.applied_action_ids_by_layer
            ≡ stack entry.layer_id done.applied_action_ids_by_layer)
        × (stack entry.layer_id after.0.undone_action_ids_by_layer ≡ [])
        × (after.1
            ≡ some
                (record { block_id = b; patches = patch ∷ patches; action_id = entry.action_id }))
  unfolding push_history_record record_stroke paint
  redo_top_action-undo_top_action r entry b patch patches reverts q action =
      let l = entry.layer_id in
      let ps = patch ∷ patches in
      let s : HistoryRuntime R Value = stroke_of r entry b ps in
      let u : HistoryRuntime R Value = undone_of r entry b ps in
      rw
        (
          stroke_lem r entry b patch patches reverts action,
          undo_stroke r entry b ps,
          redo_stroke r entry b ps,
        )
        (
          redone_cell r entry b ps q,
          stack-with_stack l (push entry.action_id) u.applied_action_ids_by_layer
              ∙ ap (push entry.action_id) (
                  stack-insert l (stack l r.applied_action_ids_by_layer)
                    s.applied_action_ids_by_layer)
              ∙ sym (stack-with_stack l (push entry.action_id) r.applied_action_ids_by_layer),
          stack-insert l [] u.undone_action_ids_by_layer,
          refl,
        )
