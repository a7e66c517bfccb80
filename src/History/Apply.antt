-- ===== src/History/Apply.antt =====
-- Action records applied to a runtime, and their replay (domain/file/storage/storage.rs).
use thaum_painter.Base.{Bool, not, Option, none, some, List, [], ◌∷◌, map, filter, if◌then◌else◌}
use thaum_painter.Base.Text.{Text, text_eq, contains, text_Eq}
use thaum_painter.Base.Map.{get, insert}
use thaum_painter.Cell.{Renderer}
use thaum_painter.Document.{SharedDocumentLayer as Layer, key_Eq, ensure_block_canvas_coverage}
use thaum_painter.History.{
  SharedDocumentAction, cell_patch_set, structure_set, undo, redo,
  SharedDocumentActionRecord as Record, AppliedCellPatches, HistoryRuntime, DocumentWindow, stack,
  with_stack, push, pop,
}
use thaum_painter.History.Patches.{PatchDirection}
use thaum_painter.History.Painted.{paint, repaint, patch_target}

-- The list without the first element that is the id, where it is there (`iter().position` with
-- `remove`).
unfoldable pub take_out : Text → List Text → Option (List Text)
take_out id [] = none
take_out id (x ∷ xs) =
    let rest = take_out id xs in
    if text_eq x id then some xs else elim rest [ none ↦ none | some ys ↦ some (x ∷ ys) ]

module _ {R : Renderer} {Value : Type 0} where
  -- A stroke on top of the stack of its layer; what was undone there is forgotten.
  unfoldable pub record_stroke :
      HistoryRuntime R Value → Text → Text → AppliedCellPatches → HistoryRuntime R Value
  unfolding with_stack insert
  record_stroke r layer_id action_id applied = record r {
    applied_action_ids_by_layer =
        with_stack layer_id (push action_id) r.applied_action_ids_by_layer;
    undone_action_ids_by_layer = with_stack layer_id (λ ids. []) r.undone_action_ids_by_layer;
    patches_by_action_id = insert action_id applied r.patches_by_action_id;
  }

  -- A revert record moves the action that it names to the other stack.
  unfoldable pub move_reverted : HistoryRuntime R Value → Text → Text → HistoryRuntime R Value
  unfolding with_stack stack take_out insert
  move_reverted r layer_id reverted_id =
      let applied = stack layer_id r.applied_action_ids_by_layer in
      let undone = stack layer_id r.undone_action_ids_by_layer in
      elim (take_out reverted_id applied) [
        | some rest ↦ record r {
          applied_action_ids_by_layer = insert layer_id rest r.applied_action_ids_by_layer;
          undone_action_ids_by_layer =
              with_stack layer_id (push reverted_id) r.undone_action_ids_by_layer;
        }
        | none ↦ elim (take_out reverted_id undone) [
          | some rest ↦ record r {
            applied_action_ids_by_layer =
                insert layer_id (push reverted_id applied) r.applied_action_ids_by_layer;
            undone_action_ids_by_layer = insert layer_id rest r.undone_action_ids_by_layer;
          }
          | none ↦ record r {
            applied_action_ids_by_layer = insert layer_id applied r.applied_action_ids_by_layer;
            undone_action_ids_by_layer = insert layer_id undone r.undone_action_ids_by_layer;
          }
        ]
      ]

  -- The branch of a patch set whose target is known.
  unfoldable pub apply_patch_set :
      HistoryRuntime R Value
      → Text
      → Text
      → AppliedCellPatches
      → Bool
      → Option Text
      → HistoryRuntime R Value
  unfolding paint record_stroke move_reverted
  apply_patch_set r layer_id action_id target passive reverts =
      let painted = paint r target.layer_id target.block_id target.patches in
      if not passive then record_stroke painted layer_id action_id target else elim reverts [
        | none ↦ painted
        | some reverted_id ↦ move_reverted painted layer_id reverted_id
      ]

  -- Legacy records: an action taken off one stack, and put on the other one where its patches are
  -- known.
  unfoldable pub undo_record : HistoryRuntime R Value → Text → HistoryRuntime R Value
  unfolding stack with_stack pop get insert repaint
  undo_record r layer_id = elim (pop (stack layer_id r.applied_action_ids_by_layer)) [
    | none ↦ record r {
      applied_action_ids_by_layer = insert layer_id [] r.applied_action_ids_by_layer;
    }
    | some top ↦
        let popped : HistoryRuntime R Value = record r {
          applied_action_ids_by_layer = insert layer_id top.0 r.applied_action_ids_by_layer;
        } in
        elim (get top.1 r.patches_by_action_id) [
          | none ↦ popped
          | some applied ↦ record popped {
            document = repaint r.document applied PatchDirection.before;
            undone_action_ids_by_layer =
                with_stack layer_id (push top.1) r.undone_action_ids_by_layer;
          }
        ]
  ]

  unfoldable pub redo_record : HistoryRuntime R Value → Text → HistoryRuntime R Value
  unfolding stack with_stack pop get insert repaint
  redo_record r layer_id = elim (pop (stack layer_id r.undone_action_ids_by_layer)) [
    | none ↦ record r {
      undone_action_ids_by_layer = insert layer_id [] r.undone_action_ids_by_layer;
    }
    | some top ↦
        let popped : HistoryRuntime R Value = record r {
          undone_action_ids_by_layer = insert layer_id top.0 r.undone_action_ids_by_layer;
        } in
        elim (get top.1 r.patches_by_action_id) [
          | none ↦ popped
          | some applied ↦ record popped {
            document = repaint r.document applied PatchDirection.after;
            applied_action_ids_by_layer =
                with_stack layer_id (push top.1) r.applied_action_ids_by_layer;
          }
        ]
  ]

  -- The loop of `apply_structure_set` over the new layers: entries for the stacks, and the canvases.
  unfoldable pub enter_layers : List Text → HistoryRuntime R Value → HistoryRuntime R Value
  unfolding with_stack ensure_block_canvas_coverage
  enter_layers [] r = r
  enter_layers (layer_id ∷ layer_ids) r = enter_layers layer_ids (record r {
    applied_action_ids_by_layer = with_stack layer_id (λ ids. ids) r.applied_action_ids_by_layer;
    undone_action_ids_by_layer = with_stack layer_id (λ ids. ids) r.undone_action_ids_by_layer;
    document = ensure_block_canvas_coverage r.document layer_id;
  })

  unfoldable pub apply_structure_set :
      HistoryRuntime R Value → List (Layer Value) → DocumentWindow → HistoryRuntime R Value
  unfolding enter_layers contains filter
  apply_structure_set r layers window =
      let layer_ids : List Text = map (λ (layer : Layer Value). layer.layer_id) layers in
      enter_layers layer_ids (record r {
        document = record {
          layers = layers;
          block_canvases = filter (λ entry. contains layer_ids entry.0.0) r.document.block_canvases;
        };
        document_window = window;
        applied_action_ids_by_layer =
            filter (λ entry. contains layer_ids entry.0) r.applied_action_ids_by_layer;
        undone_action_ids_by_layer =
            filter (λ entry. contains layer_ids entry.0) r.undone_action_ids_by_layer;
      })

  -- What an action changes, without the log.
  unfoldable pub apply_action :
      HistoryRuntime R Value → Text → Text → SharedDocumentAction Value → HistoryRuntime R Value
  unfolding patch_target apply_patch_set undo_record redo_record apply_structure_set
  apply_action r layer_id action_id (cell_patch_set [] block_id passive reverts) = r
  apply_action r layer_id action_id (cell_patch_set (patch ∷ patches) block_id passive reverts) =
      elim (patch_target r.document layer_id block_id) [
        | none ↦ r
        | some target ↦
            apply_patch_set r layer_id action_id
              (record { layer_id = target.0; block_id = target.1; patches = patch ∷ patches })
              passive reverts
      ]
  apply_action r layer_id action_id undo = undo_record r layer_id
  apply_action r layer_id action_id redo = redo_record r layer_id
  apply_action r layer_id action_id (structure_set layers window) =
      apply_structure_set r layers window

  unfoldable pub push_history_record :
      HistoryRuntime R Value → Record Value → HistoryRuntime R Value
  push_history_record r entry = record r { actions = push entry r.actions }

  unfoldable pub apply_action_record :
      HistoryRuntime R Value → Record Value → HistoryRuntime R Value
  unfolding apply_action push_history_record
  apply_action_record r entry =
      push_history_record (apply_action r entry.layer_id entry.action_id entry.action) entry

  unfoldable pub replay_onto : HistoryRuntime R Value → List (Record Value) → HistoryRuntime R Value
  unfolding apply_action_record
  replay_onto r [] = r
  replay_onto r (entry ∷ entries) = replay_onto (apply_action_record r entry) entries
