-- ===== src/History/Reached.antt =====
-- The runtimes that a run reaches: what may happen after a document is opened, and what stays true
-- (domain/file/storage/storage.rs).
use thaum_painter.Base.{
  ◌-◌, Bool, true, false, Option, none, some, List, [], ◌∷◌, map, length, leb, arith, inl, inr,
  Bool-cases, Option-cases,
}
use thaum_painter.Base.Text.{Text, text_Eq}
use thaum_painter.Base.Map.{get}
use thaum_painter.Cell.{Renderer}
use thaum_painter.Document.{SharedDocumentLayer as Layer, SharedDocumentRuntime as Runtime}
use thaum_painter.History.{
  SharedCellPatch, SharedDocumentAction, cell_patch_set, structure_set, undo, redo, DocumentWindow,
  SharedDocumentActionRecord as Record, AppliedCellPatches, HistoryRuntime, stack, with_stack,
}
use thaum_painter.History.Apply.{
  apply_action_record, apply_action, apply_patch_set, apply_structure_set, enter_layers,
  push_history_record,
}
use thaum_painter.History.Painted.{patch_target, paint}
use thaum_painter.History.Opened.{open_layers, new, normalized_layer}
use thaum_painter.History.Undo.{undo_top_action, redo_top_action, stage_canvas_patches}
use thaum_painter.History.Fold.{fold_history, undo_history_depth}
use thaum_painter.History.Recorded.{
  Recorded, mem-filter_stack, written, record_stroke-Recorded, move_reverted-Recorded,
}
use thaum_painter.History.Runs.{
  undo_record-Recorded, redo_record-Recorded, undo_top_action_as, redo_top_action_as,
}

-- What happens to an open document: records applied and logged, strokes staged, undo, redo, folds,
-- and edits of the layers and canvases.
pub data HistoryStep {R : Renderer} {Value : Type 0}
    : HistoryRuntime R Value → HistoryRuntime R Value → Type 0 where
  applied :
      (r : HistoryRuntime R Value) (entry : Record Value)
      → HistoryStep r (apply_action_record r entry)
  logged :
      (r : HistoryRuntime R Value) (entry : Record Value)
      → HistoryStep r (push_history_record r entry)
  staged :
      (r : HistoryRuntime R Value) (l b : Text) (patches : List SharedCellPatch)
      → HistoryStep r (stage_canvas_patches r l b patches)
  undone : (r : HistoryRuntime R Value) (l : Text) → HistoryStep r (undo_top_action r l).0
  redone : (r : HistoryRuntime R Value) (l : Text) → HistoryStep r (redo_top_action r l).0
  folded : (r : HistoryRuntime R Value) → HistoryStep r (fold_history r)
  edited :
      (r : HistoryRuntime R Value) (document : Runtime R Value)
      → HistoryStep r (record r { document = document })

-- Zero or more of them.
pub data HistoryRun {R : Renderer} {Value : Type 0} (start : HistoryRuntime R Value)
    : HistoryRuntime R Value → Type 0 where
  here : HistoryRun start start
  next : {r s : HistoryRuntime R Value} → HistoryRun start r → HistoryStep r s → HistoryRun start s

module _ {R : Renderer} {Value : Type 0} where
  enter_layers-Recorded :
      (ls : List Text) (r : HistoryRuntime R Value) → Recorded r → Recorded (enter_layers ls r)
  unfolding enter_layers with_stack
  enter_layers-Recorded [] r known = known
  enter_layers-Recorded (l ∷ ls) r known =
      let ap = r.applied_action_ids_by_layer in
      let un = r.undone_action_ids_by_layer in
      enter_layers-Recorded ls _
        (written ap un l r.patches_by_action_id (stack l ap) (stack l un) known (λ id h. h))

  apply_structure_set-Recorded :
      (r : HistoryRuntime R Value) (layers : List (Layer Value)) (window : DocumentWindow)
      → Recorded r
      → Recorded (apply_structure_set r layers window)
  unfolding apply_structure_set
  apply_structure_set-Recorded r layers window known =
      let ls : List Text = map (λ (layer : Layer Value). layer.layer_id) layers in
      enter_layers-Recorded ls _ (λ id held. known id (
        held.0,
        elim held.1 [
          | inl k ↦ inl (mem-filter_stack id ls held.0 r.applied_action_ids_by_layer k)
          | inr k ↦ inr (mem-filter_stack id ls held.0 r.undone_action_ids_by_layer k)
        ],
      ))

  apply_patch_set-Recorded :
      (r : HistoryRuntime R Value) (l a : Text) (target : AppliedCellPatches) (passive : Bool)
      (reverts : Option Text)
      → Recorded r
      → Recorded (apply_patch_set r l a target passive reverts)
  unfolding apply_patch_set paint
  apply_patch_set-Recorded r l a target false reverts known =
      record_stroke-Recorded (paint r target.layer_id target.block_id target.patches) l a target
        known
  apply_patch_set-Recorded r l a target true none known = known
  apply_patch_set-Recorded r l a target true (some reverted) known =
      move_reverted-Recorded (paint r target.layer_id target.block_id target.patches) l reverted
        known

  apply_action-Recorded :
      (r : HistoryRuntime R Value) (l a : Text) (action : SharedDocumentAction Value)
      → Recorded r
      → Recorded (apply_action r l a action)
  unfolding apply_action
  apply_action-Recorded r l a (cell_patch_set [] block_id passive reverts) known = known
  apply_action-Recorded r l a (cell_patch_set (patch ∷ patches) block_id passive reverts) known =
      elim (Option-cases (patch_target r.document l block_id)) [
        | inl e ↦ rw (apply_action, e) known
        | inr e ↦
            rw (apply_action, e.1)
              (apply_patch_set-Recorded r l a
                (record { layer_id = (e.0).0; block_id = (e.0).1; patches = patch ∷ patches })
                passive reverts known)
      ]
  apply_action-Recorded r l a undo known = undo_record-Recorded r l known
  apply_action-Recorded r l a redo known = redo_record-Recorded r l known
  apply_action-Recorded r l a (structure_set layers window) known =
      apply_structure_set-Recorded r layers window known

  open_layers-Recorded :
      (layers : List (Layer Value)) (r : HistoryRuntime R Value)
      → Recorded r
      → Recorded (open_layers layers r)
  unfolding open_layers
  open_layers-Recorded [] r known = known
  open_layers-Recorded (layer ∷ layers) r known = open_layers-Recorded layers _ (
      written r.applied_action_ids_by_layer r.undone_action_ids_by_layer layer.layer_id
        r.patches_by_action_id [] [] known (λ id h. ground (arith, h)))

module _ (R : Renderer) {Value : Type 0} where
  new-Recorded :
      (document_id : Text) (layers : List (Layer Value)) (window : DocumentWindow)
      → Recorded (new {R = R} document_id layers window)
  unfolding new stack get
  new-Recorded document_id layers window =
      open_layers-Recorded (map normalized_layer layers) _
        (λ id held. elim held.1 [ inl k ↦ absurd k | inr k ↦ absurd k ])

module _ {R : Renderer} {Value : Type 0} where
  fold_history-Recorded : (r : HistoryRuntime R Value) → Recorded r → Recorded (fold_history r)
  unfolding fold_history
  fold_history-Recorded r known =
      elim (Bool-cases (leb (length r.actions - r.squashed_through) undo_history_depth)) [
        | inl e ↦ rw (fold_history, e) known
        | inr e ↦ rw (fold_history, e) known
      ]

  HistoryStep-Recorded : {r s : HistoryRuntime R Value} → HistoryStep r s → Recorded r → Recorded s
  unfolding apply_action_record push_history_record stage_canvas_patches paint
  HistoryStep-Recorded (applied r entry) known =
      apply_action-Recorded r entry.layer_id entry.action_id entry.action known
  HistoryStep-Recorded (logged r entry) known = known
  HistoryStep-Recorded (staged r l b []) known = known
  HistoryStep-Recorded (staged r l b (patch ∷ patches)) known = known
  HistoryStep-Recorded (undone r l) known = elim (undo_top_action_as r l) [
    | inl e ↦ rw e known
    | inr e ↦ rw e (undo_record-Recorded r l known)
  ]
  HistoryStep-Recorded (redone r l) known = elim (redo_top_action_as r l) [
    | inl e ↦ rw e known
    | inr e ↦ rw e (redo_record-Recorded r l known)
  ]
  HistoryStep-Recorded (folded r) known = fold_history-Recorded r known
  HistoryStep-Recorded (edited r document) known = known

  -- In every runtime that a run from a freshly opened document reaches, each action on a stack of undo
  -- or redo of any layer has its patches recorded.
  pub HistoryRun-Recorded :
      (document_id : Text) (layers : List (Layer Value)) (window : DocumentWindow)
      (s : HistoryRuntime R Value)
      → HistoryRun (new document_id layers window) s
      → Recorded s
  HistoryRun-Recorded document_id layers window _ here = new-Recorded R document_id layers window
  HistoryRun-Recorded document_id layers window s (next {r} run step) =
      HistoryStep-Recorded step (HistoryRun-Recorded document_id layers window r run)
