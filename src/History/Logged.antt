-- ===== src/History/Logged.antt =====
-- The log and the part of it that a fold covers (domain/file/storage/storage.rs).
use thaum_painter.Base.{
  ◌≤◌, ◌-◌, ◌+◌, Bool, true, false, Option, none, some, List, [], ◌∷◌, map, length, leb, drop,
  length-append, length-drop, ◌≡◌, refl, arith, inl, inr, Bool-cases, Option-cases,
}
use thaum_painter.Base.Text.{Text, text_Eq}
use thaum_painter.Base.Map.{get}
use thaum_painter.Cell.{Renderer}
use thaum_painter.Document.{SharedDocumentLayer as Layer}
use thaum_painter.History.{
  SharedDocumentAction, cell_patch_set, structure_set, undo, redo, DocumentWindow,
  SharedDocumentActionRecord as Record, AppliedCellPatches, HistoryRuntime, stack, pop,
}
use thaum_painter.History.Apply.{
  apply_action_record, apply_action, apply_patch_set, record_stroke, move_reverted, undo_record,
  redo_record, apply_structure_set, enter_layers, push_history_record, take_out,
}
use thaum_painter.History.Painted.{patch_target, paint}
use thaum_painter.History.Opened.{open_layers, new, normalized_layer}
use thaum_painter.History.Undo.{stage_canvas_patches}
use thaum_painter.History.Fold.{fold_history, undo_history_depth, actions_for_file}
use thaum_painter.History.Runs.{undo_top_action_as, redo_top_action_as}
use thaum_painter.History.Reached.{
  HistoryStep, applied, logged, staged, undone, redone, folded, edited, HistoryRun, here, next,
}

module _ {R : Renderer} {Value : Type 0} where
  -- The log and the length of its folded part are those of another runtime.
  abbrev SameLog : HistoryRuntime R Value → HistoryRuntime R Value → Type 0
  SameLog r s = (s.actions ≡ r.actions) × (s.squashed_through ≡ r.squashed_through)

  move_reverted-SameLog :
      (r : HistoryRuntime R Value) (l a : Text) → SameLog r (move_reverted r l a)
  unfolding move_reverted
  move_reverted-SameLog r l a =
      elim (Option-cases (take_out a (stack l r.applied_action_ids_by_layer))) [
        | inr e ↦ rw (move_reverted, e.1) (refl, refl)
        | inl e ↦ elim (Option-cases (take_out a (stack l r.undone_action_ids_by_layer))) [
          | inr k ↦ rw (move_reverted, e, k.1) (refl, refl)
          | inl k ↦ rw (move_reverted, e, k) (refl, refl)
        ]
      ]

  undo_record-SameLog : (r : HistoryRuntime R Value) (l : Text) → SameLog r (undo_record r l)
  unfolding undo_record
  undo_record-SameLog r l = elim (Option-cases (pop (stack l r.applied_action_ids_by_layer))) [
    | inl e ↦ rw (undo_record, e) (refl, refl)
    | inr e ↦ elim (Option-cases (get (e.0).1 r.patches_by_action_id)) [
      | inl k ↦ rw (undo_record, e.1, k) (refl, refl)
      | inr k ↦ rw (undo_record, e.1, k.1) (refl, refl)
    ]
  ]

  redo_record-SameLog : (r : HistoryRuntime R Value) (l : Text) → SameLog r (redo_record r l)
  unfolding redo_record
  redo_record-SameLog r l = elim (Option-cases (pop (stack l r.undone_action_ids_by_layer))) [
    | inl e ↦ rw (redo_record, e) (refl, refl)
    | inr e ↦ elim (Option-cases (get (e.0).1 r.patches_by_action_id)) [
      | inl k ↦ rw (redo_record, e.1, k) (refl, refl)
      | inr k ↦ rw (redo_record, e.1, k.1) (refl, refl)
    ]
  ]

  enter_layers-SameLog :
      (ls : List Text) (r : HistoryRuntime R Value) → SameLog r (enter_layers ls r)
  unfolding enter_layers
  enter_layers-SameLog [] r = (refl, refl)
  enter_layers-SameLog (l ∷ ls) r = enter_layers-SameLog ls _

  apply_patch_set-SameLog :
      (r : HistoryRuntime R Value) (l a : Text) (target : AppliedCellPatches) (passive : Bool)
      (reverts : Option Text)
      → SameLog r (apply_patch_set r l a target passive reverts)
  unfolding apply_patch_set paint record_stroke
  apply_patch_set-SameLog r l a target false reverts = (refl, refl)
  apply_patch_set-SameLog r l a target true none = (refl, refl)
  apply_patch_set-SameLog r l a target true (some reverted) =
      move_reverted-SameLog (paint r target.layer_id target.block_id target.patches) l reverted

  apply_action-SameLog :
      (r : HistoryRuntime R Value) (l a : Text) (action : SharedDocumentAction Value)
      → SameLog r (apply_action r l a action)
  unfolding apply_action apply_structure_set
  apply_action-SameLog r l a (cell_patch_set [] block_id passive reverts) = (refl, refl)
  apply_action-SameLog r l a (cell_patch_set (patch ∷ patches) block_id passive reverts) =
      elim (Option-cases (patch_target r.document l block_id)) [
        | inl e ↦ rw (apply_action, e) (refl, refl)
        | inr e ↦
            rw (apply_action, e.1)
              (apply_patch_set-SameLog r l a
                (record { layer_id = (e.0).0; block_id = (e.0).1; patches = patch ∷ patches })
                passive reverts)
      ]
  apply_action-SameLog r l a undo = undo_record-SameLog r l
  apply_action-SameLog r l a redo = redo_record-SameLog r l
  apply_action-SameLog r l a (structure_set layers window) =
      enter_layers-SameLog (map (λ (layer : Layer Value). layer.layer_id) layers) _

  -- The folded part is within the log.
  abbrev pub IsLogged : HistoryRuntime R Value → Type 0
  IsLogged r = r.squashed_through ≤ length r.actions

  same-IsLogged : (r s : HistoryRuntime R Value) → SameLog r s → IsLogged r → IsLogged s
  same-IsLogged r s same h = rw (same.0, same.1) h

  push_history_record-IsLogged :
      (r : HistoryRuntime R Value) (entry : Record Value)
      → IsLogged r
      → IsLogged (push_history_record r entry)
  unfolding push_history_record
  push_history_record-IsLogged r entry h = omega (arith, length-append r.actions (entry ∷ []), h)

  fold_history-IsLogged : (r : HistoryRuntime R Value) → IsLogged r → IsLogged (fold_history r)
  unfolding fold_history
  fold_history-IsLogged r h =
      elim (Bool-cases (leb (length r.actions - r.squashed_through) undo_history_depth)) [
        | inl e ↦ rw (fold_history, e) h
        | inr e ↦ rw (fold_history, e) (omega arith)
      ]

  HistoryStep-IsLogged : {r s : HistoryRuntime R Value} → HistoryStep r s → IsLogged r → IsLogged s
  unfolding apply_action_record stage_canvas_patches paint
  HistoryStep-IsLogged (applied r entry) h =
      let done : HistoryRuntime R Value =
        apply_action r entry.layer_id entry.action_id entry.action in
      push_history_record-IsLogged done entry (
        same-IsLogged r done (apply_action-SameLog r entry.layer_id entry.action_id entry.action) h)
  HistoryStep-IsLogged (logged r entry) h = push_history_record-IsLogged r entry h
  HistoryStep-IsLogged (staged r l b []) h = h
  HistoryStep-IsLogged (staged r l b (patch ∷ patches)) h = h
  HistoryStep-IsLogged (undone r l) h = elim (undo_top_action_as r l) [
    | inl e ↦ rw e h
    | inr e ↦ rw e (same-IsLogged r (undo_record r l) (undo_record-SameLog r l) h)
  ]
  HistoryStep-IsLogged (redone r l) h = elim (redo_top_action_as r l) [
    | inl e ↦ rw e h
    | inr e ↦ rw e (same-IsLogged r (redo_record r l) (redo_record-SameLog r l) h)
  ]
  HistoryStep-IsLogged (folded r) h = fold_history-IsLogged r h
  HistoryStep-IsLogged (edited r document) h = h

  open_layers-SameLog :
      (layers : List (Layer Value)) (r : HistoryRuntime R Value) → SameLog r (open_layers layers r)
  unfolding open_layers
  open_layers-SameLog [] r = (refl, refl)
  open_layers-SameLog (layer ∷ layers) r = open_layers-SameLog layers _

module _ (R : Renderer) {Value : Type 0} where
  new-log :
      (document_id : Text) (layers : List (Layer Value)) (window : DocumentWindow)
      → ((new {R = R} document_id layers window).actions ≡ [])
        × ((new {R = R} document_id layers window).squashed_through ≡ 0)
  unfolding new
  new-log document_id layers window = open_layers-SameLog (map normalized_layer layers) _

module _ {R : Renderer} {Value : Type 0} where
  -- In every runtime that a run from a freshly opened document reaches, the part of the log that the
  -- baseline covers is within the log.
  pub HistoryRun-IsLogged :
      (document_id : Text) (layers : List (Layer Value)) (window : DocumentWindow)
      (s : HistoryRuntime R Value)
      → HistoryRun (new document_id layers window) s
      → IsLogged s
  HistoryRun-IsLogged document_id layers window _ here =
      let log = new-log R document_id layers window in rw (log.0, log.1) (omega arith)
  HistoryRun-IsLogged document_id layers window s (next {r} run step) =
      HistoryStep-IsLogged step (HistoryRun-IsLogged document_id layers window r run)

  saved :
      (r : HistoryRuntime R Value)
      → length (actions_for_file r) ≡ length r.baseline + (length r.actions - r.squashed_through)
  unfolding actions_for_file
  saved r = omega (
    arith,
    length-append r.baseline (drop r.squashed_through r.actions),
    length-drop r.squashed_through r.actions,
  )

  -- After a fold at most twenty records of the log are not covered by the baseline, and at most twenty
  -- are saved after it.
  pub fold_history-actions_for_file :
      (r : HistoryRuntime R Value)
      → let folded_log = fold_history r in
        (length folded_log.actions - folded_log.squashed_through ≤ 20)
        × (length (actions_for_file folded_log) ≤ length folded_log.baseline + 20)
  unfolding fold_history
  fold_history-actions_for_file r =
      let s : HistoryRuntime R Value = fold_history r in
      let short : length s.actions - s.squashed_through ≤ 20 =
        elim (Bool-cases (leb (length r.actions - r.squashed_through) undo_history_depth)) [
          | inl e ↦
              let kept : length r.actions - r.squashed_through ≤ 20 = ground (arith, e) in
              rw (fold_history, e) kept
          | inr e ↦ rw (fold_history, e) (omega arith)
        ] in
      (short, omega (arith, short, saved s))
