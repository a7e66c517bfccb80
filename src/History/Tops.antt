-- ===== src/History/Tops.antt =====
-- When undo and redo return patches (domain/file/storage/storage.rs).
use thaum_painter.Base.{List, is_some, ◌≡◌, refl, arith, ◌∈◌, inl, inr, Option-cases}
use thaum_painter.Base.Text.{Text, text_Eq}
use thaum_painter.Base.Map.{get}
use thaum_painter.Cell.{Renderer}
use thaum_painter.Document.{SharedDocumentLayer as Layer}
use thaum_painter.History.{DocumentWindow, HistoryRuntime, stack, pop}
use thaum_painter.History.Opened.{new}
use thaum_painter.History.Undo.{undo_top_action, redo_top_action}
use thaum_painter.History.Recorded.{Recorded, mem-pop}
use thaum_painter.History.Reached.{HistoryRun, HistoryRun-Recorded}

module _ {R : Renderer} {Value : Type 0} where
  undo_top_action_some :
      (r : HistoryRuntime R Value) (l : Text)
      → Recorded r
      → is_some (undo_top_action r l).1 ≡ is_some (pop (stack l r.applied_action_ids_by_layer))
  unfolding undo_top_action stack pop
  undo_top_action_some r l known = elim (Option-cases (get l r.applied_action_ids_by_layer)) [
    | inl e ↦ rw (undo_top_action, stack, e) refl
    | inr e ↦ elim (Option-cases (pop e.0)) [
      | inl k ↦ rw (undo_top_action, stack, e.1, k) refl
      | inr k ↦
          let top = k.0 in
          let on_stack : top.1 ∈ stack l r.applied_action_ids_by_layer =
            rw (stack, e.1) ((mem-pop e.0 top k.1).0) in
          let there = known top.1 (l, inl on_stack) in
          elim (Option-cases (get top.1 r.patches_by_action_id)) [
            | inl n ↦ absurd (ground (arith, rw n at there))
            | inr n ↦ rw (undo_top_action, stack, e.1, k.1, n.1) refl
          ]
    ]
  ]

  redo_top_action_some :
      (r : HistoryRuntime R Value) (l : Text)
      → Recorded r
      → is_some (redo_top_action r l).1 ≡ is_some (pop (stack l r.undone_action_ids_by_layer))
  unfolding redo_top_action stack pop
  redo_top_action_some r l known = elim (Option-cases (get l r.undone_action_ids_by_layer)) [
    | inl e ↦ rw (redo_top_action, stack, e) refl
    | inr e ↦ elim (Option-cases (pop e.0)) [
      | inl k ↦ rw (redo_top_action, stack, e.1, k) refl
      | inr k ↦
          let top = k.0 in
          let on_stack : top.1 ∈ stack l r.undone_action_ids_by_layer =
            rw (stack, e.1) ((mem-pop e.0 top k.1).0) in
          let there = known top.1 (l, inr on_stack) in
          elim (Option-cases (get top.1 r.patches_by_action_id)) [
            | inl n ↦ absurd (ground (arith, rw n at there))
            | inr n ↦ rw (redo_top_action, stack, e.1, k.1, n.1) refl
          ]
    ]
  ]

  -- In every such runtime an undo of a layer returns patches exactly when the layer has an applied
  -- action, and a redo exactly when it has an undone one.
  pub HistoryRun-top_action :
      (document_id : Text) (layers : List (Layer Value)) (window : DocumentWindow)
      (s : HistoryRuntime R Value) (l : Text)
      → HistoryRun (new document_id layers window) s
      → (is_some (undo_top_action s l).1 ≡ is_some (pop (stack l s.applied_action_ids_by_layer)))
        × (is_some (redo_top_action s l).1 ≡ is_some (pop (stack l s.undone_action_ids_by_layer)))
  HistoryRun-top_action document_id layers window s l run =
      let known = HistoryRun-Recorded document_id layers window s run in
      (undo_top_action_some s l known, redo_top_action_some s l known)
