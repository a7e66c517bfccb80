-- ===== src/History/Baseline.antt =====
-- Baseline records replayed (domain/file/storage/storage.rs, `fold_history`).
use thaum_painter.Base.{none, some, [], ◌∷◌, ◌≡◌, refl, ◌∙◌, ap, Nodup, Option-cases, inl, inr}
use thaum_painter.Base.Text.{Text}
use thaum_painter.Base.Map.{get}
use thaum_painter.Cell.{CellPoint, Renderer, PaintedCell, Canvas, point_Eq}
use thaum_painter.Cell.Stored.{StoresPayloads}
use thaum_painter.History.{patch_set, as_passive, HistoryRuntime, canvas_at}
use thaum_painter.History.Patches.{PatchDirection, apply_patches}
use thaum_painter.History.Painted.{unblank_raster_block, paint, patch_target}
use thaum_painter.History.Apply.{
  apply_action_record, apply_action, apply_patch_set, push_history_record,
}
use thaum_painter.History.Fold.{canvas_patches, baseline_record}
use thaum_painter.History.Canvases.{points_of, get-canvas_patches}
use thaum_painter.History.Stacks.{canvas_at-paint}

module _ {R : Renderer} where
  filled :
      (q : CellPoint) (canvas : Canvas R)
      → elim (get q canvas) [ none ↦ none | some cell ↦ some cell ] ≡ get q canvas
  unfolding get
  filled q canvas = elim (Option-cases (get q canvas)) [ inl e ↦ rw e refl | inr e ↦ rw e.1 refl ]

module _ {R : Renderer} {Value : Type 0} where
  -- A record of patches that is passive and reverts nothing only paints.
  baseline_record_lem :
      (r : HistoryRuntime R Value) (document_id l p b : Text) (cell : CellPoint × PaintedCell R)
      (cells : Canvas R)
      → apply_action_record r (baseline_record document_id (l, p, b) (cell ∷ cells))
        ≡ push_history_record
            (paint r l b (canvas_patches (cell ∷ cells)))
            (baseline_record document_id (l, p, b) (cell ∷ cells))
  unfolding apply_action_record apply_action apply_patch_set patch_target baseline_record patch_set
      as_passive canvas_patches
  baseline_record_lem r document_id l p b cell cells = refl

  -- The baseline record of a canvas whose points are all different gives every cell of that canvas to
  -- a bar whose canvas is empty once it is made content, and leaves both stacks as they were.
  pub apply_action_record-baseline_record :
      (laws : StoresPayloads R) (r : HistoryRuntime R Value) (document_id l p b : Text)
      (cell : CellPoint × PaintedCell R) (cells : Canvas R) (q : CellPoint)
      → Nodup (points_of (cell ∷ cells))
      → canvas_at (unblank_raster_block r.document l b) l b ≡ []
      → let after = apply_action_record r (baseline_record document_id (l, p, b) (cell ∷ cells)) in
        (get q (canvas_at after.document l b) ≡ get q (cell ∷ cells))
        × (after.applied_action_ids_by_layer ≡ r.applied_action_ids_by_layer)
        × (after.undone_action_ids_by_layer ≡ r.undone_action_ids_by_layer)
  unfolding push_history_record paint get
  apply_action_record-baseline_record laws r document_id l p b cell cells q distinct empty =
      let canvas : Canvas R = cell ∷ cells in
      let same : get q (apply_patches [] (canvas_patches canvas) PatchDirection.after)
          ≡ get q canvas =
        get-canvas_patches laws q canvas [] distinct ∙ filled q canvas in
      rw (baseline_record_lem r document_id l p b cell cells)
        (ap (get q) (canvas_at-paint r l b (canvas_patches canvas)) ∙ rw empty same, refl, refl)
