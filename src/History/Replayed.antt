-- ===== src/History/Replayed.antt =====
-- Revert records replayed, and strokes staged before they are recorded
-- (domain/file/storage/storage.rs).
use thaum_painter.Base.{
  Bool, false, none, some, List, [], ◌∷◌, map, ◌≡◌, refl, sym, ◌∙◌, arith, ◌∈◌, Option-cases,
  Bool-cases, inl, inr,
}
use thaum_painter.Base.Text.{Text, codes, text_Eq, text_eq_iff}
use thaum_painter.Base.Map.{get, insert}
use thaum_painter.Cell.{CellPoint, Renderer, point_Eq}
use thaum_painter.Document.{
  SharedDocumentRuntime as Runtime, find_layer, property_track, write_tiled, set_blocks, key_Eq,
  ensure_block_canvas_coverage,
}
use thaum_painter.Document.Coverage.{or_empty, has_bar, has_blank, get-ensure_block_canvas_coverage}
use thaum_painter.Document.Tracks.{property_track-coverage}
use thaum_painter.History.{
  SharedCellPatch, inverse, revert_patch_set, AppliedCellPatches, HistoryRevertPatches,
  HistoryRuntime, stack, with_stack, push, canvas_at,
}
use thaum_painter.History.Patches.{PatchDirection}
use thaum_painter.History.Apply.{
  apply_action_record, apply_action, apply_patch_set, move_reverted, take_out, push_history_record,
}
use thaum_painter.History.Painted.{
  patch_target, unblank_raster_block, unblank_blocks, span_of, paint,
}
use thaum_painter.History.Undo.{undo_top_action, stage_canvas_patches}
use thaum_painter.History.Canvases.{apply_patches-inverse, rewritten_cell}
use thaum_painter.History.Stacks.{canvas_at-repaint, canvas_at-paint, undo_known}

pub take_out-push :
    (id : Text) (ids : List Text) → ¬ (id ∈ ids) → take_out id (push id ids) ≡ some ids
unfolding take_out
take_out-push id [] h = ground (arith, text_eq_iff id id)
take_out-push id (x ∷ xs) h =
    ground (arith, text_eq_iff x id, h, take_out-push id xs (λ m. h (inr m)))

module _ {R : Renderer} {Value : Type 0} where
  -- Whether a blank bar of the raster track has an id.
  unfoldable pub blank_bar : Runtime R Value → Text → Text → Bool
  blank_bar document l b = elim (property_track document l (codes "raster")) [
    | none ↦ false
    | some track ↦ has_blank b track.blocks
  ]

  canvas_or_empty :
      (d : Runtime R Value) (l b : Text)
      → or_empty (get (l, codes "raster", b) d.block_canvases) ≡ canvas_at d l b
  unfolding canvas_at
  canvas_or_empty d l b = elim (Option-cases (get (l, codes "raster", b) d.block_canvases)) [
    | inl n ↦ rw (canvas_at, n) refl
    | inr n ↦ rw (canvas_at, n.1) refl
  ]

  canvas_at-coverage :
      (d : Runtime R Value) (l b : Text)
      → blank_bar (ensure_block_canvas_coverage d l) l b ≡ false
      → canvas_at (ensure_block_canvas_coverage d l) l b ≡ canvas_at d l b
  unfolding blank_bar canvas_at ensure_block_canvas_coverage
  canvas_at-coverage d l b h =
      let e = property_track-coverage d l l (codes "raster") in
      elim (Option-cases (property_track d l (codes "raster"))) [
        | inl n ↦ rw (ensure_block_canvas_coverage, n) refl
        | inr n ↦
            let no_blank : has_blank b (n.0).blocks ≡ false = rw (blank_bar, e, n.1) at h in
            let g = get-ensure_block_canvas_coverage d l b n.0 n.1 in
            elim (Bool-cases (has_bar b (n.0).blocks)) [
              | inl t ↦ rw (canvas_at, g, no_blank, t) (canvas_or_empty d l b)
              | inr t ↦ rw (canvas_at, g, no_blank, t) refl
            ]
      ]

  canvas_at-unblank :
      (d : Runtime R Value) (l b : Text)
      → blank_bar (unblank_raster_block d l b) l b ≡ false
      → canvas_at (unblank_raster_block d l b) l b ≡ canvas_at d l b
  unfolding unblank_raster_block canvas_at write_tiled set_blocks
  canvas_at-unblank d l b h = elim (Option-cases (property_track d l (codes "raster"))) [
    | inl n ↦
        rw (unblank_raster_block, n) (canvas_at-coverage d l b (rw (unblank_raster_block, n) at h))
    | inr n ↦
        let written : Runtime R Value =
          write_tiled d l (codes "raster") (unblank_blocks b (n.0).blocks)
            (span_of (find_layer d l)).0 (span_of (find_layer d l)).1 in
        rw (unblank_raster_block, n.1)
          (canvas_at-coverage written l b (rw (unblank_raster_block, n.1) at h))
  ]

  -- Staging a stroke that is then recorded leaves every cell of its canvas as the record alone does,
  -- where the bar is not blank when the record is applied.
  pub paint-stage_canvas_patches :
      (r : HistoryRuntime R Value) (l b : Text) (patch : SharedCellPatch)
      (patches : List SharedCellPatch) (q : CellPoint)
      → let staged = stage_canvas_patches r l b (patch ∷ patches) in
        blank_bar (unblank_raster_block staged.document l b) l b ≡ false
        → get q (canvas_at (paint staged l b (patch ∷ patches)).document l b)
          ≡ get q (canvas_at (paint r l b (patch ∷ patches)).document l b)
  unfolding stage_canvas_patches
  paint-stage_canvas_patches r l b patch patches q h =
      let ps = patch ∷ patches in
      let staged : Runtime R Value = (paint r l b ps).document in
      rw
        (
          canvas_at-paint (paint r l b ps) l b ps,
          canvas_at-unblank staged l b h,
          canvas_at-paint r l b ps,
        )
        (rewritten_cell PatchDirection.after q ps
          (canvas_at (unblank_raster_block r.document l b) l b))

  replayed_revert :
      (r : HistoryRuntime R Value) (l b id : Text) (patch : SharedCellPatch)
      (patches : List SharedCellPatch) (action_id document_id user_id created_at : Text)
      → let entry =
          revert_patch_set action_id document_id l user_id created_at
            (patch ∷ patches)
            (some b)
            id in
        apply_action_record r entry
        ≡ push_history_record (move_reverted (paint r l b (patch ∷ patches)) l id) entry
  unfolding apply_action_record apply_action apply_patch_set patch_target revert_patch_set
  replayed_revert r l b id patch patches action_id document_id user_id created_at = refl

  -- What a replay of a revert record does to the stacks and to the canvas of its bar.
  reverted_undo :
      (r : HistoryRuntime R Value) (l b id : Text) (ids : List Text)
      (patches : List SharedCellPatch)
      → get l r.applied_action_ids_by_layer ≡ some (push id ids)
      → ¬ (id ∈ ids)
      → move_reverted (paint r l b patches) l id ≡ record (paint r l b patches) {
        applied_action_ids_by_layer = insert l ids r.applied_action_ids_by_layer;
        undone_action_ids_by_layer = with_stack l (push id) r.undone_action_ids_by_layer;
      }
  unfolding move_reverted stack paint
  reverted_undo r l b id ids patches h fresh =
      rw (move_reverted, stack, h, take_out-push id ids fresh) refl

  -- An undo, and the replay of the revert record made of what it returns, agree on the canvas of the
  -- bar, on both stacks and on the recorded patches, where the undone id stands in its stack once and
  -- the bar is not blank when the record is applied.
  pub apply_action_record-undo_top_action :
      (r : HistoryRuntime R Value) (l b id : Text) (ids : List Text) (patch : SharedCellPatch)
      (patches : List SharedCellPatch) (revert : HistoryRevertPatches)
      (action_id document_id user_id created_at : Text)
      → get l r.applied_action_ids_by_layer ≡ some (push id ids)
      → ¬ (id ∈ ids)
      → get id r.patches_by_action_id
        ≡ some (record { layer_id = l; block_id = b; patches = patch ∷ patches })
      → blank_bar (unblank_raster_block r.document l b) l b ≡ false
      → (undo_top_action r l).1 ≡ some revert
      → let live = (undo_top_action r l).0 in
        let replayed = apply_action_record r (
          revert_patch_set action_id document_id l user_id created_at revert.patches
            (some revert.block_id)
            revert.action_id) in
        (canvas_at replayed.document l b ≡ canvas_at live.document l b)
        × (replayed.applied_action_ids_by_layer ≡ live.applied_action_ids_by_layer)
        × (replayed.undone_action_ids_by_layer ≡ live.undone_action_ids_by_layer)
        × (replayed.patches_by_action_id ≡ live.patches_by_action_id)
  unfolding push_history_record paint
  apply_action_record-undo_top_action r l b id ids patch patches revert action_id document_id
        user_id created_at h fresh known open_bar returned =
      let applied : AppliedCellPatches = record {
        layer_id = l;
        block_id = b;
        patches = patch ∷ patches;
      } in
      let undone = undo_known r l id ids applied h known in
      let same : revert
          ≡ record { block_id = b; patches = map inverse (patch ∷ patches); action_id = id } =
        ground (arith, rw undone at returned) in
      rw
        (
          same,
          undone,
          replayed_revert r l b id (inverse patch) (map inverse patches) action_id document_id
              user_id created_at,
          reverted_undo r l b id ids (map inverse (patch ∷ patches)) h fresh,
        )
        (
          canvas_at-paint r l b (map inverse (patch ∷ patches))
              ∙ rw (canvas_at-unblank r.document l b open_bar)
                  (apply_patches-inverse (patch ∷ patches) (canvas_at r.document l b))
              ∙ sym (canvas_at-repaint r.document applied PatchDirection.before),
          refl,
          refl,
          refl,
        )
