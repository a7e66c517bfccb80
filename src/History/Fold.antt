-- ===== src/History/Fold.antt =====
-- The log kept short: a prefix of it folded into one baseline record for each canvas
-- (domain/file/storage/storage.rs).
use thaum_painter.Base.{
  ℕ, ◌-◌, none, some, List, [], ◌∷◌, ◌++◌, map, length, take, drop, leb, if◌then◌else◌,
}
use thaum_painter.Base.Text.{Text, codes}
use thaum_painter.Cell.{CellPoint, Renderer, PaintedCell, Canvas}
use thaum_painter.Document.{CanvasKey}
use thaum_painter.History.{
  SharedCellPatch, patch_of, SharedDocumentActionRecord as Record, HistoryRuntime, patch_set,
  as_passive,
}
use thaum_painter.History.Opened.{replay}

abbrev pub undo_history_depth : ℕ
undo_history_depth = 20

module _ {R : Renderer} where
  -- Every cell of a canvas as a patch of an empty one.
  unfoldable pub canvas_patches : Canvas R → List SharedCellPatch
  unfolding patch_of
  canvas_patches canvas =
      map (λ (entry : CellPoint × PaintedCell R). patch_of entry.0 none (some entry.1)) canvas

module _ {R : Renderer} {Value : Type 0} where
  unfoldable pub baseline_record : Text → CanvasKey → Canvas R → Record Value
  unfolding patch_set as_passive canvas_patches
  baseline_record document_id key canvas = as_passive (
      patch_set (codes "baseline-" ++ key.0 ++ codes "-" ++ key.2) document_id key.0
        (codes "history-squash") (codes "baseline") (canvas_patches canvas) (some key.2))

  -- The loop of `fold_history` over the canvases of the replay.
  unfoldable pub baseline_records : Text → List (CanvasKey × Canvas R) → List (Record Value)
  unfolding baseline_record
  baseline_records document_id [] = []
  baseline_records document_id ((key, []) ∷ entries) = baseline_records document_id entries
  baseline_records document_id ((key, cell ∷ cells) ∷ entries) =
      baseline_record document_id key (cell ∷ cells) ∷ baseline_records document_id entries

  unfoldable pub fold_history : HistoryRuntime R Value → HistoryRuntime R Value
  unfolding replay baseline_records
  fold_history r =
      if leb (length r.actions - r.squashed_through) undo_history_depth
      then r
      else let new_cut = length r.actions - undo_history_depth in
        let replayed : HistoryRuntime R Value =
          replay r.document_id r.document.layers r.document_window (take new_cut r.actions) in
        record r {
          baseline = baseline_records r.document_id replayed.document.block_canvases;
          squashed_through = new_cut;
        }

  unfoldable pub actions_for_file : HistoryRuntime R Value → List (Record Value)
  actions_for_file r = r.baseline ++ drop r.squashed_through r.actions
