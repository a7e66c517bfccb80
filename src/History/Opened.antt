-- ===== src/History/Opened.antt =====
-- A runtime opened on a document, and the replay of a log (domain/file/storage/storage.rs).
use thaum_painter.Base.{none, some, List, [], ◌∷◌, map}
use thaum_painter.Base.Text.{Text, codes, text_Eq}
use thaum_painter.Base.Map.{insert}
use thaum_painter.Cell.{Renderer, Canvas}
use thaum_painter.Track.Block.{
  SharedDocumentPropertyBlock as Block, SharedDocumentPropertyTrack as Track,
}
use thaum_painter.Track.Retile.{retiled_property_track}
use thaum_painter.Document.{
  SharedDocumentLayer as Layer, CanvasKey, key_Eq, find, of_layer, with_canvases,
}
use thaum_painter.History.{SharedDocumentActionRecord as Record, HistoryRuntime, DocumentWindow}
use thaum_painter.History.Apply.{replay_onto}

module _ {Value : Type 0} where
  -- Every track tiled over the span of its layer.
  unfoldable pub normalized_layer : Layer Value → Layer Value
  unfolding retiled_property_track
  normalized_layer layer = record layer {
    property_tracks =
        map
          (λ (track : Track Value). record track {
            blocks = retiled_property_track track.blocks layer.start_breath layer.length_breaths;
          })
          layer.property_tracks;
  }

module _ {R : Renderer} {Value : Type 0} where
  -- One empty canvas for each bar of the raster track.
  unfoldable pub empty_canvases :
      Text → List (Block Value) → List (CanvasKey × Canvas R) → List (CanvasKey × Canvas R)
  unfolding insert
  empty_canvases layer_id [] canvases = canvases
  empty_canvases layer_id (block ∷ blocks) canvases =
      empty_canvases layer_id blocks (insert (layer_id, codes "raster", block.id) [] canvases)

  -- The loop of `new` over the layers.
  unfoldable pub open_layers : List (Layer Value) → HistoryRuntime R Value → HistoryRuntime R Value
  unfolding find insert empty_canvases
  open_layers [] r = r
  open_layers (layer ∷ layers) r = open_layers layers (record r {
    document = elim (of_layer (codes "raster") (some layer)) [
      | none ↦ r.document
      | some track ↦
          with_canvases r.document
            (empty_canvases layer.layer_id track.blocks r.document.block_canvases)
    ];
    applied_action_ids_by_layer = insert layer.layer_id [] r.applied_action_ids_by_layer;
    undone_action_ids_by_layer = insert layer.layer_id [] r.undone_action_ids_by_layer;
  })

  unfoldable pub new : Text → List (Layer Value) → DocumentWindow → HistoryRuntime R Value
  unfolding normalized_layer open_layers
  new document_id layers window =
      let normalized : List (Layer Value) = map normalized_layer layers in
      open_layers normalized (record {
        document = record { layers = normalized; block_canvases = [] };
        document_id = document_id;
        document_window = window;
        actions = [];
        applied_action_ids_by_layer = [];
        undone_action_ids_by_layer = [];
        patches_by_action_id = [];
        baseline = [];
        squashed_through = 0;
      })

  unfoldable pub replay :
      Text → List (Layer Value) → DocumentWindow → List (Record Value) → HistoryRuntime R Value
  unfolding new replay_onto
  replay document_id layers window entries = replay_onto (new document_id layers window) entries
