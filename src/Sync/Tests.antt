-- ===== src/Sync/Tests.antt =====
-- Sessions that share a log, and the theorem at them.
use thaum_painter.Base.{ℕ, ◌≡◌, refl, true, false, none, some, [], ◌∷◌}
use thaum_painter.Base.Int.{pos}
use thaum_painter.Base.Text.{Text, codes, text_eq, text_Eq}
use thaum_painter.Base.Map.{get}
use thaum_painter.Cell.{
  Renderer, CellGraphic, PaintColor, PaintedCell, CellFacing, CellPoint, point_Eq, point_eq,
}
use thaum_painter.Cell.Stored.{from_runtime, to_runtime}
use thaum_painter.Track.Block.{SharedDocumentPropertyTrack as Track, blank_block}
use thaum_painter.Document.{SharedDocumentLayer as Layer, key_Eq, key_eq}
use thaum_painter.History.{
  cell_patch_set, SharedDocumentActionRecord as Record, HistoryRuntime, canvas_at,
}
use thaum_painter.History.Apply.{apply_action_record, replay_onto}
use thaum_painter.History.Opened.{new}
use thaum_painter.Sync.{
  LoopbackActionBus, SyncedDocumentSession, new_session, publish, publish_action, sync_from_bus,
}
use thaum_painter.Sync.Watched.{Watches, opened, published, synced, sync_from_bus-replay_onto}

abbrev plain : Renderer
plain = record {
  Sprite = Text;
  Sided = Text;
  sprite_eq = text_eq;
  sided_eq = text_eq;
  atlas_relative_path = λ s. s;
  sprite_new = λ s. s;
  sided_declaration_json = λ s. s;
  parse_sided_declaration = λ s. some s;
}

abbrev shaded : ℕ → PaintedCell plain
shaded shade = record {
  graphic = CellGraphic.glyph 46;
  color = PaintColor.flat_rgb shade 0 0;
  weight_index = pos 0;
  shader_stack = [];
  facing = CellFacing.pos_z;
}

abbrev origin : CellPoint
origin = record { x = pos 0; y = pos 0; z = pos 0 }

abbrev ink_layer : Text
ink_layer = codes "ink"

abbrev first_bar : Text
first_bar = codes "block-1"

abbrev raster_track : Track ℕ
raster_track = record {
  property_id = codes "raster";
  blocks = record (blank_block first_bar 0 4) { is_blank = false } ∷ [];
}

abbrev only_layer : Layer ℕ
only_layer = record {
  layer_id = ink_layer;
  name = codes "Ink";
  visible = true;
  locked = false;
  origin = origin;
  start_breath = 0;
  length_breaths = 4;
  property_tracks = raster_track ∷ [];
}

abbrev start : HistoryRuntime plain ℕ
start = new (codes "doc") (only_layer ∷ []) (record { start_breath = 0; end_breath = 23 })

-- The same cell, in the shade of a user.
abbrev stroke_of : Text → ℕ → Record ℕ
stroke_of user_id shade = record {
  action_id = user_id;
  document_id = codes "doc";
  layer_id = ink_layer;
  user_id = user_id;
  created_at = codes "now";
  action =
      cell_patch_set
        (record { position = origin; before = none; after = some (from_runtime (shaded shade)) }
          ∷ [])
        (some first_bar) false none;
}

abbrev ann : Text
ann = codes "ann"

abbrev bob : Text
bob = codes "bob"

abbrev empty_bus : LoopbackActionBus ℕ
empty_bus = record { records = [] }

abbrev full_bus : LoopbackActionBus ℕ
full_bus = publish (publish empty_bus (stroke_of ann 200)) (stroke_of bob 90)

-- Cam syncs after each record, Dan only at the end.
abbrev cam : Text
cam = codes "cam"

abbrev dan : Text
dan = codes "dan"

abbrev cam_session : SyncedDocumentSession plain ℕ
cam_session = (sync_from_bus (new_session cam start) (publish empty_bus (stroke_of ann 200))).0

cam_watches : Watches cam start cam_session full_bus
unfolding text_eq
cam_watches = published (stroke_of bob 90) refl (synced (published (stroke_of ann 200) refl opened))

dan_watches : Watches dan start (new_session dan start) full_bus
unfolding text_eq
dan_watches = published (stroke_of bob 90) refl (published (stroke_of ann 200) refl opened)

sync_from_bus-replay_onto_example :
    ((sync_from_bus cam_session full_bus).0.runtime
      ≡ (sync_from_bus (new_session dan start) full_bus).0.runtime)
    × ((sync_from_bus cam_session full_bus).0.runtime ≡ replay_onto start full_bus.records)
sync_from_bus-replay_onto_example =
    sync_from_bus-replay_onto cam dan start cam_session (new_session dan start) full_bus cam_watches
      dan_watches

-- Ann and Bob paint the same cell before either of them syncs, and then both sync.
abbrev ann_painted : SyncedDocumentSession plain ℕ
ann_painted = (publish_action (new_session ann start) empty_bus (stroke_of ann 200)).0

abbrev bob_painted : SyncedDocumentSession plain ℕ
bob_painted =
    (publish_action (new_session bob start) (publish empty_bus (stroke_of ann 200))
      (stroke_of bob 90)).0

ann_sees :
    get origin
      (canvas_at (sync_from_bus ann_painted full_bus).0.runtime.document ink_layer first_bar)
    ≡ some (shaded 90)
unfolding sync_from_bus publish_action canvas_at apply_action_record new get text_eq key_eq publish
    point_eq to_runtime from_runtime
ann_sees = refl

bob_sees :
    get origin
      (canvas_at (sync_from_bus bob_painted full_bus).0.runtime.document ink_layer first_bar)
    ≡ some (shaded 200)
unfolding sync_from_bus publish_action canvas_at apply_action_record new get text_eq key_eq publish
    point_eq to_runtime from_runtime
bob_sees = refl
