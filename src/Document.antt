-- ===== src/Document.antt =====
-- The layers of an open document with the canvases of their bars, and the edits of their property
-- tracks (domain/file/storage/storage.rs, `SharedDocumentRuntime`).
use thaum_painter.Base.{
  ℕ, zero, suc, ◌+◌, ◌-◌, max, Bool, true, false, not, ◌&&◌, Option, none, some, List, [], ◌∷◌,
  ◌++◌, map, if◌then◌else◌, ◌==◌, ◌≡◌, ◌↔◌, get_elem?, length, arith,
}
use thaum_painter.Base.Text.{Text, codes, text_eq, text_eq_iff}
use thaum_painter.Base.Map.{Eq, get, insert}
use thaum_painter.Cell.{CellPoint, Renderer, Canvas}
use thaum_painter.Track.Block.{
  SharedDocumentPropertyBlock as Block, SharedDocumentPropertyTrack as Track, blank_block,
}
use thaum_painter.Track.Retile.{retiled_property_track}
pub mod Edits
pub mod Cycles
pub mod Tracks
pub mod Coverage
pub mod Tiled
pub mod Seams
pub mod Timing
pub mod Halving
mod Tests

pub record SharedDocumentLayer (Value : Type 0) : Type 0 where
  pub layer_id : Text
  pub name : Text
  pub visible : Bool
  pub locked : Bool
  pub origin : CellPoint
  pub start_breath : ℕ
  pub length_breaths : ℕ
  pub property_tracks : List (Track Value)

-- The key of a canvas: layer, property and bar.
abbrev pub CanvasKey : Type 0
CanvasKey = Text × Text × Text

unfoldable pub key_eq : CanvasKey → CanvasKey → Bool
key_eq j k = text_eq j.0 k.0 && text_eq j.1 k.1 && text_eq j.2 k.2

pub key_eq_iff : (j k : CanvasKey) → (key_eq j k ≡ true) ↔ (j ≡ k)
unfolding key_eq
key_eq_iff j k = ground (arith, text_eq_iff j.0 k.0, text_eq_iff j.1 k.1, text_eq_iff j.2 k.2)

instance abbrev pub key_Eq : Eq CanvasKey
key_Eq = record { beq = key_eq; beq_iff = key_eq_iff }

-- The fields of the runtime that the edits of tracks read and write.
pub record SharedDocumentRuntime (R : Renderer) (Value : Type 0) : Type 0 where
  pub layers : List (SharedDocumentLayer Value)
  pub block_canvases : List (CanvasKey × Canvas R)

-- The first element that passes a test, and a write to it.
module _ {A : Type 0} where
  unfoldable pub find : (A → Bool) → List A → Option A
  find test [] = none
  find test (x ∷ xs) = if test x then some x else find test xs

  unfoldable pub update : (A → Bool) → (A → A) → List A → List A
  update test f [] = []
  update test f (x ∷ xs) = if test x then f x ∷ xs else x ∷ update test f xs

module _ {Value : Type 0} where
  abbrev pub is_layer : Text → SharedDocumentLayer Value → Bool
  is_layer layer_id layer = text_eq layer.layer_id layer_id

  abbrev pub is_track : Text → Track Value → Bool
  is_track property_id track = text_eq track.property_id property_id

  -- The track of a property of a layer that may be missing.
  abbrev pub of_layer : Text → Option (SharedDocumentLayer Value) → Option (Track Value)
  of_layer property_id none = none
  of_layer property_id (some layer) = find (is_track property_id) layer.property_tracks

  unfoldable pub default_property_track : Text → ℕ → ℕ → Track Value
  unfolding retiled_property_track
  default_property_track property_id start_breath length_breaths = record {
    property_id = property_id;
    blocks =
        retiled_property_track
          (record (blank_block (codes "block-1") start_breath (max length_breaths 1)) {
            is_blank = false;
          }
            ∷ [])
          start_breath length_breaths;
  }

  -- The layer with a default track at the end if it had none of the property.
  unfoldable pub ensure_track : Text → SharedDocumentLayer Value → SharedDocumentLayer Value
  unfolding find default_property_track
  ensure_track property_id layer = elim (find (is_track property_id) layer.property_tracks) [
    | some track ↦ layer
    | none ↦ record layer {
      property_tracks =
          layer.property_tracks
          ++ default_property_track property_id layer.start_breath layer.length_breaths ∷ [];
    }
  ]

module _ {R : Renderer} {Value : Type 0} where
  abbrev pub with_layers :
      SharedDocumentRuntime R Value
      → List (SharedDocumentLayer Value)
      → SharedDocumentRuntime R Value
  with_layers r layers = record { layers = layers; block_canvases = r.block_canvases }

  abbrev pub with_canvases :
      SharedDocumentRuntime R Value → List (CanvasKey × Canvas R) → SharedDocumentRuntime R Value
  with_canvases r canvases = record { layers = r.layers; block_canvases = canvases }

  unfoldable pub find_layer :
      SharedDocumentRuntime R Value → Text → Option (SharedDocumentLayer Value)
  unfolding find
  find_layer r layer_id = find (is_layer layer_id) r.layers

  unfoldable pub property_track : SharedDocumentRuntime R Value → Text → Text → Option (Track Value)
  unfolding find_layer
  property_track r layer_id property_id = of_layer property_id (find_layer r layer_id)

  -- The runtime with the track, and the track.
  unfoldable pub ensure_property_track_mut :
      SharedDocumentRuntime R Value
      → Text
      → Text
      → SharedDocumentRuntime R Value × Option (Track Value)
  unfolding ensure_track update property_track
  ensure_property_track_mut r layer_id property_id =
      let ensured =
        with_layers r (update (is_layer layer_id) (ensure_track property_id) r.layers) in
      (ensured, property_track ensured layer_id property_id)

  -- A write through the borrow that `ensure_property_track_mut` gives.
  unfoldable pub set_blocks :
      SharedDocumentRuntime R Value
      → Text
      → Text
      → List (Block Value)
      → SharedDocumentRuntime R Value
  unfolding update
  set_blocks r layer_id property_id blocks = with_layers r (
      update (is_layer layer_id)
        (λ layer. record layer {
          property_tracks =
              update (is_track property_id) (λ track. record track { blocks = blocks })
                layer.property_tracks;
        })
        r.layers)

  -- The loop of `ensure_block_canvas_coverage` over the bars of the raster track.
  unfoldable pub cover_blocks :
      Text → List (Block Value) → List (CanvasKey × Canvas R) → List (CanvasKey × Canvas R)
  unfolding get insert
  cover_blocks layer_id [] canvases = canvases
  cover_blocks layer_id (block ∷ blocks) canvases =
      let key : CanvasKey = (layer_id, codes "raster", block.id) in
      let entry : Canvas R = elim (get key canvases) [ none ↦ [] | some canvas ↦ canvas ] in
      cover_blocks layer_id blocks (insert key (if block.is_blank then [] else entry) canvases)

  unfoldable pub ensure_block_canvas_coverage :
      SharedDocumentRuntime R Value → Text → SharedDocumentRuntime R Value
  unfolding property_track cover_blocks
  ensure_block_canvas_coverage r layer_id = elim (property_track r layer_id (codes "raster")) [
    | none ↦ r
    | some track ↦ with_canvases r (cover_blocks layer_id track.blocks r.block_canvases)
  ]

  -- The end of the edits that re-tile: re-tile over the span of the layer and write.
  unfoldable pub write_tiled :
      SharedDocumentRuntime R Value
      → Text
      → Text
      → List (Block Value)
      → ℕ
      → ℕ
      → SharedDocumentRuntime R Value
  unfolding set_blocks
  write_tiled r layer_id property_id blocks start length =
      set_blocks r layer_id property_id (retiled_property_track blocks start length)
