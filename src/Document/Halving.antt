-- ===== src/Document/Halving.antt =====
-- Splitting a bar of an open document (domain/file/storage/storage.rs, `split_property_block`).
use thaum_painter.Base.{
  ℕ, ◌&&◌, Option, some, List, [], ◌≡◌, ◌↔◌, refl, ◌∙◌, All, Bool-cases, inl, inr, if◌then◌else◌,
}
use thaum_painter.Base.Text.{Text, codes, text_eq}
use thaum_painter.Base.Map.{get, insert, get-insert}
use thaum_painter.Cell.{Renderer}
use thaum_painter.Track.Block.{
  SharedDocumentPropertyBlock as Block, SharedDocumentPropertyTrack as Track,
}
use thaum_painter.Track.Tiling.{FitsU32}
use thaum_painter.Track.Edit.{position, split_blocks}
use thaum_painter.Track.Edit.Halves.{Paints}
use thaum_painter.Track.Edit.Split.{split_blocks-Paints}
use thaum_painter.Document.{
  SharedDocumentRuntime as Runtime, CanvasKey, key_eq, key_Eq, property_track,
  ensure_property_track_mut, set_blocks, with_canvases,
}
use thaum_painter.Document.Edits.{at_block, split_property_block}
use thaum_painter.Document.Tracks.{property_track-layers, property_track-set_blocks}
use thaum_painter.Document.Tiled.{ensured_track}

module _ {R : Renderer} {Value : Type 0} where
  module _ (r : Runtime R Value) (l p b : Text) (n : ℕ) (t : Track Value) (i : ℕ)
      (halves : List (Block Value) × Text) (ensured : (ensure_property_track_mut r l p).1 ≡ some t)
      (at : position b t.blocks ≡ some i) (fits : All FitsU32 t.blocks)
      (cut : split_blocks b n t.blocks ≡ some halves) where
    abbrev written : Runtime R Value
    written = set_blocks (ensure_property_track_mut r l p).0 l p halves.0

    abbrev covered : Runtime R Value
    covered =
        if text_eq p (codes "raster")
        then with_canvases written (insert (l, codes "raster", halves.1) [] written.block_canvases)
        else written

    split_done : split_property_block r l p b n ≡ (some halves.1, covered)
    unfolding split_property_block at_block
    split_done = rw (split_property_block, at_block, ensured, at, cut) refl

    covered-layers : covered.layers ≡ written.layers
    covered-layers = elim (Bool-cases (text_eq p (codes "raster"))) [
      | inl e ↦ rw e refl
      | inr e ↦ rw e refl
    ]

    written-canvases : written.block_canvases ≡ r.block_canvases
    unfolding set_blocks ensure_property_track_mut
    written-canvases = refl

    covered-get :
        (k : CanvasKey)
        → get k covered.block_canvases ≡ (
            if text_eq p (codes "raster") && key_eq (l, codes "raster", halves.1) k
            then some []
            else get k r.block_canvases)
    covered-get k =
        let w = get-insert (l, codes "raster", halves.1) k [] written.block_canvases in
        elim (Bool-cases (text_eq p (codes "raster"))) [
          | inl e ↦ rw (e, w) (rw written-canvases refl)
          | inr e ↦ rw e (rw written-canvases refl)
        ]

    -- A split that the bars allow succeeds with the id of the right half. The track shows at every
    -- breath what it showed, and of the canvases only that of the right half of a raster bar is
    -- written, as an empty one.
    pub split_property_block-keeps :
        ((split_property_block r l p b n).0 ≡ some halves.1)
        × (after : Track Value) × (property_track (split_property_block r l p b n).1 l p
            ≡ some after)
        × ((x : ℕ) (v : Option Value) → Paints x v after.blocks ↔ Paints x v t.blocks)
        × ((k : CanvasKey)
            → get k (split_property_block r l p b n).1.block_canvases ≡ (
                if text_eq p (codes "raster") && key_eq (l, codes "raster", halves.1) k
                then some []
                else get k r.block_canvases))
    split_property_block-keeps = rw split_done (
      refl,
      record t { blocks = halves.0 },
      property_track-layers covered written l p covered-layers
          ∙ property_track-set_blocks (ensure_property_track_mut r l p).0 l p halves.0 t
              (ensured_track r l p t ensured),
      split_blocks-Paints b n t.blocks halves fits cut,
      covered-get,
    )
