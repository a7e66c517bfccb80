-- ===== src/Document/Tiled.antt =====
-- Tracks of an open document that are written as re-tiled bars (domain/file/storage/storage.rs).
use thaum_painter.Base.{
  ℕ, max, ◌+◌, ◌≤◌, ◌<◌, false, some, List, [], ◌∷◌, ◌≡◌, All, u32_max, arith, ◌∙◌, ◌↔◌, Option,
  saturating_add,
}
use thaum_painter.Base.Text.{Text, codes}
use thaum_painter.Cell.{Renderer}
use thaum_painter.Track.Block.{
  SharedDocumentPropertyBlock as Block, SharedDocumentPropertyTrack as Track, blank_block,
}
use thaum_painter.Track.Retile.{retiled_property_track}
use thaum_painter.Track.Tiling.{FitsU32, Shows, IsTiled}
use thaum_painter.Track.Tiling.Clip.{Disjoint}
use thaum_painter.Track.Tiling.Retiled.{
  Retiles, retiled_property_track-IsTiled, Shows-retiled_property_track,
  retiled_property_track-keeps_content,
}
use thaum_painter.Track.Edit.Contents.{Chain-Shows}
use thaum_painter.Document.{
  SharedDocumentRuntime as Runtime, property_track, ensure_property_track_mut, set_blocks,
  default_property_track, write_tiled, ensure_block_canvas_coverage, key_Eq,
}
use thaum_painter.Document.Tracks.{
  property_track-layers, property_track-set_blocks, property_track-coverage,
}

module _ {R : Renderer} {Value : Type 0} where
  -- The track of a property is a binary tiling from a start on, up to the end of a span at least,
  -- and shows from the start on exactly a content: for each breath, ids and values.
  pub record IsTrackTiled (r : Runtime R Value) (l p : Text) (start length : ℕ)
      (Content : ℕ → Text → Option Value → Type 0) : Type 0 where
    pub track : Track Value
    pub found : property_track r l p ≡ some track
    pub end : ℕ
    pub tiled : IsTiled start end track.blocks
    pub covers : saturating_add start (max length 1) ≤ end
    pub shows :
        (x : ℕ) (k : Text) (v : Option Value)
        → Shows x k v track.blocks ↔ ((start ≤ x) × Content x k v)

  -- A track that is found with the re-tiled bars, which do not overlap.
  pub retiled-IsTrackTiled :
      (r : Runtime R Value) (l p : Text) (bs : List (Block Value)) (start length : ℕ)
      (t : Track Value) (Content : ℕ → Text → Option Value → Type 0)
      → property_track r l p ≡ some (record t { blocks = retiled_property_track bs start length })
      → All FitsU32 bs
      → Disjoint bs
      → start < u32_max
      → ((x : ℕ) (k : Text) (v : Option Value) → Shows x k v bs ↔ Content x k v)
      → IsTrackTiled r l p start length Content
  retiled-IsTrackTiled r l p bs start length t Content h fits apart low same =
      let out = retiled_property_track bs start length in
      let tiles = retiled_property_track-IsTiled bs start length fits low in
      record {
        track = record t { blocks = out };
        found = h;
        end = tiles.end;
        tiled = tiles.tiled;
        covers = tiles.covers;
        shows = λ x k v. (
          λ m. (
            Chain-Shows start tiles.end x k v out tiles.tiled.chain m,
            (same x k v).0 (Shows-retiled_property_track bs start length fits low x k v m),
          ),
          λ m.
              (retiled_property_track-keeps_content bs start length fits low x k v apart m.0).1
                ((same x k v).1 m.1),
        );
      }

  -- Whatever becomes of the canvases, a write of re-tiled bars is read back.
  pub write_tiled_found :
      (r s : Runtime R Value) (l p : Text) (bs : List (Block Value)) (start length : ℕ)
      (t : Track Value)
      → s.layers ≡ (write_tiled r l p bs start length).layers
      → property_track r l p ≡ some t
      → property_track (ensure_block_canvas_coverage s l) l p
        ≡ some (record t { blocks = retiled_property_track bs start length })
  unfolding write_tiled
  write_tiled_found r s l p bs start length t same h =
      let out = retiled_property_track bs start length in
      property_track-coverage s l l p
      ∙ property_track-layers s (set_blocks r l p out) l p same
      ∙ property_track-set_blocks r l p out t h

  pub ensured_track :
      (r : Runtime R Value) (l p : Text) (t : Track Value)
      → (ensure_property_track_mut r l p).1 ≡ some t
      → property_track (ensure_property_track_mut r l p).0 l p ≡ some t
  unfolding ensure_property_track_mut
  ensured_track r l p t h = h

-- A property that a layer does not have yet is born tiled, with one solid bar over the span.
pub default_property_track-IsTiled :
    {Value : Type 0} (property_id : Text) (start length : ℕ)
    → start < u32_max
    → max length 1 + start ≤ u32_max
    → Retiles
        (record (blank_block {Value = Value} (codes "block-1") start (max length 1)) {
          is_blank = false;
        }
          ∷ [])
        start
        length
        (default_property_track {Value = Value} property_id start length).blocks
unfolding default_property_track
default_property_track-IsTiled property_id start length low fits =
    retiled_property_track-IsTiled
      (record (blank_block (codes "block-1") start (max length 1)) { is_blank = false } ∷ []) start
      length ((omega arith, omega arith), tt) low
