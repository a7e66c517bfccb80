-- ===== src/Document/Coverage.antt =====
-- The canvases of the raster bars after the pass that covers them (domain/file/storage/storage.rs,
-- `ensure_block_canvas_coverage`).
use thaum_painter.Base.{
  Bool, false, ◌&&◌, ◌||◌, Option, none, some, List, [], ◌∷◌, ◌≡◌, refl, if◌then◌else◌, arith,
  Bool-cases, Option-cases, inl, inr, ◌∙◌,
}
use thaum_painter.Base.Text.{Text, codes, text_eq, text_eq_iff, text_eq_refl}
use thaum_painter.Base.Map.{get, insert, get-insert}
use thaum_painter.Cell.{Renderer, Canvas}
use thaum_painter.Track.Block.{
  SharedDocumentPropertyBlock as Block, SharedDocumentPropertyTrack as Track,
}
use thaum_painter.Document.{
  SharedDocumentRuntime as Runtime, CanvasKey, key_eq, key_eq_iff, key_Eq, property_track,
  cover_blocks, ensure_block_canvas_coverage,
}

module _ {Value : Type 0} where
  -- Whether a bar with an id is there, and whether a blank one is.
  abbrev pub has_bar : Text → List (Block Value) → Bool
  has_bar i [] = false
  has_bar i (b ∷ bs) = text_eq b.id i || has_bar i bs

  abbrev pub has_blank : Text → List (Block Value) → Bool
  has_blank i [] = false
  has_blank i (b ∷ bs) = text_eq b.id i && b.is_blank || has_blank i bs

module _ {R : Renderer} where
  abbrev pub or_empty : Option (Canvas R) → Canvas R
  or_empty none = []
  or_empty (some canvas) = canvas

same_key : (l i j : Text) → key_eq (l, codes "raster", i) (l, codes "raster", j) ≡ text_eq i j
unfolding key_eq
same_key l i j = rw (text_eq_refl l, text_eq_refl (codes "raster")) refl

module _ {R : Renderer} {Value : Type 0} where
  get-cover_blocks :
      (l i : Text) (bs : List (Block Value)) (cs : List (CanvasKey × Canvas R))
      → get (l, codes "raster", i) (cover_blocks l bs cs) ≡ (
          if has_blank i bs
          then some []
          else if has_bar i bs
          then some (or_empty (get (l, codes "raster", i) cs))
          else get (l, codes "raster", i) cs)
  unfolding cover_blocks
  get-cover_blocks l i [] cs = refl
  get-cover_blocks l i (b ∷ bs) cs =
      let entry : Canvas R = or_empty (get (l, codes "raster", b.id) cs) in
      let kept : Canvas R = if b.is_blank then [] else entry in
      let ih = get-cover_blocks l i bs (insert (l, codes "raster", b.id) kept cs) in
      let written = get-insert (l, codes "raster", b.id) (l, codes "raster", i) kept cs in
      elim (Bool-cases (text_eq b.id i)) [
        | inl e ↦
            let s : b.id ≡ i = (text_eq_iff b.id i).0 e in
            let w : get (l, codes "raster", i) (insert (l, codes "raster", b.id) kept cs)
                ≡ some kept =
              written ∙ rw (same_key l b.id i, e) refl in
            ih ∙ rw (w, e, s) (ground arith)
        | inr e ↦
            let w : get (l, codes "raster", i) (insert (l, codes "raster", b.id) kept cs)
                ≡ get (l, codes "raster", i) cs =
              written ∙ rw (same_key l b.id i, e) refl in
            ih ∙ rw (w, e) refl
      ]

  -- After `ensure_block_canvas_coverage` on a layer with a raster track, each raster bar of the layer
  -- has a canvas: an empty one if a bar of that id is blank, and otherwise the one that it had, or an
  -- empty one if it had none. A raster canvas of the layer that belongs to no bar is as it was.
  pub get-ensure_block_canvas_coverage :
      (r : Runtime R Value) (l i : Text) (track : Track Value)
      → property_track r l (codes "raster") ≡ some track
      → get (l, codes "raster", i) (ensure_block_canvas_coverage r l).block_canvases ≡ (
          if has_blank i track.blocks
          then some []
          else if has_bar i track.blocks
          then some (or_empty (get (l, codes "raster", i) r.block_canvases))
          else get (l, codes "raster", i) r.block_canvases)
  unfolding ensure_block_canvas_coverage
  get-ensure_block_canvas_coverage r l i track h =
      rw (ensure_block_canvas_coverage, h) (get-cover_blocks l i track.blocks r.block_canvases)

  cover_blocks-empty :
      (l : Text) (k : CanvasKey) (bs : List (Block Value)) (cs : List (CanvasKey × Canvas R))
      → get k cs ≡ some []
      → get k (cover_blocks l bs cs) ≡ some []
  unfolding cover_blocks
  cover_blocks-empty l k [] cs h = h
  cover_blocks-empty l k (b ∷ bs) cs h =
      let key : CanvasKey = (l, codes "raster", b.id) in
      let entry : Canvas R = or_empty (get key cs) in
      let kept : Canvas R = if b.is_blank then [] else entry in
      let written = get-insert key k kept cs in
      let still : get k (insert key kept cs) ≡ some [] = elim (Bool-cases (key_eq key k)) [
        | inr e ↦ written ∙ rw e h
        | inl e ↦
            let same : key ≡ k = (key_eq_iff key k).0 e in
            let none_there : entry ≡ [] = rw (same, h) refl in
            let nothing : kept ≡ [] = elim (Bool-cases b.is_blank) [
              | inl t ↦ rw t refl
              | inr t ↦ rw t none_there
            ] in
            written ∙ rw (e, nothing) refl
      ] in
      cover_blocks-empty l k bs (insert key kept cs) still

  -- The pass leaves empty canvases empty.
  pub ensure_block_canvas_coverage-empty :
      (r : Runtime R Value) (l : Text) (k : CanvasKey)
      → get k r.block_canvases ≡ some []
      → get k (ensure_block_canvas_coverage r l).block_canvases ≡ some []
  unfolding ensure_block_canvas_coverage
  ensure_block_canvas_coverage-empty r l k h =
      elim (Option-cases (property_track r l (codes "raster"))) [
        | inl e ↦ rw (ensure_block_canvas_coverage, e) h
        | inr e ↦
            rw (ensure_block_canvas_coverage, e.1)
              (cover_blocks-empty l k (e.0).blocks r.block_canvases h)
      ]
