-- ===== src/Document/Seams.antt =====
-- What blanking a bar and swapping two leave of the track that they edit
-- (domain/file/storage/storage.rs).
use thaum_painter.Base.{
  ℕ, ◌<◌, true, false, some, List, [], ◌∷◌, ◌≡◌, refl, All, u32_max, arith, get_elem?, ◌∙◌, sym, ap,
  ◌≢◌, ◌⊎◌,
}
use thaum_painter.Base.Map.{get, insert, get-insert}
use thaum_painter.Base.Text.{Text, text_eq, text_eq_iff}
use thaum_painter.Cell.{Renderer}
use thaum_painter.Track.Block.{
  SharedDocumentPropertyBlock as Block, SharedDocumentPropertyTrack as Track,
}
use thaum_painter.Track.Tiling.{FitsU32, Shows}
use thaum_painter.Track.Tiling.Clip.{Disjoint}
use thaum_painter.Track.Tiling.Names.{Distinct}
use thaum_painter.Track.Edit.{position, modify, swap_spans, with_span}
use thaum_painter.Track.Edit.Contents.{Shows-blanked, position_found, Disjoint-blanked}
use thaum_painter.Track.Edit.Swapped.{Disjoint-swap_spans, Shows-swap_spans}
use thaum_painter.Document.{
  SharedDocumentLayer as Layer, SharedDocumentRuntime as Runtime, find_layer,
  ensure_property_track_mut, write_tiled, ensure_block_canvas_coverage, with_canvases, key_Eq,
  key_eq_iff,
}
use thaum_painter.Document.Edits.{
  at_block, blank_property_block, swap_property_blocks, span_or_default,
}
use thaum_painter.Track.Edit.Fits.{FitsU32-modify, FitsU32-swap_spans}
use thaum_painter.Document.Coverage.{ensure_block_canvas_coverage-empty}
use thaum_painter.Document.Tiled.{
  IsTrackTiled, retiled-IsTrackTiled, write_tiled_found, ensured_track,
}

module _ {R : Renderer} {Value : Type 0} where
  module _ (r : Runtime R Value) (l p b : Text) (layer : Layer Value) (t : Track Value) (i : ℕ)
      (layer_found : find_layer r l ≡ some layer)
      (ensured : (ensure_property_track_mut r l p).1 ≡ some t) (at : position b t.blocks ≡ some i)
      (fits : All FitsU32 t.blocks) (low : layer.start_breath < u32_max) (apart : Disjoint t.blocks)
      (distinct : Distinct t.blocks) where
    abbrev blanked : List (Block Value)
    blanked = modify i (λ block. record block { is_blank = true }) t.blocks

    blank_done : blank_property_block r l p b ≡ (
      true,
      ensure_block_canvas_coverage
          (with_canvases
            (write_tiled
              (ensure_property_track_mut r l p).0
              l
              p
              blanked
              layer.start_breath
              layer.length_breaths)
            (insert
              (l, p, b)
              []
              (write_tiled
                (ensure_property_track_mut r l p).0
                l
                p
                blanked
                layer.start_breath
                layer.length_breaths).block_canvases))
          l,
    )
    unfolding blank_property_block at_block
    blank_done = rw (blank_property_block, at_block, layer_found, ensured, at) refl

    -- Blanking a bar of a track whose bars do not overlap and have distinct ids succeeds. It leaves
    -- the track tiled over the span of its layer, and from the start of the span on the track shows
    -- exactly what it showed, without the content of that bar. The canvas of the bar is empty.
    pub blank_property_block-IsTrackTiled :
        ((blank_property_block r l p b).0 ≡ true)
        × IsTrackTiled
            (blank_property_block r l p b).1
            l
            p
            layer.start_breath
            layer.length_breaths
            (λ x k v. Shows x k v t.blocks × (k ≢ b))
        × (get (l, p, b) (blank_property_block r l p b).1.block_canvases ≡ some [])
    blank_property_block-IsTrackTiled = rw blank_done (
      refl,
      retiled-IsTrackTiled _ l p blanked layer.start_breath layer.length_breaths t
          (λ x k v. Shows x k v t.blocks × (k ≢ b))
          (write_tiled_found (ensure_property_track_mut r l p).0 _ l p blanked layer.start_breath
            layer.length_breaths t refl (ensured_track r l p t ensured))
          (FitsU32-modify i (λ block. record block { is_blank = true }) t.blocks (λ c f. f) fits)
          (Disjoint-blanked i t.blocks apart) low
          (λ x k v. Shows-blanked i t.blocks b x k v distinct at),
      ensure_block_canvas_coverage-empty _ l (l, p, b)
          (get-insert (l, p, b) (l, p, b) []
              (write_tiled (ensure_property_track_mut r l p).0 l p blanked layer.start_breath
                layer.length_breaths).block_canvases
            ∙ rw ((key_eq_iff (l, p, b) (l, p, b)).1 refl) refl),
    )

    module _ (target : Text) (j : ℕ) (other : text_eq b target ≡ false)
        (target_at : position target t.blocks ≡ some j) (one two : Block Value)
        (one_at : get_elem? t.blocks i ≡ some one) (two_at : get_elem? t.blocks j ≡ some two) where
      swap_done : swap_property_blocks r l p b target ≡ (
        true,
        ensure_block_canvas_coverage
            (write_tiled
              (ensure_property_track_mut r l p).0
              l
              p
              (swap_spans i j t.blocks)
              layer.start_breath
              layer.length_breaths)
            l,
      )
      unfolding swap_property_blocks at_block span_or_default
      swap_done =
          rw
            (
              swap_property_blocks, other, at_block, ensured, at, target_at, span_or_default,
              layer_found,
            )
            refl

      one_is : one.id ≡ b
      one_is =
          let here = position_found b t.blocks i at in
          let same : here.0 ≡ one = cc (sym here.1 ∙ one_at) in rw (← same) here.2

      two_is : two.id ≡ target
      two_is =
          let here = position_found target t.blocks j target_at in
          let same : here.0 ≡ two = cc (sym here.1 ∙ two_at) in rw (← same) here.2

      differ : one.id ≢ two.id
      differ = λ e. ground (arith, other, (text_eq_iff b target).1 (sym one_is ∙ e ∙ two_is))

      differ_at : i ≢ j
      differ_at = λ e.
          let there : get_elem? t.blocks i ≡ some two = rw e two_at in
          let same : one ≡ two = cc (sym one_at ∙ there) in
          differ (ap (λ (c : Block Value). c.id) same)

      -- Swapping the spans of two bars with different ids, on a track whose bars do not overlap and
      -- have distinct ids, succeeds. It leaves the track tiled over the span of its layer, and from
      -- the start of the span on the track shows exactly what the other bars showed, where they
      -- showed it, and the content of each of the two bars on the span of the other.
      pub swap_property_blocks-IsTrackTiled :
          ((swap_property_blocks r l p b target).0 ≡ true)
          × IsTrackTiled
              (swap_property_blocks r l p b target).1
              l
              p
              layer.start_breath
              layer.length_breaths
              (λ x k v.
                (Shows x k v t.blocks × (k ≢ one.id) × (k ≢ two.id))
                ⊎ Shows x k v (
                    with_span two.start_breath two.length_breaths one
                    ∷ with_span one.start_breath one.length_breaths two
                    ∷ []))
      swap_property_blocks-IsTrackTiled = rw swap_done (
        refl,
        retiled-IsTrackTiled _ l p (swap_spans i j t.blocks) layer.start_breath layer.length_breaths
            t
            (λ x k v.
              (Shows x k v t.blocks × (k ≢ one.id) × (k ≢ two.id))
              ⊎ Shows x k v (
                  with_span two.start_breath two.length_breaths one
                  ∷ with_span one.start_breath one.length_breaths two
                  ∷ []))
            (write_tiled_found (ensure_property_track_mut r l p).0 _ l p (swap_spans i j t.blocks)
              layer.start_breath layer.length_breaths t refl (ensured_track r l p t ensured))
            (FitsU32-swap_spans i j t.blocks fits)
            (Disjoint-swap_spans i j t.blocks one two one_at two_at differ_at apart) low
            (λ x k v.
              Shows-swap_spans i j t.blocks one two one_at two_at differ_at x k v distinct differ),
      )
