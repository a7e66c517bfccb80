-- ===== src/Document/Edits.antt =====
-- The edits of the property tracks of an open document (domain/file/storage/storage.rs): each returns
-- what the source returns, with the runtime after it.
use thaum_painter.Base.{
  ℕ, max, Bool, true, false, not, Option, none, some, [], map, if◌then◌else◌, get_elem?,
}
use thaum_painter.Base.Text.{Text, codes, text_eq}
use thaum_painter.Base.Map.{insert, remove}
use thaum_painter.Cell.{Renderer}
use thaum_painter.Track.Block.{SharedDocumentPropertyTrack as Track}
use thaum_painter.Track.Retile.{retiled_property_track}
use thaum_painter.Track.Edit.{
  position, modify, split_blocks, swap_spans, merge_target, merge_into, duplicate_at,
}
use thaum_painter.Document.{
  SharedDocumentLayer, SharedDocumentRuntime, key_Eq, with_layers, with_canvases, is_layer, update,
  find_layer, property_track, ensure_property_track_mut, set_blocks, write_tiled,
  ensure_block_canvas_coverage,
}

module _ {Value : Type 0} where
  abbrev pub retimed : ℕ → ℕ → Track Value → Track Value
  retimed start_breath length_breaths track = record track {
    blocks = retiled_property_track track.blocks start_breath length_breaths;
  }

  -- The writes of `set_layer_timing` to the layer.
  unfoldable pub timed_layer : ℕ → ℕ → SharedDocumentLayer Value → SharedDocumentLayer Value
  timed_layer start_breath length_breaths layer = record layer {
    start_breath = start_breath;
    length_breaths = max length_breaths 1;
    property_tracks = map (retimed start_breath (max length_breaths 1)) layer.property_tracks;
  }

module _ {R : Renderer} {Value : Type 0} where
  unfoldable pub set_layer_timing :
      SharedDocumentRuntime R Value → Text → ℕ → ℕ → Bool × SharedDocumentRuntime R Value
  unfolding find_layer update timed_layer ensure_block_canvas_coverage
  set_layer_timing r layer_id start_breath length_breaths = elim (find_layer r layer_id) [
    | none ↦ (false, r)
    | some layer ↦ (
      true,
      ensure_block_canvas_coverage
          (with_layers r
            (update (is_layer layer_id) (timed_layer start_breath length_breaths) r.layers))
          layer_id,
    )
  ]

  -- The early returns of an edit of one bar: the track is made if it is missing, and the edit fails
  -- where the layer or the bar is missing.
  unfoldable pub at_block :
      {X : Type 0}
      → SharedDocumentRuntime R Value
      → Text
      → Text
      → Text
      → X
      → (SharedDocumentRuntime R Value → Track Value → ℕ → X × SharedDocumentRuntime R Value)
      → X × SharedDocumentRuntime R Value
  unfolding ensure_property_track_mut position
  at_block r layer_id property_id block_id failed edit =
      let ensured = ensure_property_track_mut r layer_id property_id in
      elim ensured.1 [
        | none ↦ (failed, ensured.0)
        | some track ↦ elim (position block_id track.blocks) [
          | none ↦ (failed, ensured.0)
          | some index ↦ edit ensured.0 track index
        ]
      ]

  unfoldable pub split_property_block :
      SharedDocumentRuntime R Value
      → Text
      → Text
      → Text
      → ℕ
      → Option Text × SharedDocumentRuntime R Value
  unfolding at_block split_blocks set_blocks insert
  split_property_block r layer_id property_id block_id split_breath =
      at_block r layer_id property_id block_id none (λ ensured track index.
        elim (split_blocks block_id split_breath track.blocks) [
          | none ↦ (none, ensured)
          | some halves ↦
              let cut = set_blocks ensured layer_id property_id halves.0 in
              (
                some halves.1,
                if text_eq property_id (codes "raster")
                    then with_canvases cut
                        (insert (layer_id, codes "raster", halves.1) [] cut.block_canvases)
                    else cut,
              )
        ])

  unfoldable pub blank_property_block :
      SharedDocumentRuntime R Value → Text → Text → Text → Bool × SharedDocumentRuntime R Value
  unfolding at_block find_layer write_tiled modify insert ensure_block_canvas_coverage
  blank_property_block r layer_id property_id block_id = elim (find_layer r layer_id) [
    | none ↦ (false, r)
    | some layer ↦ at_block r layer_id property_id block_id false (λ ensured track index.
        let blanked = modify index (λ block. record block { is_blank = true }) track.blocks in
        let tiled =
          write_tiled ensured layer_id property_id blanked layer.start_breath
            layer.length_breaths in
        let cleared =
          with_canvases tiled (insert (layer_id, property_id, block_id) [] tiled.block_canvases) in
        (true, ensure_block_canvas_coverage cleared layer_id))
  ]

  -- The span of a layer, or that of one breath if there is no such layer.
  unfoldable pub span_or_default : SharedDocumentRuntime R Value → Text → ℕ × ℕ
  span_or_default r layer_id = elim (find_layer r layer_id) [
    | none ↦ (0, 1)
    | some layer ↦ (layer.start_breath, layer.length_breaths)
  ]

  unfoldable pub swap_property_blocks :
      SharedDocumentRuntime R Value
      → Text
      → Text
      → Text
      → Text
      → Bool × SharedDocumentRuntime R Value
  unfolding at_block span_or_default write_tiled swap_spans position ensure_block_canvas_coverage
  swap_property_blocks r layer_id property_id source_block_id target_block_id =
      if text_eq source_block_id target_block_id
      then (false, r)
      else let span = span_or_default r layer_id in
        at_block r layer_id property_id source_block_id false (λ ensured track source.
          elim (position target_block_id track.blocks) [
            | none ↦ (false, ensured)
            | some target ↦ (
              true,
              ensure_block_canvas_coverage
                  (write_tiled ensured layer_id property_id (swap_spans source target track.blocks)
                    span.0 span.1)
                  layer_id,
            )
          ])

  unfoldable pub merge_empty_property_block :
      SharedDocumentRuntime R Value
      → Text
      → Text
      → Text
      → Bool
      → Bool × SharedDocumentRuntime R Value
  unfolding at_block merge_target merge_into set_blocks remove write_tiled
      ensure_block_canvas_coverage
  merge_empty_property_block r layer_id property_id block_id prefer_left =
      at_block r layer_id property_id block_id false (λ ensured track index.
        elim (get_elem? track.blocks index) [
          | none ↦ (false, ensured)
          | some empty ↦
              if not empty.is_blank
              then (false, ensured)
              else elim (merge_target index prefer_left track.blocks) [
                | none ↦ (false, ensured)
                | some target ↦
                    let dropped =
                      with_canvases ensured
                        (remove (layer_id, property_id, block_id) ensured.block_canvases) in
                    let merged = merge_into target index empty track.blocks in
                    elim (find_layer dropped layer_id) [
                      | none ↦ (true, set_blocks dropped layer_id property_id merged)
                      | some layer ↦ (
                        true,
                        ensure_block_canvas_coverage
                            (write_tiled dropped layer_id property_id merged layer.start_breath
                              layer.length_breaths)
                            layer_id,
                      )
                    ]
              ]
        ])

  unfoldable pub duplicate_property_block :
      SharedDocumentRuntime R Value
      → Text
      → Text
      → Text
      → Option Text × SharedDocumentRuntime R Value
  unfolding property_track position duplicate_at insert span_or_default write_tiled
      ensure_block_canvas_coverage
  duplicate_property_block r layer_id property_id block_id =
      elim (property_track r layer_id property_id) [
        | none ↦ (none, r)
        | some track ↦ elim (position block_id track.blocks) [
          | none ↦ (none, r)
          | some index ↦ elim (get_elem? track.blocks index) [
            | none ↦ (none, r)
            | some source ↦
                let copied = duplicate_at index source track.blocks in
                let covered =
                  with_canvases r (insert (layer_id, property_id, copied.1) [] r.block_canvases) in
                let span = span_or_default r layer_id in
                (
                  some copied.1,
                  ensure_block_canvas_coverage
                      (write_tiled covered layer_id property_id copied.0 span.0 span.1) layer_id,
                )
          ]
        ]
      ]
