-- ===== src/Document/Timing.antt =====
-- The timing of a layer (domain/file/storage/storage.rs, `set_layer_timing`).
use thaum_painter.Base.{
  ℕ, max, ◌<◌, Bool, true, some, List, [], ◌∷◌, map, ◌≡◌, refl, ◌∙◌, All, u32_max, arith,
  Bool-cases, inl, inr,
}
use thaum_painter.Base.Text.{Text}
use thaum_painter.Cell.{Renderer}
use thaum_painter.Track.Block.{SharedDocumentPropertyTrack as Track}
use thaum_painter.Track.Tiling.{FitsU32, Shows}
use thaum_painter.Track.Tiling.Clip.{Disjoint}
use thaum_painter.Document.{
  SharedDocumentLayer as Layer, SharedDocumentRuntime as Runtime, find, update, is_layer, is_track,
  with_layers, find_layer, property_track, ensure_block_canvas_coverage,
}
use thaum_painter.Document.Edits.{timed_layer, retimed, set_layer_timing}
use thaum_painter.Document.Tracks.{find-update, coverage-layers, property_track-coverage}
use thaum_painter.Document.Tiled.{IsTrackTiled, retiled-IsTrackTiled}

module _ {A : Type 0} where
  -- A write to every element that keeps the test is read back by it.
  find-map :
      (test : A → Bool) (f : A → A) (keeps : (a : A) → test (f a) ≡ test a) (xs : List A) (a : A)
      → find test xs ≡ some a
      → find test (map f xs) ≡ some (f a)
  unfolding find
  find-map test f keeps [] a h = absurd (ground arith)
  find-map test f keeps (x ∷ xs) a h = elim (Bool-cases (test x)) [
    | inl e ↦ let h' = rw (find, e) at h in let s : x ≡ a = cc h' in rw (keeps x ∙ e, s) refl
    | inr e ↦ rw (keeps x ∙ e) (find-map test f keeps xs a (rw (find, e) at h))
  ]

module _ {R : Renderer} {Value : Type 0} where
  module _ (r : Runtime R Value) (l p : Text) (layer : Layer Value) (t : Track Value)
      (start length : ℕ) (layer_found : find_layer r l ≡ some layer)
      (track_found : property_track r l p ≡ some t) (fits : All FitsU32 t.blocks)
      (low : start < u32_max) (apart : Disjoint t.blocks) where
    abbrev timed : Runtime R Value
    timed = with_layers r (update (is_layer l) (timed_layer start length) r.layers)

    timed_found : property_track timed l p ≡ some (retimed start (max length 1) t)
    unfolding property_track find_layer timed_layer
    timed_found =
        let u = find-update (is_layer l) (timed_layer start length) (λ c. refl) r.layers in
        let h : find (is_track p) layer.property_tracks ≡ some t =
          rw (property_track, layer_found) at track_found in
        let f : find (is_layer l) r.layers ≡ some layer = layer_found in
        let m =
          find-map (is_track p) (retimed start (max length 1)) (λ c. refl) layer.property_tracks t
            h in
        rw (property_track, u, f) m

    timing_done : set_layer_timing r l start length ≡ (true, ensure_block_canvas_coverage timed l)
    unfolding set_layer_timing
    timing_done = rw (set_layer_timing, layer_found) refl

    -- The layer with its span.
    timed_layer_found :
        find_layer (ensure_block_canvas_coverage timed l) l ≡ some (timed_layer start length layer)
    unfolding find_layer timed_layer
    timed_layer_found =
        let u = find-update (is_layer l) (timed_layer start length) (λ c. refl) r.layers in
        let f : find (is_layer l) r.layers ≡ some layer = layer_found in
        rw (find_layer, coverage-layers timed l, u, f) refl

    -- Setting the timing of a layer succeeds and stores the span, which is made at least one breath
    -- long. Each track of the layer whose bars do not overlap is left tiled over the new span, and
    -- from its start on shows exactly what it showed, also behind the end of the span.
    pub set_layer_timing-IsTrackTiled :
        ((set_layer_timing r l start length).0 ≡ true)
        × (after : Layer Value) × (find_layer (set_layer_timing r l start length).1 l ≡ some after)
        × (after.start_breath ≡ start)
        × (after.length_breaths ≡ max length 1)
        × IsTrackTiled
            (set_layer_timing r l start length).1
            l
            p
            start
            (max length 1)
            (λ x k v. Shows x k v t.blocks)
    unfolding timed_layer
    set_layer_timing-IsTrackTiled = rw timing_done (
      refl,
      timed_layer start length layer,
      timed_layer_found,
      refl,
      refl,
      retiled-IsTrackTiled _ l p t.blocks start (max length 1) t (λ x k v. Shows x k v t.blocks)
          (property_track-coverage timed l l p ∙ timed_found) fits apart low
          (λ x k v. (λ h. h, λ h. h)),
    )
