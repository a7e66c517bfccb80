-- ===== src/Document/Tracks.antt =====
-- Reading the tracks of an open document after they were written
-- (domain/file/storage/storage.rs, `property_track` and `ensure_property_track_mut`).
use thaum_painter.Base.{
  Bool, true, false, Option, none, some, List, [], ◌∷◌, ◌++◌, ◌≡◌, refl, if◌then◌else◌, arith,
  Bool-cases, Option-cases, inl, inr, ◌∙◌, ap,
}
use thaum_painter.Base.Text.{Text, codes}
use thaum_painter.Cell.{Renderer}
use thaum_painter.Track.Block.{
  SharedDocumentPropertyBlock as Block, SharedDocumentPropertyTrack as Track,
}
use thaum_painter.Document.{
  SharedDocumentLayer as Layer, SharedDocumentRuntime as Runtime, is_layer, is_track, find, update,
  find_layer, property_track, of_layer, ensure_track, ensure_property_track_mut, set_blocks,
  ensure_block_canvas_coverage,
}

module _ {A : Type 0} where
  abbrev pub map_found : (A → A) → Option A → Option A
  map_found f none = none
  map_found f (some a) = some (f a)

  -- A write that keeps the test is read back by it.
  pub find-update :
      (test : A → Bool) (f : A → A) (keeps : (a : A) → test (f a) ≡ test a) (xs : List A)
      → find test (update test f xs) ≡ map_found f (find test xs)
  unfolding find update
  find-update test f keeps [] = refl
  find-update test f keeps (x ∷ xs) = elim (Bool-cases (test x)) [
    | inl e ↦ rw (e, keeps x ∙ e) refl
    | inr e ↦ rw (e, e) (find-update test f keeps xs)
  ]

  pub find-append :
      (test : A → Bool) (xs : List A) (y : A)
      → find test xs ≡ none
      → test y ≡ true
      → find test (xs ++ y ∷ []) ≡ some y
  unfolding find
  find-append test [] y n t = rw t refl
  find-append test (x ∷ xs) y n t = elim (Bool-cases (test x)) [
    | inl e ↦ absurd (ground (arith, (rw (find, e) at n)))
    | inr e ↦ rw e (find-append test xs y (rw (find, e) at n) t)
  ]

  -- The write that a test does not find leaves the other reads as they were.
  pub find-update_other :
      (test other : A → Bool) (f : A → A) (keeps : (a : A) → other (f a) ≡ other a)
      (apart : (a : A) → test a ≡ true → other a ≡ false) (xs : List A)
      → find other (update test f xs) ≡ find other xs
  unfolding find update
  find-update_other test other f keeps apart [] = refl
  find-update_other test other f keeps apart (x ∷ xs) = elim (Bool-cases (test x)) [
    | inl e ↦ rw (e, keeps x ∙ apart x e, apart x e) refl
    | inr e ↦ rw e (
        ap (λ rest. if other x then some x else rest)
          (find-update_other test other f keeps apart xs))
  ]

module _ {Value : Type 0} where
  is_layer-ensure_track :
      (l p : Text) (layer : Layer Value) → is_layer l (ensure_track p layer) ≡ is_layer l layer
  unfolding ensure_track
  is_layer-ensure_track l p layer = elim (Option-cases (find (is_track p) layer.property_tracks)) [
    | inl e ↦ rw (ensure_track, e) refl
    | inr e ↦ rw (ensure_track, e.1) refl
  ]

  ensure_track_found :
      (p : Text) (layer : Layer Value) (t : Track Value)
      → find (is_track p) layer.property_tracks ≡ some t
      → ensure_track p layer ≡ layer
  unfolding ensure_track
  ensure_track_found p layer t h = rw (ensure_track, h) refl

module _ {R : Renderer} {Value : Type 0} where
  property_track-find :
      (r : Runtime R Value) (l p : Text)
      → property_track r l p ≡ of_layer p (find (is_layer l) r.layers)
  unfolding property_track find_layer
  property_track-find r l p = refl

  pub property_track-set_blocks :
      (r : Runtime R Value) (l p : Text) (bs : List (Block Value)) (t : Track Value)
      → property_track r l p ≡ some t
      → property_track (set_blocks r l p bs) l p ≡ some (record t { blocks = bs })
  unfolding set_blocks
  property_track-set_blocks r l p bs t h =
      let write : Layer Value → Layer Value = λ layer. record layer {
        property_tracks =
            update (is_track p) (λ track. record track { blocks = bs }) layer.property_tracks;
      } in
      let u = find-update (is_layer l) write (λ layer. refl) r.layers in
      elim (Option-cases (find (is_layer l) r.layers)) [
        | inl e ↦ absurd (ground (arith, (rw (property_track-find r l p, e) at h)))
        | inr e ↦
            let v =
              find-update (is_track p) (λ track. record track { blocks = bs }) (λ track. refl)
                (e.0).property_tracks in
            let h' : find (is_track p) (e.0).property_tracks ≡ some t =
              rw (property_track-find r l p, e.1) at h in
            rw (property_track-find (set_blocks r l p bs) l p, u, e.1, v, h') refl
      ]

  -- The tracks are read from the layers alone.
  pub property_track-layers :
      (r s : Runtime R Value) (l p : Text)
      → r.layers ≡ s.layers
      → property_track r l p ≡ property_track s l p
  unfolding property_track find_layer
  property_track-layers r s l p e = ap (λ layers. of_layer p (find (is_layer l) layers)) e

  pub coverage-layers :
      (r : Runtime R Value) (l : Text) → (ensure_block_canvas_coverage r l).layers ≡ r.layers
  unfolding ensure_block_canvas_coverage
  coverage-layers r l = elim (Option-cases (property_track r l (codes "raster"))) [
    | inl e ↦ rw (ensure_block_canvas_coverage, e) refl
    | inr e ↦ rw (ensure_block_canvas_coverage, e.1) refl
  ]

  pub property_track-coverage :
      (r : Runtime R Value) (l m p : Text)
      → property_track (ensure_block_canvas_coverage r l) m p ≡ property_track r m p
  unfolding property_track find_layer
  property_track-coverage r l m p =
      ap (λ layers. of_layer p (find (is_layer m) layers)) (coverage-layers r l)

  -- A layer that has the track keeps it.
  pub ensure_property_track_mut_found :
      (r : Runtime R Value) (l p : Text) (t : Track Value)
      → property_track r l p ≡ some t
      → (ensure_property_track_mut r l p).1 ≡ some t
  unfolding ensure_property_track_mut ensure_track
  ensure_property_track_mut_found r l p t h =
      let u =
        find-update (is_layer l) (ensure_track p) (λ layer. is_layer-ensure_track l p layer)
          r.layers in
      elim (Option-cases (find (is_layer l) r.layers)) [
        | inl e ↦ absurd (ground (arith, (rw (property_track-find r l p, e) at h)))
        | inr e ↦
            let h' : find (is_track p) (e.0).property_tracks ≡ some t =
              rw (property_track-find r l p, e.1) at h in
            rw (property_track-find (ensure_property_track_mut r l p).0 l p, u, e.1)
              (rw (ensure_track_found p e.0 t h') h')
      ]
