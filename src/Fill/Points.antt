-- ===== src/Fill/Points.antt =====
-- Which points a fill takes (domain/painter-operations/fill/fill.rs, `flood_fill_points_with`).
use thaum_painter.Base.{suc, ◌*◌, true, false, ◌&&◌, some, List, [], Bool-cases}
use thaum_painter.Base.{
  arith, ◌≡◌, ◌≢◌, ◌↔◌, inl, inr, refl, length, ◌∈◌, Nodup, filter, mem-filter,
}
use thaum_painter.Base.Map.{get}
use thaum_painter.Cell.{CellPoint, point_Eq, Renderer, Canvas, effective_cell}
use thaum_painter.Plane.{CanvasBounds}
use thaum_painter.Fill.{
  FillConnectivity, adjacent, diagonal, all, FillDepthMode, FillChannelMask, any_enabled,
  region_contains,
}
use thaum_painter.Fill.{
  region_points, matches_at, flood_ground, matching_region_points, depth_span_of,
  flood_fill_points_with,
}
use thaum_painter.Fill.Flood.{Ground, Reach, flood, flood_from}
use thaum_painter.Fill.Flood.Fuel.{weigh-start}
use thaum_painter.Fill.Flood.Reached.{IsReached, flood-IsReached}
use thaum_painter.Fill.Region.{mem-region_points}
use thaum_painter.Fill.Around.{length-neighbors}

module _ {R : Renderer} (canvas : Canvas R) (start : CellPoint) (bounds : CanvasBounds) where
  -- What a contiguous fill walks over.
  abbrev pub ground_of : FillConnectivity → FillChannelMask → FillDepthMode → Ground CellPoint
  ground_of connectivity mask depth =
      flood_ground canvas bounds connectivity mask depth (depth_span_of canvas start bounds depth)
        (effective_cell (get start canvas))

  -- The places that a fill of each connectivity is to take.
  abbrev pub IsFilled : FillConnectivity → FillChannelMask → FillDepthMode → CellPoint → Type 0
  IsFilled adjacent mask depth p = Reach (ground_of adjacent mask depth) start p
  IsFilled diagonal mask depth p = Reach (ground_of diagonal mask depth) start p
  IsFilled all mask depth p =
      (region_contains bounds depth (depth_span_of canvas start bounds depth) p ≡ true)
      × (matches_at canvas mask (effective_cell (get start canvas)) p ≡ true)

  module _ (connectivity : FillConnectivity) (mask : FillChannelMask) (depth : FillDepthMode) where
    contiguous :
        (ps : List CellPoint) × (flood
            (ground_of connectivity mask depth)
            (suc
              (28 * length (region_points bounds depth (depth_span_of canvas start bounds depth))))
            (flood_from start)
          ≡ some ps)
        × IsReached (ground_of connectivity mask depth) start ps
    unfolding flood_ground
    contiguous =
        let span = depth_span_of canvas start bounds depth in
        let region = region_points bounds depth span in
        rw (← weigh-start region) (
          flood-IsReached (ground_of connectivity mask depth) start region
            (λ p h. (mem-region_points bounds depth span p).1 h)
            (λ p. length-neighbors bounds p connectivity depth))

  module _ (mask : FillChannelMask) (depth : FillDepthMode) (enabled : any_enabled mask ≡ true)
      (inside : region_contains bounds depth (depth_span_of canvas start bounds depth) start
        ≡ true) where
    scan-IsFilled :
        (ps : List CellPoint) × (flood_fill_points_with canvas start bounds all mask depth
          ≡ some ps)
        × ((p : CellPoint) → (p ∈ ps) ↔ IsFilled all mask depth p)
    unfolding flood_fill_points_with matching_region_points
    scan-IsFilled =
        let span = depth_span_of canvas start bounds depth in
        let test = matches_at canvas mask (effective_cell (get start canvas)) in
        let region = region_points bounds depth span in
        (
          filter test region,
          rw (enabled, inside) refl,
          λ p.
              let m = mem-filter test p region in
              let r = mem-region_points bounds depth span p in
              (λ h. (r.0 (m.0 h).0, (m.0 h).1), λ h. m.1 (r.1 h.0, h.1)),
        )

    flood-IsReached_by :
        (connectivity : FillConnectivity)
        → connectivity ≢ all
        → (ps : List CellPoint) × (flood_fill_points_with canvas start bounds connectivity mask
              depth
            ≡ some ps)
          × IsReached (ground_of connectivity mask depth) start ps
    unfolding flood_fill_points_with matching_region_points
    flood-IsReached_by adjacent n =
        let f = contiguous adjacent mask depth in (f.0, rw (enabled, inside) f.1, f.2)
    flood-IsReached_by diagonal n =
        let f = contiguous diagonal mask depth in (f.0, rw (enabled, inside) f.1, f.2)
    flood-IsReached_by all n = absurd (n refl)

    -- A fill with a channel to compare, from a start inside its region, ends and takes exactly the
    -- points that it should: those that its steps reach over matching points of the region or, for
    -- `All`, every matching point of the region.
    pub flood_fill_points_with-IsFilled :
        (connectivity : FillConnectivity)
        → (ps : List CellPoint) × (flood_fill_points_with canvas start bounds connectivity mask
              depth
            ≡ some ps)
          × ((p : CellPoint) → (p ∈ ps) ↔ IsFilled connectivity mask depth p)
    flood_fill_points_with-IsFilled adjacent =
        let f = flood-IsReached_by adjacent (ground arith) in (f.0, f.1, f.2.complete)
    flood_fill_points_with-IsFilled diagonal =
        let f = flood-IsReached_by diagonal (ground arith) in (f.0, f.1, f.2.complete)
    flood_fill_points_with-IsFilled all = scan-IsFilled

    -- A contiguous fill takes no point twice.
    pub flood_fill_points_with-Nodup :
        (connectivity : FillConnectivity) (ps : List CellPoint)
        → connectivity ≢ all
        → flood_fill_points_with canvas start bounds connectivity mask depth ≡ some ps
        → Nodup ps
    flood_fill_points_with-Nodup connectivity ps n h =
        let f = flood-IsReached_by connectivity n in
        let e : ps ≡ f.0 = cc (h, f.1) in rw e f.2.distinct

  -- A fill with no channel to compare, or from a start outside its region, takes nothing.
  pub flood_fill_points_with-nothing :
      (connectivity : FillConnectivity) (mask : FillChannelMask) (depth : FillDepthMode)
      → any_enabled mask
          && region_contains bounds depth (depth_span_of canvas start bounds depth) start
        ≡ false
      → flood_fill_points_with canvas start bounds connectivity mask depth ≡ some []
  unfolding flood_fill_points_with
  flood_fill_points_with-nothing connectivity mask depth h = elim (Bool-cases (any_enabled mask)) [
    | inl e ↦
        elim (Bool-cases
          (region_contains bounds depth (depth_span_of canvas start bounds depth) start)) [
            | inl i ↦ absurd (ground (arith, e, i))
            | inr i ↦ rw (e, i) refl
          ]
    | inr e ↦ rw e refl
  ]

  -- Whatever the arguments, a fill ends.
  pub flood_fill_points_with-total :
      (connectivity : FillConnectivity) (mask : FillChannelMask) (depth : FillDepthMode)
      → (ps : List CellPoint) × (flood_fill_points_with canvas start bounds connectivity mask depth
          ≡ some ps)
  flood_fill_points_with-total connectivity mask depth = elim (Bool-cases (any_enabled mask)) [
    | inl e ↦
        elim (Bool-cases
          (region_contains bounds depth (depth_span_of canvas start bounds depth) start)) [
            | inl i ↦
                let f = flood_fill_points_with-IsFilled mask depth e i connectivity in (f.0, f.1)
            | inr i ↦
                ([], flood_fill_points_with-nothing connectivity mask depth (ground (arith, e, i)))
          ]
    | inr e ↦ ([], flood_fill_points_with-nothing connectivity mask depth (ground (arith, e)))
  ]
