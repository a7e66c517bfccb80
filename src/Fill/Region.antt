-- ===== src/Fill/Region.antt =====
-- The points of a fill region, as its test and as its scan
-- (domain/painter-operations/fill/fill.rs, `region_contains` and `matching_region_points`).
use thaum_painter.Base.{
  true, ◌≡◌, ◌↔◌, arith, ◌∈◌, mem-concat_map, mem-map, map, concat_map, refl, List,
}
use thaum_painter.Base.Int.{ℤ, mem-range_inclusive, range_inclusive, eqb_ℤ_iff, ◌≤ℤ◌}
use thaum_painter.Cell.{CellPoint}
use thaum_painter.Plane.{
  CanvasBounds, contains, plane_point, world_to_plane, in_window, depth_coordinate,
  with_depth_coordinate,
}
use thaum_painter.Plane.Points.{in_window_iff}
use thaum_painter.Fill.{
  FillDepthMode, plane, through_depth, DepthSpan, depths, region_contains, region_points,
}

-- The depths that a region spans, cs bounds on one.
InDepths : CanvasBounds → FillDepthMode → DepthSpan → ℤ → Type 0
unfolding region_contains
InDepths bounds plane depth_span d = d ≡ bounds.z
InDepths bounds through_depth depth_span d = (depth_span.0 ≤ℤ d) × (d ≤ℤ depth_span.1)

place : CanvasBounds → ℤ → ℤ → ℤ → CellPoint
place bounds a b d = with_depth_coordinate bounds.plane_axis (plane_point bounds a b) d

region_contains-place :
    (bounds : CanvasBounds) (depth : FillDepthMode) (depth_span : DepthSpan) (a b d : ℤ)
    → (region_contains bounds depth depth_span (place bounds a b d) ≡ true)
      ↔ ((in_window bounds a b ≡ true) × InDepths bounds depth depth_span d)
unfolding region_contains place contains world_to_plane depth_coordinate with_depth_coordinate
    plane_point InDepths
region_contains-place bounds plane depth_span a b d = ground (arith, eqb_ℤ_iff d bounds.z)
region_contains-place bounds through_depth depth_span a b d = ground arith

place-world_to_plane :
    (bounds : CanvasBounds) (p : CellPoint)
    → p
      ≡ place bounds
          (world_to_plane bounds p).0
          (world_to_plane bounds p).1
          (depth_coordinate bounds.plane_axis p)
unfolding place world_to_plane depth_coordinate with_depth_coordinate plane_point
place-world_to_plane bounds p = ground arith

mem-depths :
    (bounds : CanvasBounds) (depth : FillDepthMode) (depth_span : DepthSpan) (d : ℤ)
    → (d ∈ depths bounds depth depth_span) ↔ InDepths bounds depth depth_span d
unfolding depths InDepths
mem-depths bounds plane depth_span d = ground arith
mem-depths bounds through_depth depth_span d = mem-range_inclusive depth_span.0 depth_span.1 d

-- Three nested loops visit the images of every triple of their indices.
mem-scan :
    (f : ℤ → ℤ → ℤ → CellPoint) (ds bs cs : List ℤ) (p : CellPoint)
    → (p ∈ concat_map (λ d. concat_map (λ b. map (λ a. f a b d) cs) bs) ds)
      ↔ ((d : ℤ) × (b : ℤ) × (a : ℤ) × (d ∈ ds) × (b ∈ bs) × (a ∈ cs) × (p ≡ f a b d))
mem-scan f ds bs cs p = (
  λ m.
      let l = (mem-concat_map (λ d. concat_map (λ b. map (λ a. f a b d) cs) bs) p ds).0 m in
      let r = (mem-concat_map (λ b. map (λ a. f a b l.0) cs) p bs).0 l.2 in
      let c = (mem-map (λ a. f a r.0 l.0) p cs).0 r.2 in (l.0, r.0, c.0, l.1, r.1, c.1, c.2),
  λ h. (mem-concat_map (λ d. concat_map (λ b. map (λ a. f a b d) cs) bs) p ds).1 (
    h.0,
    h.3,
    (mem-concat_map (λ b. map (λ a. f a b h.0) cs) p bs).1
        (h.1, h.4, (mem-map (λ a. f a h.1 h.0) p cs).1 (h.2, h.5, h.6)),
  ),
)

region_points-scan :
    (bounds : CanvasBounds) (depth : FillDepthMode) (depth_span : DepthSpan)
    → region_points bounds depth depth_span
      ≡ concat_map
          (λ d.
            concat_map
              (λ b. map (λ a. place bounds a b d) (range_inclusive bounds.x0 bounds.x1))
              (range_inclusive bounds.y0 bounds.y1))
          (depths bounds depth depth_span)
unfolding region_points place
region_points-scan bounds depth depth_span = refl

-- The scan of a region visits exactly the points that the region's test accepts.
pub mem-region_points :
    (bounds : CanvasBounds) (depth : FillDepthMode) (depth_span : DepthSpan) (p : CellPoint)
    → (p ∈ region_points bounds depth depth_span)
      ↔ (region_contains bounds depth depth_span p ≡ true)
mem-region_points bounds depth depth_span p =
    let xs = mem-range_inclusive bounds.x0 bounds.x1 in
    let ys = mem-range_inclusive bounds.y0 bounds.y1 in
    let zs = mem-depths bounds depth depth_span in
    let scan =
      mem-scan (place bounds) (depths bounds depth depth_span) (range_inclusive bounds.y0 bounds.y1)
        (range_inclusive bounds.x0 bounds.x1) p in
    rw (region_points-scan bounds depth depth_span) (
      λ m.
          let h = scan.0 m in
          rw h.6 (
            (region_contains-place bounds depth depth_span h.2 h.1 h.0).1
              ((in_window_iff bounds h.2 h.1).1 ((xs h.2).0 h.5, (ys h.1).0 h.4), (zs h.0).0 h.3)),
      λ h.
          let at = world_to_plane bounds p in
          let d = depth_coordinate bounds.plane_axis p in
          let e = place-world_to_plane bounds p in
          let k = (region_contains-place bounds depth depth_span at.0 at.1 d).0 (rw (← e) h) in
          let w = (in_window_iff bounds at.0 at.1).0 k.0 in
          scan.1 (d, at.1, at.0, (zs d).1 k.1, (ys at.1).1 w.1, (xs at.0).1 w.0, e),
    )
