-- ===== src/Plane/Points.antt =====
-- The points that the window of a canvas lists (domain/painter-operations/fill/fill.rs,
-- `CanvasBounds::iter_points`).
use thaum_painter.Base.{true, ◌≡◌, ◌↔◌, arith, ◌∈◌, mem-concat_map, mem-map, map, List}
use thaum_painter.Base.Int.{ℤ, mem-range_inclusive, range_inclusive, eqb_ℤ_iff, ◌≤ℤ◌}
use thaum_painter.Cell.{CellPoint}
use thaum_painter.Plane.{
  CanvasBounds, iter_points, contains, plane_point, world_to_plane, in_window,
}

pub in_window_iff :
    (bounds : CanvasBounds) (a b : ℤ)
    → (in_window bounds a b ≡ true)
      ↔ (((bounds.x0 ≤ℤ a) × (a ≤ℤ bounds.x1)) × ((bounds.y0 ≤ℤ b) × (b ≤ℤ bounds.y1)))
unfolding in_window
in_window_iff bounds a b = ground arith

plane_point-world_to_plane :
    (bounds : CanvasBounds) (p : CellPoint)
    → contains bounds p ≡ true
    → p ≡ plane_point bounds (world_to_plane bounds p).0 (world_to_plane bounds p).1
unfolding contains plane_point
plane_point-world_to_plane bounds p h =
    ground (arith, eqb_ℤ_iff (world_to_plane bounds p).2 bounds.z)

contains-in_window :
    (bounds : CanvasBounds) (p : CellPoint)
    → contains bounds p ≡ true
    → in_window bounds (world_to_plane bounds p).0 (world_to_plane bounds p).1 ≡ true
unfolding contains
contains-in_window bounds p h = ground arith

pub world_to_plane-plane_point :
    (bounds : CanvasBounds) (a b : ℤ)
    → world_to_plane bounds (plane_point bounds a b) ≡ (a, b, bounds.z)
unfolding world_to_plane plane_point
world_to_plane-plane_point bounds a b = ground arith

contains-plane_point :
    (bounds : CanvasBounds) (a b : ℤ)
    → in_window bounds a b ≡ true
    → contains bounds (plane_point bounds a b) ≡ true
unfolding contains
contains-plane_point bounds a b h =
    rw (world_to_plane-plane_point bounds a b) (ground (arith, eqb_ℤ_iff bounds.z bounds.z))

-- `iter_points` lists exactly the points that `contains` accepts.
pub mem-iter_points :
    (bounds : CanvasBounds) (p : CellPoint) → (p ∈ iter_points bounds) ↔ (contains bounds p ≡ true)
unfolding iter_points
mem-iter_points bounds p =
    let row : ℤ → List CellPoint = λ plane_y.
      map (λ plane_x. plane_point bounds plane_x plane_y) (range_inclusive bounds.x0 bounds.x1) in
    let rows = mem-concat_map row p (range_inclusive bounds.y0 bounds.y1) in
    (
      λ m.
          let r = rows.0 m in
          let c =
            (mem-map (λ a. plane_point bounds a r.0) p (range_inclusive bounds.x0 bounds.x1)).0
              r.2 in
          rw c.2 (
            contains-plane_point bounds c.0 r.0 (
              (in_window_iff bounds c.0 r.0).1 (
                (mem-range_inclusive bounds.x0 bounds.x1 c.0).0 c.1,
                (mem-range_inclusive bounds.y0 bounds.y1 r.0).0 r.1,
              ))),
      λ h.
          let at = world_to_plane bounds p in
          let w = (in_window_iff bounds at.0 at.1).0 (contains-in_window bounds p h) in
          rows.1 (
            at.1,
            (mem-range_inclusive bounds.y0 bounds.y1 at.1).1 w.1,
            (mem-map (λ a. plane_point bounds a at.1) p (range_inclusive bounds.x0 bounds.x1)).1 (
              at.0,
              (mem-range_inclusive bounds.x0 bounds.x1 at.0).1 w.0,
              plane_point-world_to_plane bounds p h,
            ),
          ),
    )
