-- ===== src/Plane.antt =====
-- The finite window of a canvas that an edit may reach: a plane, its bounds and its depth axis
-- (domain/painter-operations/fill/fill.rs, `CanvasBounds` and `CanvasPlaneAxis`).
use thaum_painter.Base.{ℕ, Bool, ◌&&◌, List, [], ◌∷◌, map, concat_map}
use thaum_painter.Base.Int.{ℤ, pos, negsuc, add_i32, leb_ℤ, eqb_ℤ, min_ℤ, max_ℤ, range_inclusive}
use thaum_painter.Cell.{CellPoint}
pub mod Points

pub data CanvasPlaneAxis : Type 0 where
  x_axis y_axis z_axis : CanvasPlaneAxis

pub record CanvasBounds : Type 0 where
  pub x0 : ℤ
  pub y0 : ℤ
  pub x1 : ℤ
  pub y1 : ℤ
  pub z : ℤ
  pub plane_axis : CanvasPlaneAxis

abbrev pub cell_point : ℤ → ℤ → ℤ → CellPoint
cell_point x y z = record { x = x; y = y; z = z }

unfoldable pub depth_coordinate : CanvasPlaneAxis → CellPoint → ℤ
depth_coordinate z_axis point = point.z
depth_coordinate x_axis point = point.x
depth_coordinate y_axis point = point.y

unfoldable pub with_depth_coordinate : CanvasPlaneAxis → CellPoint → ℤ → CellPoint
with_depth_coordinate z_axis point depth = cell_point point.x point.y depth
with_depth_coordinate x_axis point depth = cell_point depth point.y point.z
with_depth_coordinate y_axis point depth = cell_point point.x depth point.z

unfoldable pub world_to_plane : CanvasBounds → CellPoint → ℤ × ℤ × ℤ
world_to_plane bounds point = elim bounds.plane_axis [
  | z_axis ↦ (point.x, point.y, point.z)
  | x_axis ↦ (point.y, point.z, point.x)
  | y_axis ↦ (point.x, point.z, point.y)
]

-- The test of a plane position against the four sides.
unfoldable pub in_window : CanvasBounds → ℤ → ℤ → Bool
in_window bounds plane_x plane_y =
    leb_ℤ bounds.x0 plane_x
    && leb_ℤ plane_x bounds.x1
    && leb_ℤ bounds.y0 plane_y
    && leb_ℤ plane_y bounds.y1

unfoldable pub contains : CanvasBounds → CellPoint → Bool
unfolding world_to_plane in_window
contains bounds point =
    let position = world_to_plane bounds point in
    eqb_ℤ position.2 bounds.z && in_window bounds position.0 position.1

unfoldable pub plane_point : CanvasBounds → ℤ → ℤ → CellPoint
plane_point bounds plane_x plane_y = elim bounds.plane_axis [
  | z_axis ↦ cell_point plane_x plane_y bounds.z
  | x_axis ↦ cell_point bounds.z plane_x plane_y
  | y_axis ↦ cell_point plane_x bounds.z plane_y
]

unfoldable pub iter_points : CanvasBounds → List CellPoint
unfolding plane_point
iter_points bounds =
    concat_map
      (λ plane_y.
        map (λ plane_x. plane_point bounds plane_x plane_y) (range_inclusive bounds.x0 bounds.x1))
      (range_inclusive bounds.y0 bounds.y1)

unfoldable pub offset_in_plane : CanvasBounds → CellPoint → ℤ → ℤ → CellPoint
offset_in_plane bounds point delta_x delta_y = elim bounds.plane_axis [
  | z_axis ↦ cell_point (add_i32 point.x delta_x) (add_i32 point.y delta_y) point.z
  | x_axis ↦ cell_point point.x (add_i32 point.y delta_x) (add_i32 point.z delta_y)
  | y_axis ↦ cell_point (add_i32 point.x delta_x) point.y (add_i32 point.z delta_y)
]
