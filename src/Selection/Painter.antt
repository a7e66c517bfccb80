-- ===== src/Selection/Painter.antt =====
-- The selection of a painter session with its mode (domain/painter-session/selection/selection_state.rs,
-- `PainterSelection`).
use thaum_painter.Base.{Bool, List, [], filter, arith, ◌≡◌}
use thaum_painter.Base.Map.{member}
use thaum_painter.Cell.{CellPoint, point_Eq}
use thaum_painter.Plane.{CanvasBounds}
use thaum_painter.Selection.{
  SelectionMode, replace, additive, subtract, intersect, PlaneSelection, Cells, is_selected,
  allows_edit,
}
use thaum_painter.Selection.{
  clear, restore_points, remove_points, intersect_points, apply_points, apply_world, new,
  filter_edit_points, select_all, invert, set_bounds,
}
use thaum_painter.Selection.Sets.{member-append, member-remove_cells, member-intersection}
use thaum_painter.Selection.Modes.{combined}

pub record PainterSelection : Type 0 where
  pub plane : PlaneSelection
  pub world : Cells
  pub mode : SelectionMode

abbrev with_plane : PainterSelection → PlaneSelection → PainterSelection
with_plane s plane = record { plane = plane; world = s.world; mode = s.mode }

abbrev with_world : PainterSelection → Cells → PainterSelection
with_world s world = record { plane = s.plane; world = world; mode = s.mode }

unfoldable pub new_painter : CanvasBounds → PainterSelection
new_painter bounds = record { plane = new bounds; world = []; mode = replace }

unfoldable pub set_mode : PainterSelection → SelectionMode → PainterSelection
set_mode s mode = record { plane = s.plane; world = s.world; mode = mode }

unfoldable pub set_plane_bounds : PainterSelection → CanvasBounds → PainterSelection
set_plane_bounds s bounds = with_plane s (set_bounds s.plane bounds)

unfoldable pub clear_plane : PainterSelection → PainterSelection
clear_plane s = with_plane s (clear s.plane)

unfoldable pub select_all_plane : PainterSelection → PainterSelection
select_all_plane s = with_plane s (select_all s.plane)

unfoldable pub invert_plane : PainterSelection → PainterSelection
invert_plane s = with_plane s (invert s.plane)

unfoldable pub apply_plane_points_with_mode :
    PainterSelection → List CellPoint → SelectionMode → PainterSelection
apply_plane_points_with_mode s points mode = with_plane s (apply_points s.plane points mode)

unfoldable pub apply_plane_points : PainterSelection → List CellPoint → PainterSelection
apply_plane_points s points = apply_plane_points_with_mode s points s.mode

unfoldable pub apply_plane_points_through_depth_with_mode :
    PainterSelection → List CellPoint → SelectionMode → PainterSelection
apply_plane_points_through_depth_with_mode s points replace =
    with_plane s (restore_points (clear s.plane) points)
apply_plane_points_through_depth_with_mode s points additive =
    with_plane s (restore_points s.plane points)
apply_plane_points_through_depth_with_mode s points subtract =
    with_plane s (remove_points s.plane points)
apply_plane_points_through_depth_with_mode s points intersect =
    with_plane s (intersect_points s.plane points)

unfoldable pub replace_plane_points_exact : PainterSelection → List CellPoint → PainterSelection
replace_plane_points_exact s points = with_plane s (restore_points (clear s.plane) points)

unfoldable pub preview_plane_with_mode :
    PainterSelection → List CellPoint → SelectionMode → PlaneSelection
preview_plane_with_mode s points mode = apply_points s.plane points mode

unfoldable pub allows_plane_edit : PainterSelection → CellPoint → Bool
allows_plane_edit s point = allows_edit s.plane point

unfoldable pub filter_plane_edit_points : PainterSelection → List CellPoint → List CellPoint
filter_plane_edit_points s points = filter_edit_points s.plane points

unfoldable pub filter_edit_points_through_depth : PainterSelection → List CellPoint → List CellPoint
filter_edit_points_through_depth s points = filter (allows_edit s.plane) points

unfoldable pub apply_world_points_with_mode :
    PainterSelection → List CellPoint → SelectionMode → PainterSelection
apply_world_points_with_mode s points mode = with_world s (apply_world s.world points mode)

unfoldable pub apply_world_points : PainterSelection → List CellPoint → PainterSelection
apply_world_points s points = apply_world_points_with_mode s points s.mode

unfoldable pub restore_painter_points : PainterSelection → List CellPoint → PainterSelection
restore_painter_points s points = with_plane s (restore_points s.plane points)

unfoldable pub replace_points : PainterSelection → List CellPoint → PainterSelection
unfolding clear_plane restore_painter_points
replace_points s points = restore_painter_points (clear_plane s) points

-- Through depth, every point is selected as the mode combines the old selection and the incoming
-- points, inside and outside the active plane.
pub is_selected-through_depth :
    (s : PainterSelection) (points : List CellPoint) (mode : SelectionMode) (p : CellPoint)
    → is_selected (apply_plane_points_through_depth_with_mode s points mode).plane p
      ≡ combined mode (is_selected s.plane p) (member p points)
unfolding apply_plane_points_through_depth_with_mode is_selected combined member clear
    restore_points remove_points intersect_points
is_selected-through_depth s points replace p = ground (arith, member-append p points [])
is_selected-through_depth s points additive p = ground (arith, member-append p points s.plane.cells)
is_selected-through_depth s points subtract p = member-remove_cells p points s.plane.cells
is_selected-through_depth s points intersect p = member-intersection p s.plane.cells points
