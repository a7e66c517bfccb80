-- ===== src/Fill/Tests.antt =====
-- A small canvas, and the fills of it.
use thaum_painter.Base.{true, some, List, [], ◌∷◌, ◌≡◌, ◌↔◌, refl, ◌∈◌, if◌then◌else◌, not, ◌&&◌}
use thaum_painter.Base.Int.{pos}
use thaum_painter.Base.Text.{Text}
use thaum_painter.Base.Map.{get, member}
use thaum_painter.Cell.{
  CellPoint, point_Eq, Renderer, glyph, PaintedCell, Canvas, flat_rgb, pos_z, stored_eq,
}
use thaum_painter.Plane.{CanvasBounds, z_axis, cell_point, contains}
use thaum_painter.Fill.{
  adjacent, diagonal, plane, all_channels, flood_fill_points_with, flood_fill_with, region_points,
  region_contains, any_enabled, depth_span_of,
}
use thaum_painter.Fill.Points.{IsFilled, flood_fill_points_with-IsFilled}
use thaum_painter.Fill.Paint.{get-flood_fill_with}
use thaum_painter.Base.{concat_map, filter}
use thaum_painter.Base.Int.{range_inclusive, range_from, count_ℤ, ◌-ℤ◌, ◌+ℤ◌, add_i32}
use thaum_painter.Base.Text.{text_eq}
use thaum_painter.Cell.{effective_cell, point_eq, color_eq, graphic_eq, is_blank_cell, slot_eq}
use thaum_painter.Plane.{
  depth_coordinate, in_window, offset_in_plane, plane_point, with_depth_coordinate, world_to_plane,
}
use thaum_painter.Fill.{
  matches_at, cells_match_on_mask, neighbors, cube_candidates, depth_span_for_canvas, depths,
  flood_ground, in_plane_neighbors, matching_region_points,
}
use thaum_painter.Fill.Flood.{flood, visit}

-- A renderer whose payloads are texts.
abbrev texts : Renderer
texts = record {
  Sprite = Text;
  Sided = Text;
  sprite_eq = λ s t. true;
  sided_eq = λ s t. true;
  atlas_relative_path = λ s. s;
  sprite_new = λ s. s;
  sided_declaration_json = λ s. s;
  parse_sided_declaration = λ s. some s;
}

abbrev wall : PaintedCell texts
wall = record {
  graphic = glyph 35;
  color = flat_rgb 1 2 3;
  weight_index = pos 0;
  shader_stack = [];
  facing = pos_z;
}

abbrev window : CanvasBounds
window = record { x0 = pos 0; y0 = pos 0; x1 = pos 1; y1 = pos 1; z = pos 0; plane_axis = z_axis }

-- Walls that leave the corner (1, 1) open only diagonally.
abbrev divided : Canvas texts
divided =
    (cell_point (pos 1) (pos 0) (pos 0), wall) ∷ (cell_point (pos 0) (pos 1) (pos 0), wall) ∷ []

abbrev corner : CellPoint
corner = cell_point (pos 0) (pos 0) (pos 0)

enabled : any_enabled all_channels ≡ true
unfolding any_enabled
enabled = refl

inside : region_contains window plane (depth_span_of divided corner window plane) corner ≡ true
unfolding region_contains depth_span_of
inside = refl

abbrev reached : List CellPoint
reached = corner ∷ []

reached_adjacent :
    flood_fill_points_with divided corner window adjacent all_channels plane ≡ some reached
unfolding flood_fill_points_with any_enabled region_contains flood region_points range_inclusive
    range_from count_ℤ ◌-ℤ◌ ◌+ℤ◌ member matches_at cells_match_on_mask effective_cell get point_eq
    neighbors add_i32 concat_map filter text_eq color_eq graphic_eq is_blank_cell slot_eq visit
    cube_candidates depth_span_for_canvas depth_span_of depths flood_ground in_plane_neighbors
    matching_region_points contains depth_coordinate in_window offset_in_plane plane_point
    with_depth_coordinate world_to_plane
reached_adjacent = refl

-- Corners are steps too for `Diagonal`.
reached_diagonal :
    flood_fill_points_with divided corner window diagonal all_channels plane
    ≡ some (corner ∷ cell_point (pos 1) (pos 1) (pos 0) ∷ [])
unfolding flood_fill_points_with any_enabled region_contains flood region_points range_inclusive
    range_from count_ℤ ◌-ℤ◌ ◌+ℤ◌ member matches_at cells_match_on_mask effective_cell get point_eq
    neighbors add_i32 concat_map filter text_eq color_eq graphic_eq is_blank_cell slot_eq visit
    cube_candidates depth_span_for_canvas depth_span_of depths flood_ground in_plane_neighbors
    matching_region_points contains depth_coordinate in_window offset_in_plane plane_point
    with_depth_coordinate world_to_plane
reached_diagonal = refl

flood_fill_points_with-IsFilled_example :
    (ps : List CellPoint) × (flood_fill_points_with divided corner window adjacent all_channels
        plane
      ≡ some ps)
    × ((p : CellPoint) → (p ∈ ps) ↔ IsFilled divided corner window adjacent all_channels plane p)
flood_fill_points_with-IsFilled_example =
    flood_fill_points_with-IsFilled divided corner window all_channels plane enabled inside adjacent

get-flood_fill_with_example :
    (after : Canvas texts) × (ps : List CellPoint) × (flood_fill_with divided corner window wall
        adjacent all_channels plane
      ≡ some after)
    × (flood_fill_points_with divided corner window adjacent all_channels plane ≡ some ps)
    × ((p : CellPoint)
        → get p after ≡ (
            if not (stored_eq (get corner divided) wall) && member p ps
            then some wall
            else get p divided))
get-flood_fill_with_example =
    get-flood_fill_with divided corner window wall adjacent all_channels plane
