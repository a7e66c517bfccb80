-- ===== src/Fill.antt =====
-- Fill regions: the cells of a canvas that a fill takes, and filling them
-- (domain/painter-operations/fill/fill.rs).
use thaum_painter.Base.{
  ℕ, suc, ◌+◌, ◌*◌, Bool, true, false, not, ◌&&◌, ◌||◌, Option, none, some, List, [], ◌∷◌, ◌++◌,
  map,
}
use thaum_painter.Base.{if◌then◌else◌, concat_map, filter, length}
use thaum_painter.Base.Int.{ℤ, pos, negsuc, add_i32, leb_ℤ, eqb_ℤ, min_ℤ, max_ℤ, range_inclusive}
use thaum_painter.Base.Text.{Text, codes, text_eq}
use thaum_painter.Base.Map.{get, insert}
use thaum_painter.Cell.{
  CellPoint, point_eq, point_Eq, Renderer, Canvas, PaintedCell, graphic_eq, color_eq, stored_eq,
  effective_cell,
}
use thaum_painter.Plane.{
  CanvasBounds, CanvasPlaneAxis, contains, in_window, world_to_plane, plane_point, offset_in_plane,
}
use thaum_painter.Plane.{depth_coordinate, with_depth_coordinate}
use thaum_painter.Fill.Flood.{Ground, flood, flood_from}
pub mod Flood
pub mod Region
pub mod Around
pub mod Points
pub mod Paint
mod Tests

pub record FillChannelMask : Type 0 where
  pub graphic : Bool
  pub color : Bool
  pub weight : Bool

abbrev pub all_channels : FillChannelMask
all_channels = record { graphic = true; color = true; weight = true }

unfoldable pub any_enabled : FillChannelMask → Bool
any_enabled mask = mask.graphic || mask.color || mask.weight

pub data FillConnectivity : Type 0 where
  adjacent diagonal all : FillConnectivity

unfoldable pub id : FillConnectivity → Text
id adjacent = codes "adjacent"
id diagonal = codes "diagonal"
id all = codes "all"

unfoldable pub from_id : Text → Option FillConnectivity
from_id text =
    if text_eq text (codes "adjacent")
    then some adjacent
    else if text_eq text (codes "diagonal")
    then some diagonal
    else if text_eq text (codes "all")
    then some all
    else none

pub data FillDepthMode : Type 0 where
  plane through_depth : FillDepthMode

-- The first and the last depth that a fill may reach.
abbrev pub DepthSpan : Type 0
DepthSpan = ℤ × ℤ

unfoldable pub region_contains : CanvasBounds → FillDepthMode → DepthSpan → CellPoint → Bool
unfolding contains in_window world_to_plane depth_coordinate
region_contains bounds plane depth_span point = contains bounds point
region_contains bounds through_depth depth_span point =
    let position = world_to_plane bounds point in
    in_window bounds position.0 position.1
    && leb_ℤ depth_span.0 (depth_coordinate bounds.plane_axis point)
    && leb_ℤ (depth_coordinate bounds.plane_axis point) depth_span.1

abbrev pub minus_one : ℤ
minus_one = negsuc 0

unfoldable pub in_plane_neighbors : CanvasBounds → CellPoint → Bool → List CellPoint
unfolding offset_in_plane
in_plane_neighbors bounds point diagonal_too =
    let offset = offset_in_plane bounds point in
    offset minus_one (pos 0)
    ∷ offset (pos 1) (pos 0)
    ∷ offset (pos 0) minus_one
    ∷ offset (pos 0) (pos 1)
    ∷ (if diagonal_too
        then offset minus_one minus_one
          ∷ offset (pos 1) minus_one
          ∷ offset minus_one (pos 1)
          ∷ offset (pos 1) (pos 1)
          ∷ []
        else [])

abbrev pub deltas : List ℤ
deltas = minus_one ∷ pos 0 ∷ pos 1 ∷ []

-- The candidates of the cube around a point, the point itself among them.
unfoldable pub cube_candidates : CanvasBounds → CellPoint → List CellPoint
unfolding offset_in_plane depth_coordinate with_depth_coordinate concat_map
cube_candidates bounds point =
    let axis = bounds.plane_axis in
    concat_map
      (λ depth_delta.
        let shifted =
          with_depth_coordinate axis point (add_i32 (depth_coordinate axis point) depth_delta) in
        concat_map
          (λ delta_y. map (λ delta_x. offset_in_plane bounds shifted delta_x delta_y) deltas)
          deltas)
      deltas

unfoldable pub neighbors :
    CanvasBounds → CellPoint → FillConnectivity → FillDepthMode → List CellPoint
unfolding in_plane_neighbors cube_candidates filter
neighbors bounds point adjacent through_depth =
    let axis = bounds.plane_axis in
    let at = depth_coordinate axis point in
    in_plane_neighbors bounds point false
    ++ with_depth_coordinate axis point (add_i32 at minus_one)
      ∷ with_depth_coordinate axis point (add_i32 at (pos 1))
      ∷ []
neighbors bounds point diagonal through_depth =
    filter (λ candidate. not (point_eq candidate point)) (cube_candidates bounds point)
neighbors bounds point adjacent plane = in_plane_neighbors bounds point false
neighbors bounds point diagonal plane = in_plane_neighbors bounds point true
neighbors bounds point all _ = []

unfoldable pub depths : CanvasBounds → FillDepthMode → DepthSpan → List ℤ
depths bounds plane depth_span = bounds.z ∷ []
depths bounds through_depth depth_span = range_inclusive depth_span.0 depth_span.1

-- The loops of the scan: every depth, row and column of the region.
unfoldable pub region_points : CanvasBounds → FillDepthMode → DepthSpan → List CellPoint
unfolding concat_map depths
region_points bounds depth depth_span =
    concat_map
      (λ depth_value.
        concat_map
          (λ plane_y.
            map
              (λ plane_x.
                with_depth_coordinate bounds.plane_axis (plane_point bounds plane_x plane_y)
                  depth_value)
              (range_inclusive bounds.x0 bounds.x1))
          (range_inclusive bounds.y0 bounds.y1))
      (depths bounds depth depth_span)

module _ {R : Renderer} where
  unfoldable pub cells_match_on_mask :
      Option (PaintedCell R) → Option (PaintedCell R) → FillChannelMask → Bool
  cells_match_on_mask none none mask = true
  cells_match_on_mask (some left) (some right) mask =
      (not mask.graphic || graphic_eq left.graphic right.graphic)
      && (not mask.color || color_eq left.color right.color)
      && (not mask.weight || eqb_ℤ left.weight_index right.weight_index)
  cells_match_on_mask (some left) none mask = false
  cells_match_on_mask none (some right) mask = false

  -- The depths of the cells of a canvas, with the depth of the anchor.
  unfoldable pub depth_span_for_canvas : Canvas R → CanvasPlaneAxis → CellPoint → DepthSpan
  unfolding depth_coordinate
  depth_span_for_canvas [] axis anchor =
      (depth_coordinate axis anchor, depth_coordinate axis anchor)
  depth_span_for_canvas ((point, cell) ∷ canvas) axis anchor =
      let span = depth_span_for_canvas canvas axis anchor in
      (min_ℤ span.0 (depth_coordinate axis point), max_ℤ span.1 (depth_coordinate axis point))

  unfoldable pub matches_at : Canvas R → FillChannelMask → Option (PaintedCell R) → CellPoint → Bool
  matches_at canvas mask target point =
      cells_match_on_mask (effective_cell (get point canvas)) target mask

  -- What a flood of the canvas walks over.
  unfoldable pub flood_ground :
      Canvas R
      → CanvasBounds
      → FillConnectivity
      → FillChannelMask
      → FillDepthMode
      → DepthSpan
      → Option (PaintedCell R)
      → Ground CellPoint
  flood_ground canvas bounds connectivity mask depth depth_span target = record {
    inside = region_contains bounds depth depth_span;
    matches = matches_at canvas mask target;
    around = λ point. neighbors bounds point connectivity depth;
  }

  -- The fuel is one pass for the start and 28 for each place of the region.
  unfoldable pub matching_region_points :
      Canvas R
      → CellPoint
      → CanvasBounds
      → FillConnectivity
      → FillChannelMask
      → FillDepthMode
      → DepthSpan
      → Option (PaintedCell R)
      → Option (List CellPoint)
  unfolding flood_ground
  matching_region_points canvas start bounds all mask depth depth_span target =
      some (filter (matches_at canvas mask target) (region_points bounds depth depth_span))
  matching_region_points canvas start bounds connectivity mask depth depth_span target =
      flood (flood_ground canvas bounds connectivity mask depth depth_span target)
        (suc (28 * length (region_points bounds depth depth_span))) (flood_from start)

  unfoldable pub depth_span_of : Canvas R → CellPoint → CanvasBounds → FillDepthMode → DepthSpan
  unfolding depth_span_for_canvas
  depth_span_of canvas start bounds plane = (bounds.z, bounds.z)
  depth_span_of canvas start bounds through_depth =
      depth_span_for_canvas canvas bounds.plane_axis start

  unfoldable pub flood_fill_points_with :
      Canvas R
      → CellPoint
      → CanvasBounds
      → FillConnectivity
      → FillChannelMask
      → FillDepthMode
      → Option (List CellPoint)
  unfolding depth_span_of matching_region_points
  flood_fill_points_with canvas start bounds connectivity mask depth =
      let depth_span = depth_span_of canvas start bounds depth in
      if not (any_enabled mask)
      then some []
      else if not (region_contains bounds depth depth_span start)
      then some []
      else matching_region_points canvas start bounds connectivity mask depth depth_span
          (effective_cell (get start canvas))

  unfoldable pub flood_fill_points : Canvas R → CellPoint → CanvasBounds → Option (List CellPoint)
  flood_fill_points canvas start bounds =
      flood_fill_points_with canvas start bounds adjacent all_channels plane

  unfoldable pub insert_all : Canvas R → PaintedCell R → List CellPoint → Canvas R
  insert_all canvas replacement [] = canvas
  insert_all canvas replacement (point ∷ points) =
      insert_all (insert point replacement canvas) replacement points

  unfoldable pub flood_fill_with :
      Canvas R
      → CellPoint
      → CanvasBounds
      → PaintedCell R
      → FillConnectivity
      → FillChannelMask
      → FillDepthMode
      → Option (Canvas R)
  unfolding insert_all
  flood_fill_with canvas start bounds replacement connectivity mask depth =
      if stored_eq (get start canvas) replacement
      then some canvas
      else elim (flood_fill_points_with canvas start bounds connectivity mask depth) [
        | none ↦ none
        | some points ↦ some (insert_all canvas replacement points)
      ]

  unfoldable pub flood_fill :
      Canvas R → CellPoint → CanvasBounds → PaintedCell R → Option (Canvas R)
  flood_fill canvas start bounds replacement =
      flood_fill_with canvas start bounds replacement adjacent all_channels plane
