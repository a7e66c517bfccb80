-- ===== src/Selection/Tests.antt =====
-- A small selection, and the theorems at it.
use thaum_painter.Base.{concat_map}
use thaum_painter.Base.Int.{range_inclusive, range_from, count_ℤ, ◌-ℤ◌, ◌+ℤ◌, add_i32}
use thaum_painter.Plane.{iter_points, offset_in_plane}
use thaum_painter.Base.{true, not, [], ◌∷◌, ◌≡◌, refl, if◌then◌else◌}
use thaum_painter.Base.Int.{pos}
use thaum_painter.Base.Map.{member}
use thaum_painter.Cell.{CellPoint, point_Eq, point_eq}
use thaum_painter.Plane.{CanvasBounds, z_axis, cell_point, contains}
use thaum_painter.Selection.{PlaneSelection, replace, apply_points, is_selected, invert, is_border}
use thaum_painter.Selection.Modes.{combined, is_selected-apply_points}
use thaum_painter.Selection.Invert.{is_selected-invert}
use thaum_painter.Selection.Painter.{PainterSelection}

abbrev window : CanvasBounds
window = record { x0 = pos 0; y0 = pos 0; x1 = pos 1; y1 = pos 0; z = pos 0; plane_axis = z_axis }

abbrev near : CellPoint
near = cell_point (pos 0) (pos 0) (pos 0)

abbrev deep : CellPoint
deep = cell_point (pos 0) (pos 0) (pos 5)

-- One cell of the plane and one at another depth.
abbrev two_cells : PlaneSelection
two_cells = record { bounds = window; cells = near ∷ deep ∷ [] }

abbrev session : PainterSelection
session = record { plane = two_cells; world = []; mode = replace }

invert-two_cells : (invert two_cells).cells ≡ cell_point (pos 1) (pos 0) (pos 0) ∷ deep ∷ []
unfolding invert iter_points concat_map range_inclusive range_from count_ℤ ◌-ℤ◌ ◌+ℤ◌ member point_eq
invert-two_cells = refl

is_border-near : is_border two_cells near ≡ true
unfolding is_border member point_eq contains offset_in_plane add_i32
is_border-near = refl

is_selected-apply_points_example : is_selected (apply_points two_cells [] replace) deep ≡ (
    if contains window deep
    then combined replace (is_selected two_cells deep) (member deep [])
    else is_selected two_cells deep)
is_selected-apply_points_example = is_selected-apply_points two_cells [] replace deep

is_selected-invert_example : is_selected (invert two_cells) near ≡ (
    if contains window near then not (is_selected two_cells near) else is_selected two_cells near)
is_selected-invert_example = is_selected-invert two_cells near
