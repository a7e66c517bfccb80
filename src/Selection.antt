-- ===== src/Selection.antt =====
-- The selection of a painter session: cells of the interaction plane, kept as a set of points of all
-- planes, and cells of the world (domain/painter-session/selection/selection_state.rs). A `BTreeSet`
-- is a list of its members.
use thaum_painter.Base.{
  Bool, true, false, not, ◌&&◌, ◌||◌, Option, List, [], ◌∷◌, ◌++◌, if◌then◌else◌, filter,
}
use thaum_painter.Base.Int.{ℤ, pos, negsuc}
use thaum_painter.Base.Map.{member}
use thaum_painter.Cell.{CellPoint, point_eq, point_Eq, Renderer, Canvas}
use thaum_painter.Plane.{CanvasBounds, contains, iter_points, offset_in_plane}
use thaum_painter.Fill.{FillConnectivity, FillDepthMode, FillChannelMask, flood_fill_points_with}
pub mod Sets
pub mod Invert
pub mod Modes
pub mod Painter
mod Tests

pub data SelectionMode : Type 0 where
  replace additive subtract intersect : SelectionMode

abbrev pub Cells : Type 0
Cells = List CellPoint

-- Removal of a member, and of a list of members.
unfoldable pub remove_cell : CellPoint → Cells → Cells
unfolding filter
remove_cell point cells = filter (λ cell. not (point_eq cell point)) cells

unfoldable pub remove_cells : List CellPoint → Cells → Cells
unfolding remove_cell
remove_cells [] cells = cells
remove_cells (point ∷ points) cells = remove_cells points (remove_cell point cells)

unfoldable pub intersection : Cells → Cells → Cells
unfolding filter
intersection cells others = filter (λ cell. member cell others) cells

pub record PlaneSelection : Type 0 where
  pub bounds : CanvasBounds
  pub cells : Cells

abbrev pub with_cells : PlaneSelection → Cells → PlaneSelection
with_cells selection cells = record { bounds = selection.bounds; cells = cells }

abbrev pub new : CanvasBounds → PlaneSelection
new bounds = record { bounds = bounds; cells = [] }

unfoldable pub set_bounds : PlaneSelection → CanvasBounds → PlaneSelection
set_bounds selection bounds = record { bounds = bounds; cells = selection.cells }

unfoldable pub clear : PlaneSelection → PlaneSelection
clear selection = with_cells selection []

unfoldable pub select_all : PlaneSelection → PlaneSelection
select_all selection = with_cells selection (iter_points selection.bounds ++ selection.cells)

-- The loop of `invert` over the points still to come.
unfoldable pub flip_cells : Cells → List CellPoint → Cells → Cells
unfolding remove_cell
flip_cells previous [] cells = cells
flip_cells previous (point ∷ points) cells =
    flip_cells previous points
      (if member point previous then remove_cell point cells else point ∷ cells)

unfoldable pub invert : PlaneSelection → PlaneSelection
unfolding flip_cells
invert selection =
    with_cells selection (flip_cells selection.cells (iter_points selection.bounds) selection.cells)

unfoldable pub has_selection : PlaneSelection → Bool
has_selection selection = elim selection.cells [ [] ↦ false | cell ∷ cells ↦ true ]

unfoldable pub is_selected : PlaneSelection → CellPoint → Bool
is_selected selection point = member point selection.cells

unfoldable pub allows_edit : PlaneSelection → CellPoint → Bool
unfolding has_selection is_selected
allows_edit selection point = not (has_selection selection) || is_selected selection point

unfoldable pub filter_edit_points : PlaneSelection → List CellPoint → List CellPoint
unfolding filter allows_edit
filter_edit_points selection points =
    filter (allows_edit selection) (filter (contains selection.bounds) points)

unfoldable pub set_selected : PlaneSelection → CellPoint → Bool → PlaneSelection
unfolding remove_cell
set_selected selection point selected =
    if not (contains selection.bounds point)
    then selection
    else if selected
    then with_cells selection (point ∷ selection.cells)
    else with_cells selection (remove_cell point selection.cells)

unfoldable pub apply_points : PlaneSelection → List CellPoint → SelectionMode → PlaneSelection
unfolding filter remove_cells intersection
apply_points selection points mode =
    let incoming = filter (contains selection.bounds) points in
    let outside = filter (λ point. not (contains selection.bounds point)) selection.cells in
    with_cells selection (elim mode [
      | replace ↦ incoming ++ outside
      | additive ↦ incoming ++ selection.cells
      | subtract ↦ remove_cells incoming selection.cells
      | intersect ↦ outside ++ intersection selection.cells incoming
    ])

unfoldable pub restore_points : PlaneSelection → List CellPoint → PlaneSelection
restore_points selection points = with_cells selection (points ++ selection.cells)

unfoldable pub remove_points : PlaneSelection → List CellPoint → PlaneSelection
unfolding remove_cells
remove_points selection points = with_cells selection (remove_cells points selection.cells)

unfoldable pub intersect_points : PlaneSelection → List CellPoint → PlaneSelection
unfolding intersection
intersect_points selection points = with_cells selection (intersection selection.cells points)

unfoldable pub plane_neighbors : CanvasBounds → CellPoint → List CellPoint
plane_neighbors bounds point =
    offset_in_plane bounds point (negsuc 0) (pos 0)
    ∷ offset_in_plane bounds point (pos 1) (pos 0)
    ∷ offset_in_plane bounds point (pos 0) (negsuc 0)
    ∷ offset_in_plane bounds point (pos 0) (pos 1)
    ∷ []

unfoldable pub any : {A : Type 0} → (A → Bool) → List A → Bool
any test [] = false
any test (x ∷ xs) = test x || any test xs

unfoldable pub is_border : PlaneSelection → CellPoint → Bool
unfolding plane_neighbors any is_selected
is_border selection point =
    if not (is_selected selection point)
    then false
    else any
        (λ neighbor.
          not (contains selection.bounds neighbor) || not (is_selected selection neighbor))
        (plane_neighbors selection.bounds point)

-- The world selection, which no plane bounds.
unfoldable pub apply_world : Cells → List CellPoint → SelectionMode → Cells
unfolding remove_cells intersection
apply_world cells points replace = points
apply_world cells points additive = points ++ cells
apply_world cells points subtract = remove_cells points cells
apply_world cells points intersect = intersection cells points

unfoldable pub set_world_selected : Cells → CellPoint → Bool → Cells
unfolding remove_cell
set_world_selected cells point selected =
    if selected then point ∷ cells else remove_cell point cells

module _ {R : Renderer} where
  unfoldable pub flood_select_points :
      Canvas R
      → CellPoint
      → CanvasBounds
      → FillChannelMask
      → FillConnectivity
      → FillDepthMode
      → Option (List CellPoint)
  flood_select_points canvas start bounds channels connectivity depth =
      flood_fill_points_with canvas start bounds connectivity channels depth
