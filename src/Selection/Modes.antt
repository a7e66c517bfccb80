-- ===== src/Selection/Modes.antt =====
-- What each selection mode selects (domain/painter-session/selection/selection_state.rs,
-- `PlaneSelection::apply_points`, `WorldSelection::apply_points`).
use thaum_painter.Base.{
  Bool, true, false, not, ◌&&◌, ◌||◌, List, if◌then◌else◌, filter, arith, ◌≡◌, refl, Bool-cases,
  inl, inr,
}
use thaum_painter.Base.Map.{member}
use thaum_painter.Cell.{CellPoint, point_eq, point_Eq, point_eq_iff}
use thaum_painter.Plane.{contains}
use thaum_painter.Selection.{
  SelectionMode, replace, additive, subtract, intersect, PlaneSelection, apply_points, is_selected,
  set_selected, Cells, apply_world, intersection,
}
use thaum_painter.Selection.Sets.{
  member-append, member-filter, member-remove_cell, member-remove_cells, member-intersection,
}

-- What a mode makes of a cell that was selected or not, and that the incoming points hold or not.
unfoldable pub combined : SelectionMode → Bool → Bool → Bool
combined replace old new = new
combined additive old new = old || new
combined subtract old new = old && not new
combined intersect old new = old && new

-- A point of the active plane is selected as the mode combines the old selection and the incoming
-- points; a point outside it stays as it was.
pub is_selected-apply_points :
    (selection : PlaneSelection) (points : List CellPoint) (mode : SelectionMode) (p : CellPoint)
    → is_selected (apply_points selection points mode) p ≡ (
        if contains selection.bounds p
        then combined mode (is_selected selection p) (member p points)
        else is_selected selection p)
unfolding is_selected apply_points combined
is_selected-apply_points selection points replace p =
    let inside = contains selection.bounds in
    let outside = λ (point : CellPoint). not (inside point) in
    ground (
      arith,
      member-append p (filter inside points) (filter outside selection.cells),
      member-filter p inside points,
      member-filter p outside selection.cells,
    )
is_selected-apply_points selection points additive p =
    let inside = contains selection.bounds in
    ground
      (arith, member-append p (filter inside points) selection.cells, member-filter p inside points)
is_selected-apply_points selection points subtract p =
    let inside = contains selection.bounds in
    ground (
      arith,
      member-remove_cells p (filter inside points) selection.cells,
      member-filter p inside points,
    )
is_selected-apply_points selection points intersect p =
    let inside = contains selection.bounds in
    let outside = λ (point : CellPoint). not (inside point) in
    let incoming = filter inside points in
    ground (
      arith,
      member-append p (filter outside selection.cells) (intersection selection.cells incoming),
      member-intersection p selection.cells incoming,
      member-filter p inside points,
      member-filter p outside selection.cells,
    )

-- A point of the world is selected as the mode combines the old selection and the incoming points.
pub member-apply_world :
    (cells points : Cells) (mode : SelectionMode) (p : CellPoint)
    → member p (apply_world cells points mode) ≡ combined mode (member p cells) (member p points)
unfolding apply_world combined
member-apply_world cells points replace p = refl
member-apply_world cells points additive p = ground (arith, member-append p points cells)
member-apply_world cells points subtract p = member-remove_cells p points cells
member-apply_world cells points intersect p = member-intersection p cells points

-- Selecting or deselecting a point changes that point if it is in the active plane, and no other.
pub is_selected-set_selected :
    (selection : PlaneSelection) (q p : CellPoint) (selected : Bool)
    → is_selected (set_selected selection q selected) p
      ≡ (if point_eq q p && contains selection.bounds q then selected else is_selected selection p)
unfolding is_selected set_selected member
is_selected-set_selected selection q p true = elim (Bool-cases (contains selection.bounds q)) [
  | inl e ↦ rw e (ground arith)
  | inr e ↦ rw e (ground arith)
]
is_selected-set_selected selection q p false =
    let m = member-remove_cell p q selection.cells in
    elim (Bool-cases (contains selection.bounds q)) [
      | inl e ↦ rw (e, m) (ground (arith, point_eq_iff p q, point_eq_iff q p))
      | inr e ↦ rw e (ground arith)
    ]
