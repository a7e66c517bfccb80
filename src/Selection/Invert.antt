-- ===== src/Selection/Invert.antt =====
-- Inverting and filling the active plane (domain/painter-session/selection/selection_state.rs,
-- `PlaneSelection::invert`, `PlaneSelection::select_all`, `PlaneSelection::filter_edit_points`).
use thaum_painter.Base.{
  not, ◌&&◌, ◌||◌, List, [], ◌∷◌, if◌then◌else◌, filter, arith, ◌≡◌, refl, Bool-cases, inl, inr,
}
use thaum_painter.Base.Map.{member, member_iff}
use thaum_painter.Cell.{CellPoint, point_Eq, point_eq_iff}
use thaum_painter.Plane.{CanvasBounds, contains, iter_points}
use thaum_painter.Plane.Points.{mem-iter_points}
use thaum_painter.Selection.{
  PlaneSelection, is_selected, Cells, remove_cell, flip_cells, invert, select_all, allows_edit,
  filter_edit_points,
}
use thaum_painter.Selection.Sets.{member-append, member-filter, member-remove_cell}

member-iter_points :
    (bounds : CanvasBounds) (p : CellPoint) → member p (iter_points bounds) ≡ contains bounds p
member-iter_points bounds p =
    ground (arith, member_iff p (iter_points bounds), mem-iter_points bounds p)

member-flip_cells :
    (previous cells points : Cells) (p : CellPoint)
    → member p (flip_cells previous points cells)
      ≡ (if member p points then not (member p previous) else member p cells)
unfolding flip_cells member
member-flip_cells previous cells [] p = refl
member-flip_cells previous cells (q ∷ points) p = elim (Bool-cases (member q previous)) [
  | inl e ↦ rw e (
      ground (
        arith,
        member-flip_cells previous (remove_cell q cells) points p,
        member-remove_cell p q cells,
        point_eq_iff p q,
        point_eq_iff q p,
        e,
      ))
  | inr e ↦
      rw e (ground (arith, member-flip_cells previous (q ∷ cells) points p, point_eq_iff q p, e))
]

-- Inverting flips the points of the active plane, and leaves every other point as it was.
pub is_selected-invert :
    (selection : PlaneSelection) (p : CellPoint)
    → is_selected (invert selection) p ≡ (
        if contains selection.bounds p
        then not (is_selected selection p)
        else is_selected selection p)
unfolding invert is_selected
is_selected-invert selection p = ground (
  arith,
  member-flip_cells selection.cells selection.cells (iter_points selection.bounds) p,
  member-iter_points selection.bounds p,
)

invert-bounds : (selection : PlaneSelection) → (invert selection).bounds ≡ selection.bounds
unfolding invert
invert-bounds selection = refl

-- Inverting twice selects what was selected.
pub invert-invert :
    (selection : PlaneSelection) (p : CellPoint)
    → is_selected (invert (invert selection)) p ≡ is_selected selection p
invert-invert selection p = ground (
  arith,
  is_selected-invert (invert selection) p,
  is_selected-invert selection p,
  invert-bounds selection,
)

-- Selecting all adds the points of the active plane, and leaves every other point as it was.
pub is_selected-select_all :
    (selection : PlaneSelection) (p : CellPoint)
    → is_selected (select_all selection) p
      ≡ (contains selection.bounds p || is_selected selection p)
unfolding select_all is_selected
is_selected-select_all selection p =
    rw
      (
        member-append p (iter_points selection.bounds) selection.cells,
        member-iter_points selection.bounds p,
      )
      refl

-- An edit is left with exactly its points of the active plane that are selected, or with all of its
-- points there when nothing is selected at all.
pub member-filter_edit_points :
    (selection : PlaneSelection) (points : List CellPoint) (p : CellPoint)
    → member p (filter_edit_points selection points)
      ≡ (member p points && contains selection.bounds p && allows_edit selection p)
unfolding filter_edit_points
member-filter_edit_points selection points p = ground (
  arith,
  member-filter p (allows_edit selection) (filter (contains selection.bounds) points),
  member-filter p (contains selection.bounds) points,
)
