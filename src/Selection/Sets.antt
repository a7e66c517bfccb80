-- ===== src/Selection/Sets.antt =====
-- Membership after the set operations that selections are made of.
use thaum_painter.Base.{
  Bool, not, ◌&&◌, ◌||◌, [], ◌∷◌, ◌++◌, filter, arith, ◌≡◌, refl, Bool-cases, inl, inr,
}
use thaum_painter.Base.Map.{member}
use thaum_painter.Cell.{CellPoint, point_eq, point_Eq, point_eq_iff}
use thaum_painter.Selection.{Cells, remove_cell, remove_cells, intersection}

pub member-append :
    (p : CellPoint) (xs ys : Cells) → member p (xs ++ ys) ≡ (member p xs || member p ys)
unfolding member
member-append p [] ys = refl
member-append p (x ∷ xs) ys = ground (arith, member-append p xs ys)

pub member-filter :
    (p : CellPoint) (test : CellPoint → Bool) (xs : Cells)
    → member p (filter test xs) ≡ (member p xs && test p)
unfolding member filter
member-filter p test [] = refl
member-filter p test (x ∷ xs) = elim (Bool-cases (point_eq x p)) [
  | inl e ↦
      rw ((point_eq_iff x p).0 e)
        (ground (arith, member-filter p test xs, (point_eq_iff p p).1 refl))
  | inr e ↦ ground (arith, member-filter p test xs, e)
]

pub member-remove_cell :
    (p q : CellPoint) (xs : Cells)
    → member p (remove_cell q xs) ≡ (member p xs && not (point_eq p q))
unfolding remove_cell
member-remove_cell p q xs = member-filter p (λ cell. not (point_eq cell q)) xs

pub member-remove_cells :
    (p : CellPoint) (qs xs : Cells)
    → member p (remove_cells qs xs) ≡ (member p xs && not (member p qs))
unfolding remove_cells member
member-remove_cells p [] xs = ground arith
member-remove_cells p (q ∷ qs) xs = ground (
  arith,
  member-remove_cells p qs (remove_cell q xs),
  member-remove_cell p q xs,
  point_eq_iff p q,
  point_eq_iff q p,
)

pub member-intersection :
    (p : CellPoint) (xs ys : Cells) → member p (intersection xs ys) ≡ (member p xs && member p ys)
unfolding intersection
member-intersection p xs ys = member-filter p (λ cell. member cell ys) xs
