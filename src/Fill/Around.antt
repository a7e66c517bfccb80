-- ===== src/Fill/Around.antt =====
-- How many neighbors a place has (domain/painter-operations/fill/fill.rs, `neighbors`).
use thaum_painter.Base.{◌≤◌, concat_map, Bool, not, List, [], ◌∷◌, filter, length, arith}
use thaum_painter.Cell.{CellPoint, point_eq}
use thaum_painter.Plane.{CanvasBounds}
use thaum_painter.Fill.{
  FillConnectivity, adjacent, diagonal, all, FillDepthMode, plane, through_depth, neighbors,
  in_plane_neighbors, cube_candidates,
}

length-filter : {A : Type 0} (test : A → Bool) (xs : List A) → length (filter test xs) ≤ length xs
unfolding filter
length-filter test [] = ground arith
length-filter test (x ∷ xs) = ground (arith, length-filter test xs)

-- No place has more than 27 neighbors: the candidates of the cube.
pub length-neighbors :
    (bounds : CanvasBounds) (p : CellPoint) (c : FillConnectivity) (d : FillDepthMode)
    → length (neighbors bounds p c d) ≤ 27
unfolding neighbors in_plane_neighbors cube_candidates concat_map
length-neighbors bounds p adjacent plane = ground arith
length-neighbors bounds p diagonal plane = ground arith
length-neighbors bounds p all plane = ground arith
length-neighbors bounds p adjacent through_depth = ground arith
length-neighbors bounds p all through_depth = ground arith
length-neighbors bounds p diagonal through_depth =
    let n = length-filter (λ candidate. not (point_eq candidate p)) (cube_candidates bounds p) in
    omega (arith, n)
